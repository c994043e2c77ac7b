-- ===== src/Services/Kyc.antt =====
-- services/kyc/service.py: biometric operations. `loads` is json.loads on a text.
pub mod Models
pub mod Once
use jibit_ir_sdk.Prelude.{
  ℕ, ℤ, pos, negsuc, String, Bool, true, false, not, ◌&&◌, ◌||◌, Option, none, some, List, [], ◌∷◌,
  ◌++◌, ◌*◌, ◌==◌, leb, ltb, length, all, if◌then◌else◌,
}
use jibit_ir_sdk.Prelude.Text.{is_blank, codes, count_chars, lower}
use jibit_ir_sdk.Types.{value, ContentPartType, form_field, file, MultipartPart, unsafe, kyc}
use jibit_ir_sdk.Json.{Json, null, bool, int, float, str}
use jibit_ir_sdk.Unicode.{Unicode}
use jibit_ir_sdk.Exceptions.{Raised}
use jibit_ir_sdk.Effects.{Environment, Outcome, ok, raised, M, lift, ◌>>=◌}
use jibit_ir_sdk.Response.{RawResponse, ApiResponse}
use jibit_ir_sdk.Engine.{RequestOptions}
use jibit_ir_sdk.Services.Base.{Model, typed_request}
use jibit_ir_sdk.Services.Facade.{options_of, invalid}
use jibit_ir_sdk.Services.Contracts.Models.{starts_with}
use jibit_ir_sdk.Services.Kyc.Models.{MediaFile, normalize_string_contract}

abbrev pub max_image_bytes : ℕ
max_image_bytes = 10 * 1024 * 1024

abbrev pub max_ocr_bytes : ℕ
max_ocr_bytes = 4 * 1024 * 1024

abbrev pub max_video_bytes : ℕ
max_video_bytes = 40 * 1024 * 1024

-- `_validate_media`, with its one prefix
unfoldable pub media_ok : MediaFile → ℕ → String → Bool
unfolding starts_with
media_ok media limit prefix =
    if ltb limit (length media.content)
    then false
    else starts_with (codes prefix) (codes media.content_type)

-- len(national_id) == 10 and national_id.isdigit()
unfoldable pub national_id_ok : Unicode → String → Bool
national_id_ok u s = (count_chars s == 10) && all u.is_digit_sign (codes s)

abbrev in_range : ℕ → ℕ → ℤ → Bool
in_range lo hi (pos n) = leb lo n && leb n hi
in_range lo hi (negsuc n) = false

abbrev dist_ok : Option ℤ → Bool
dist_ok none = true
dist_ok (some z) = in_range 1 10 z

abbrev opt_text : Option String → Json
opt_text none = null
opt_text (some s) = str s

abbrev opt_int : Option ℤ → Json
opt_int none = null
opt_int (some z) = int z

abbrev opt_float : Option ℤ → Json
opt_float none = null
opt_float (some z) = float z

abbrev opt_bool : Option Bool → Json
opt_bool none = null
opt_bool (some b) = bool b

pub record VideoCheck : Type 0 where
  pub national_id : String
  pub video : MediaFile
  pub line : String
  pub birth_date : Option String
  pub national_card_serial : Option String
  pub spec_words : Option String
  pub max_accepted_dist : Option ℤ
  pub asr_threshold : Option ℤ
  pub liveness_threshold : Option ℤ
  pub verification_threshold : Option ℤ
  pub check_liveness : Option Bool

pub record PhotoCheck : Type 0 where
  pub national_id : String
  pub live_face : MediaFile
  pub birth_date : Option String
  pub serial : Option String
  pub reference_face : Option MediaFile
  pub liveness_threshold : Option ℤ
  pub verification_threshold : Option ℤ

-- The checks of `verify_video`, in their order; all of them refuse in the same way.
unfoldable pub video_check_ok : Unicode → VideoCheck → Bool
unfolding media_ok national_id_ok
video_check_ok u r =
    if not (dist_ok r.max_accepted_dist)
    then false
    else if not (national_id_ok u r.national_id)
    then false
    else if is_blank r.line
    then false
    else media_ok r.video max_video_bytes "video/"

abbrev reference_ok : Option MediaFile → Bool
reference_ok none = true
reference_ok (some media) = media_ok media max_image_bytes "image/"

unfoldable pub photo_check_ok : Unicode → PhotoCheck → Bool
unfolding media_ok national_id_ok
photo_check_ok u r =
    if not (national_id_ok u r.national_id)
    then false
    else if not (media_ok r.live_face max_image_bytes "image/")
    then false
    else reference_ok r.reference_face

accept_if : Bool → String → String → Outcome (Unit {0})
accept_if accepted operation path =
    if accepted then ok tt else raised (invalid kyc operation "POST" path)

-- `_file`
file_part : String → MediaFile → MultipartPart
file_part name media = record {
  name = name;
  kind = file;
  value = media.content;
  filename = some media.filename;
  content_type = some media.content_type;
}

abbrev face_parts : Option MediaFile → List MultipartPart
face_parts none = []
face_parts (some media) = file_part "api_face" media ∷ []

module _ {S : Type 0} (env : Environment) (loads : String → Option Json)
    (executor : RequestOptions → M S RawResponse) where
  -- str(value).lower() if isinstance(value, bool) else str(value)
  abbrev text_of : Json → String
  text_of (bool b) = lower (env.py_str (bool b))
  text_of v = env.py_str v

  abbrev field_part : String → Json → MultipartPart
  field_part name v = record {
    name = name;
    kind = form_field;
    value = codes (text_of v);
    filename = none;
    content_type = none;
  }

  -- `_fields`: None is left out.
  unfoldable pub field_parts : List (String × Json) → List MultipartPart
  field_parts [] = []
  field_parts ((name, null) ∷ rest) = field_parts rest
  field_parts ((name, v) ∷ rest) = field_part name v ∷ field_parts rest

  -- `_execute`
  send_parts : {A : Type 0} → Model A → String → String → List MultipartPart → M S (ApiResponse A)
  send_parts model operation path parts =
      typed_request env executor
        (record (options_of kyc operation "POST" path unsafe null null) { multipart = some parts })
        (λ v. model (normalize_string_contract loads v))

  -- `_post`
  post :
      {A : Type 0}
      → Model A
      → String
      → String
      → List (String × Json)
      → String
      → MediaFile
      → M S (ApiResponse A)
  unfolding file_part send_parts
  post model operation path fields name media =
      send_parts model operation path (field_parts fields ++ file_part name media ∷ [])

  unfoldable pub verify_video : {A : Type 0} → Model A → VideoCheck → M S (ApiResponse A)
  unfolding accept_if post
  verify_video model r = do
    checked ← lift (accept_if (video_check_ok env.unicode r) "verify_video" "/alpha/v2/kyc")
    post model "verify_video" "/alpha/v2/kyc"
        (("national_id", str r.national_id)
          ∷ ("line", str r.line)
          ∷ ("birth_date", opt_text r.birth_date)
          ∷ ("national_card_serial", opt_text r.national_card_serial)
          ∷ ("spec_words", opt_text r.spec_words)
          ∷ ("max_accepted_dist", opt_int r.max_accepted_dist)
          ∷ ("asr_threshold", opt_float r.asr_threshold)
          ∷ ("liveness_threshold", opt_float r.liveness_threshold)
          ∷ ("verification_threshold", opt_float r.verification_threshold)
          ∷ ("check_liveness", opt_bool r.check_liveness)
          ∷ [])
        "video_file" r.video

  unfoldable pub verify_photo : {A : Type 0} → Model A → PhotoCheck → M S (ApiResponse A)
  unfolding accept_if send_parts file_part
  verify_photo model r = do
    checked ←
        lift (accept_if (photo_check_ok env.unicode r) "verify_photo" "/alpha/v2/authorization")
    send_parts model "verify_photo" "/alpha/v2/authorization" (
        field_parts (
          ("ssn", str r.national_id)
          ∷ ("birth_date", opt_text r.birth_date)
          ∷ ("serial", opt_text r.serial)
          ∷ ("liveness_threshold", opt_float r.liveness_threshold)
          ∷ ("verification_threshold", opt_float r.verification_threshold)
          ∷ [])
        ++ file_part "live_face" r.live_face ∷ face_parts r.reference_face)

  -- The three OCR operations: the check of the image, and its upload.
  ocr :
      {A : Type 0}
      → Model A
      → String
      → String
      → List (String × Json)
      → MediaFile
      → M S (ApiResponse A)
  unfolding accept_if post
  ocr model operation path fields image = do
    checked ← lift (accept_if (media_ok image max_ocr_bytes "image/") operation path)
    post model operation path fields "file" image

  unfoldable pub ocr_national_card :
      {A : Type 0} → Model A → MediaFile → Option Bool → Option Bool → M S (ApiResponse A)
  unfolding ocr
  ocr_national_card model image is_back try_rotate =
      ocr model "ocr_national_card" "/alpha/ocr"
        (("is_back", opt_bool is_back) ∷ ("try_rotate", opt_bool try_rotate) ∷ []) image

  unfoldable pub ocr_cheque : {A : Type 0} → Model A → MediaFile → M S (ApiResponse A)
  unfolding ocr
  ocr_cheque model image = ocr model "ocr_cheque" "/alpha/cheque" [] image

  unfoldable pub ocr_bank_card : {A : Type 0} → Model A → MediaFile → M S (ApiResponse A)
  unfolding ocr
  ocr_bank_card model image = ocr model "ocr_bank_card" "/alpha/bank/card" [] image

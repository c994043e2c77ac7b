-- ===== src/Services/Contracts/Models.antt =====
-- services/contracts/models.py: signers and contracts. The texts of the file's base64 form come from
-- the two directions of base64, which are parameters.
use jibit_ir_sdk.Prelude.{
  ℕ, String, Bool, true, false, ◌&&◌, Option, none, some, List, [], ◌∷◌, ◌==◌, leb, length, all,
}
use jibit_ir_sdk.Prelude.Text.{codes, count_chars}
use jibit_ir_sdk.Json.{Json, null, str, arr, obj, Fields, end, field, or_null}
use jibit_ir_sdk.Unicode.{Unicode}
use jibit_ir_sdk.Transport.{Bytes}
use jibit_ir_sdk.Services.Fields.{bounded, between, text_between, payload, number, objects}
use jibit_ir_sdk.Services.Patterns.{is_digits, is_track_char}

pub record Signer : Type 0 where
  pub national_code : String
  pub birth_date : String
  pub mobile_number : Option String
  pub priority : Option ℕ
  pub x1 : Option ℕ
  pub x2 : Option ℕ
  pub y1 : Option ℕ
  pub y2 : Option ℕ
  pub page_sign_selection : Option String
  pub dependent_legal_national_code : Option String
  pub dependent_legal_name : Option String

abbrev same_presence : Option String → Option String → Bool
same_presence none none = true
same_presence (some a) (some b) = true
same_presence _ _ = false

-- The bounds and `validate_legal_dependency`.
unfoldable pub signer_ok : Unicode → Signer → Bool
signer_ok u r =
    is_digits u 10 r.national_code
    && leb 1 (count_chars r.birth_date)
    && same_presence r.dependent_legal_national_code r.dependent_legal_name

abbrev dependent_to : Option String → Option String → Json
dependent_to (some code) (some name) =
    obj (field "nationalCode" (str code) (field "legalName" (str name) end))
dependent_to _ _ = null

-- `Signer.to_provider_payload`: the natural person's fields are nested, and `dependentTo` stands
-- beside them if the signer acts for a legal entity.
unfoldable pub signer_payload : Signer → Fields
signer_payload r = payload (
    (
      "naturalSigner",
      obj (
          payload (
            ("nationalCode", str r.national_code)
            ∷ ("birthDate", str r.birth_date)
            ∷ ("mobileNumber", or_null r.mobile_number)
            ∷ ("priority", number r.priority)
            ∷ ("x1", number r.x1)
            ∷ ("x2", number r.x2)
            ∷ ("y1", number r.y1)
            ∷ ("y2", number r.y2)
            ∷ ("pageSignSelection", or_null r.page_sign_selection)
            ∷ [])),
    )
    ∷ ("dependentTo", dependent_to r.dependent_legal_national_code r.dependent_legal_name)
    ∷ [])

pub record InitiateContractRequest : Type 0 where
  pub track_id : String
  pub base64_file : String
  pub redirect_url : String
  pub signers : List Signer
  pub expire_at : Option ℕ
  pub description : Option String
  pub signature_appearance : Option String

-- min_length=1, max_length=200, pattern=^[A-Za-z0-9_-]+$
unfoldable pub track_id_ok : String → Bool
track_id_ok s = text_between 1 200 s && all is_track_char (codes s)

-- decoded.startswith(b"%PDF-")
unfoldable pub starts_with : List ℕ → List ℕ → Bool
starts_with [] cs = true
starts_with (p ∷ ps) [] = false
starts_with (p ∷ ps) (c ∷ cs) = p == c && starts_with ps cs

abbrev pub is_pdf : Bytes → Bool
is_pdf content = starts_with (codes "%PDF-") content

-- `require_valid_pdf`, at the decoder of base64
abbrev pub valid_pdf : Option Bytes → Bool
valid_pdf none = false
valid_pdf (some content) = is_pdf content

unfoldable pub initiate_ok : Unicode → (String → Option Bytes) → InitiateContractRequest → Bool
unfolding signer_ok track_id_ok starts_with
initiate_ok u b64decode r =
    track_id_ok r.track_id
    && text_between 1 14000000 r.base64_file
    && valid_pdf (b64decode r.base64_file)
    && between 1 10 (length r.signers)
    && all (signer_ok u) r.signers
    && bounded (λ s. leb (count_chars s) 1000) r.description

abbrev instant : (ℕ → String) → Option ℕ → Json
instant iso none = null
instant iso (some t) = str (iso t)

-- `InitiateContractRequest.to_provider_payload`
unfoldable pub initiate_payload : (ℕ → String) → InitiateContractRequest → Fields
unfolding signer_payload
initiate_payload iso r = payload (
    ("trackId", str r.track_id)
    ∷ ("base64File", str r.base64_file)
    ∷ ("redirectUrl", str r.redirect_url)
    ∷ ("signers", arr (objects signer_payload r.signers))
    ∷ ("expireAt", instant iso r.expire_at)
    ∷ ("description", or_null r.description)
    ∷ ("signatureAppearance", or_null r.signature_appearance)
    ∷ [])

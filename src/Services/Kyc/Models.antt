-- ===== src/Services/Kyc/Models.antt =====
-- services/kyc/models.py: uploads, and the shapes of the biometric responses.
use jibit_ir_sdk.Prelude.{String, Option, none, some, is_empty, if◌then◌else◌}
use jibit_ir_sdk.Prelude.Text.{is_blank}
use jibit_ir_sdk.Json.{Json, str, obj, end, field}
use jibit_ir_sdk.Transport.{Bytes}
use jibit_ir_sdk.Exceptions.{validation, empty_context, Raised, jibit}
use jibit_ir_sdk.Effects.{Outcome, ok, raised}

pub record MediaFile : Type 0 where
  pub content : Bytes
  pub filename : String
  pub content_type : String

abbrev pub media_error : Raised
media_error = jibit (record { type = validation; context = empty_context })

-- `MediaFile.__init__`
unfoldable pub media_file : Bytes → String → String → Outcome MediaFile
media_file content filename content_type =
    if is_empty content
    then raised media_error
    else if is_blank filename
    then raised media_error
    else if is_blank content_type
    then raised media_error
    else ok (record { content = content; filename = filename; content_type = content_type })

-- What `normalize_string_contract` makes of the decoded text; `none` is a JSONDecodeError.
abbrev wrapped : String → Option Json → Json
wrapped s none = obj (field "data" (str s) end)
wrapped s (some (obj fs)) = obj fs
wrapped s (some v) = obj (field "data" v end)

-- `KycResponse.normalize_string_contract`, before the model reads the value
abbrev pub normalize_string_contract : (String → Option Json) → Json → Json
normalize_string_contract loads (str s) = wrapped s (loads s)
normalize_string_contract loads v = v

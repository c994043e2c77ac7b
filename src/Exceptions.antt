-- ===== src/Exceptions.antt =====
-- exceptions.py: the error hierarchy and the context of an error. A message's text is not kept.
use jibit_ir_sdk.Prelude.{ℕ, String, Bool, false, Option, none, some, [], ◌∷◌}
use jibit_ir_sdk.Prelude.Dict.{Dict}
use jibit_ir_sdk.Prelude.{pos}
use jibit_ir_sdk.Json.{Json, bool, int, str}
use jibit_ir_sdk.Unicode.{Unicode}
use jibit_ir_sdk.Redaction.{redacted, redact_text}

-- The classes of the hierarchy, all direct subclasses of `JibitError`.
pub data ErrorType : Type 0 where
  configuration authentication authorization validation business rate_limit : ErrorType
  timeout network server response webhook_verification unsupported_operation : ErrorType

-- type(error).__name__
unfoldable pub error_name : ErrorType → String
error_name configuration = "JibitConfigurationError"
error_name authentication = "JibitAuthenticationError"
error_name authorization = "JibitAuthorizationError"
error_name validation = "JibitValidationError"
error_name business = "JibitBusinessError"
error_name rate_limit = "JibitRateLimitError"
error_name timeout = "JibitTimeoutError"
error_name network = "JibitNetworkError"
error_name server = "JibitServerError"
error_name response = "JibitResponseError"
error_name webhook_verification = "JibitWebhookVerificationError"
error_name unsupported_operation = "JibitUnsupportedOperationError"

pub record ErrorContext : Type 0 where
  pub service : Option String
  pub operation : Option String
  pub method : Option String
  pub endpoint : Option String
  pub status_code : Option ℕ
  pub error_code : Option String
  pub upstream_message : Option String
  pub upstream_request_id : Option String
  pub fingerprint : Option String
  pub reference_number : Option String
  pub correlation_id : Option String
  pub retryable : Bool

-- __post_init__: the provider's free text is discarded.
discard : Option String → Option String
discard none = none
discard (some message) = some redacted

unfoldable pub post_init : ErrorContext → ErrorContext
unfolding discard
post_init c = record c { upstream_message = discard c.upstream_message }

abbrev pub empty_context : ErrorContext
empty_context = record {
  service = none;
  operation = none;
  method = none;
  endpoint = none;
  status_code = none;
  error_code = none;
  upstream_message = none;
  upstream_request_id = none;
  fingerprint = none;
  reference_number = none;
  correlation_id = none;
  retryable = false;
}

pub record JibitError : Type 0 where
  pub type : ErrorType
  pub context : ErrorContext

-- What a call can raise: an error of the hierarchy, or another Python exception.
pub data Raised : Type 0 where
  jibit : JibitError → Raised
  value_error type_error overflow_error other_error : Raised
  -- the model's own: the bound on a loop was too small
  out_of_fuel : Raised

module _ (u : Unicode) where
  abbrev text_entry : String → Option String → Dict Json → Dict Json
  text_entry name none rest = rest
  text_entry name (some s) rest = (name, str (redact_text u s)) ∷ rest

  abbrev status_entry : Option ℕ → Dict Json → Dict Json
  status_entry none rest = rest
  status_entry (some code) rest = ("status_code", int (pos code)) ∷ rest

  abbrev message_entry : Option String → Dict Json → Dict Json
  message_entry none rest = rest
  message_entry (some s) rest = ("upstream_message", str redacted) ∷ rest

  -- The populated fields, with identifiers in free text masked.
  unfoldable pub safe_dict : ErrorContext → Dict Json
  safe_dict c = text_entry "service" c.service (
      text_entry "operation" c.operation (
        text_entry "method" c.method (
          text_entry "endpoint" c.endpoint (
            status_entry c.status_code (
              text_entry "error_code" c.error_code (
                message_entry c.upstream_message (
                  text_entry "upstream_request_id" c.upstream_request_id (
                    text_entry "fingerprint" c.fingerprint (
                      text_entry "reference_number" c.reference_number (
                        text_entry "correlation_id" c.correlation_id
                          (("retryable", bool c.retryable) ∷ [])))))))))))

-- ===== src/Services/Base.antt =====
-- services/base.py: audited execution, and the checks of requests and responses. Pydantic is a
-- parameter: a model is a function from a decoded value to the validated value, if there is one.
pub mod Audit
use jibit_ir_sdk.Prelude.{
  ℕ, String, ◌=ₛ◌, Bool, true, false, not, Option, none, some, List, [], ◌∷◌, pos, if◌then◌else◌,
}
use jibit_ir_sdk.Prelude.Text.{is_blank}
use jibit_ir_sdk.Types.{value}
use jibit_ir_sdk.Json.{Json, null, int, str, Fields, end, field, or_null}
use jibit_ir_sdk.Exceptions.{
  ErrorType, timeout, network, server, response, validation, error_name, ErrorContext,
  empty_context, JibitError, Raised, jibit, type_error,
}
use jibit_ir_sdk.Logging.{AuditEvent, post_init, error, audit_emit_failed, to_fields}
use jibit_ir_sdk.Effects.{
  Environment, audited, Outcome, ok, raised, M, pure, raise, catch, lift, ask, log, ◌>>=◌, ◌>>◌,
}
use jibit_ir_sdk.Response.{RawResponse, ApiResponse, json}
use jibit_ir_sdk.Engine.{RequestOptions}

-- isinstance(error, (JibitTimeoutError, JibitNetworkError, JibitServerError, JibitResponseError))
abbrev pub is_uncertain : ErrorType → Bool
is_uncertain timeout = true
is_uncertain network = true
is_uncertain server = true
is_uncertain response = true
is_uncertain _ = false

-- The outcome that an audit event reports for an error.
unfoldable pub outcome_of : ErrorType → String
outcome_of type = if is_uncertain type then "unknown" else "failed"

abbrev or_unavailable : Option String → String
or_unavailable none = "unavailable"
or_unavailable (some id) = if is_blank id then "unavailable" else id

abbrev or_null_status : Option ℕ → Json
or_null_status none = null
or_null_status (some n) = int (pos n)

abbrev error_metadata : JibitError → Fields
error_metadata e = to_fields (
    ("error_type", str (error_name e.type))
    ∷ ("error_code", or_null e.context.error_code)
    ∷ ("status_code", or_null_status e.context.status_code)
    ∷ [])

module _ {S : Type 0} (env : Environment) where
  -- The answer of the sink: `some` names the exception that it raised, which is only logged.
  after_sink : String → String → String → Option String → M S (Unit {0})
  after_sink service operation correlation_id none = pure tt
  after_sink service operation correlation_id (some error_type) = log env error audit_emit_failed (
      ("service", str service)
      ∷ ("operation", str operation)
      ∷ ("correlation_id", str correlation_id)
      ∷ ("error_type", str error_type)
      ∷ [])

  -- `_emit`
  unfoldable pub emit : String → String → String → String → String → Fields → M S (Unit {0})
  unfolding after_sink
  emit name service operation correlation_id outcome metadata =
      let event = post_init env.unicode (record {
        name = name;
        correlation_id = correlation_id;
        service = service;
        operation = operation;
        outcome = outcome;
        metadata = metadata;
      }) in
      do
        failure ← ask (audited event) (λ history. env.sink_error history event)
        after_sink service operation correlation_id failure

  -- The event for an error of the hierarchy; another exception passes unaudited.
  unfoldable pub audit_error : String → String → String → Raised → M S (Unit {0})
  unfolding emit outcome_of
  audit_error name service operation (jibit e) =
      emit name service operation (or_unavailable e.context.correlation_id) (outcome_of e.type)
        (error_metadata e)
  audit_error name service operation other = pure tt

  -- `AuditedRequestExecutor.execute`, around any executor.
  unfoldable pub audited_execute :
      String → (RequestOptions → M S RawResponse) → RequestOptions → M S RawResponse
  unfolding audit_error
  audited_execute event_name executor o = do
    raw ← catch (executor o) λ e. audit_error event_name (value o.service) o.operation e >> raise e
    emit event_name (value o.service) o.operation raw.correlation_id "succeeded"
        (field "status_code" (int (pos raw.status_code)) end)
    pure raw

-- A pydantic model: `none` stands for its ValidationError.
abbrev pub Model : Type 0 → Type 0
Model A = Json → Option A

abbrev pub contract_error : String → String → String → String → RawResponse → Raised
contract_error service operation method endpoint raw = jibit (record {
  type = response;
  context = record empty_context {
    service = some service;
    operation = some operation;
    method = some method;
    endpoint = some endpoint;
    status_code = some raw.status_code;
    correlation_id = some raw.correlation_id;
  };
})

abbrev validated :
    {A : Type 0} → Model A → Raised → RawResponse → Outcome Json → Outcome (ApiResponse A)
validated model failure raw (raised e) = raised failure
validated model failure raw (ok v) = elim (model v) [
  | none ↦ raised failure
  | some result ↦ ok (record { result = result; raw = raw })
]

-- `parse_model_response`: a body that is no JSON, or fits no model, is a response error.
unfoldable pub parse_model_response :
    {A : Type 0}
    → Environment
    → RawResponse
    → Model A
    → String
    → String
    → String
    → String
    → Outcome (ApiResponse A)
parse_model_response env raw model service operation method endpoint =
    validated model (contract_error service operation method endpoint raw) raw (json env raw)

unfoldable pub typed_request :
    {S A : Type 0}
    → Environment
    → (RequestOptions → M S RawResponse)
    → RequestOptions
    → Model A
    → M S (ApiResponse A)
typed_request env executor o model = do
  raw ← executor o
  lift (parse_model_response env raw model (value o.service) o.operation o.method o.path)

-- `compact_values`
unfoldable pub compact_values : Fields → Fields
compact_values end = end
compact_values (field k null fs) = compact_values fs
compact_values (field k v fs) = field k v (compact_values fs)

-- `request_validation_error`
unfoldable pub request_validation_error : String → String → String → String → Raised
request_validation_error service operation method endpoint = jibit (record {
  type = validation;
  context = record empty_context {
    service = some service;
    operation = some operation;
    method = some method;
    endpoint = some endpoint;
  };
})

abbrev or_validation_error : {A : Type 0} → Raised → Option A → Outcome A
or_validation_error e none = raised e
or_validation_error e (some a) = ok a

-- `validate_request`, on the values that pydantic has coerced: `none` stands for a ValidationError.
unfoldable pub validate_request :
    {A : Type 0} → Option A → String → String → String → String → Outcome A
unfolding request_validation_error
validate_request checked service operation method endpoint =
    or_validation_error (request_validation_error service operation method endpoint) checked

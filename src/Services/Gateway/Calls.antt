-- ===== src/Services/Gateway/Calls.antt =====
-- services/payment_gateway/service.py: the calls that the operations share.
use jibit_ir_sdk.Prelude.{String, Bool, none, some, [], if◌then◌else◌}
use jibit_ir_sdk.Types.{OperationSafety, payment_gateway}
use jibit_ir_sdk.Json.{Json, Fields}
use jibit_ir_sdk.Exceptions.{Raised}
use jibit_ir_sdk.Effects.{Environment, Outcome, M, pure, raise, catch, lift, ◌>>=◌, ◌>>◌}
use jibit_ir_sdk.Response.{RawResponse, ApiResponse}
use jibit_ir_sdk.Engine.{RequestOptions}
use jibit_ir_sdk.Services.Base.{
  Model, emit, audit_error, parse_model_response, request_validation_error, validate_request,
}

abbrev pub service : String
service = "payment_gateway"

abbrev pub gateway_options :
    String → String → String → OperationSafety → Json → Json → RequestOptions
gateway_options operation method path safety json params = record {
  service = payment_gateway;
  operation = operation;
  method = method;
  path = path;
  safety = safety;
  headers = [];
  params = params;
  json = json;
  content = none;
  multipart = none;
  idempotency_key = none;
  correlation_id = none;
}

abbrev pub refused : String → String → String → Raised
refused operation method path = request_validation_error service operation method path

-- `_request`: the request, if it passes its model.
unfoldable pub check : {A : Type 0} → Bool → A → String → String → String → Outcome A
check accepted a operation method path =
    validate_request (if accepted then some a else none) service operation method path

module _ {S : Type 0} (env : Environment) (executor : RequestOptions → M S RawResponse) where
  -- `_typed`
  unfoldable pub typed : {A : Type 0} → RequestOptions → Model A → M S (ApiResponse A)
  typed o model = do
    raw ← executor o
    lift (parse_model_response env raw model service o.operation o.method o.path)

  -- `_financial_typed`: errors are audited and raised again.
  unfoldable pub financial_typed :
      {A : Type 0} → String → RequestOptions → Model A → M S (ApiResponse A)
  unfolding typed
  financial_typed audit_name o model =
      catch (typed o model) λ e. audit_error env audit_name service o.operation e >> raise e

  -- `_audit`
  unfoldable pub audit : {A : Type 0} → String → String → ApiResponse A → Fields → M S (Unit {0})
  audit name operation answer metadata =
      emit env name service operation answer.raw.correlation_id "succeeded" metadata

  -- A financial operation: the call, the audit of its success, and the answer.
  unfoldable pub financial :
      {A : Type 0} → String → RequestOptions → Model A → (A → Fields) → M S (ApiResponse A)
  unfolding financial_typed audit
  financial name o model metadata = do
    answer ← financial_typed name o model
    audit name o.operation answer (metadata answer.result)
    pure answer

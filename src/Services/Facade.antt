-- ===== src/Services/Facade.antt =====
-- services/*/service.py: what the facades share: the options of an operation, the check of a request
-- and the result of an operation that answers with a status only.
use jibit_ir_sdk.Prelude.{String, Bool, true, Option, none, some, [], is_empty, if◌then◌else◌}
use jibit_ir_sdk.Types.{ServiceName, value, OperationSafety}
use jibit_ir_sdk.Json.{Json}
use jibit_ir_sdk.Transport.{Bytes}
use jibit_ir_sdk.Exceptions.{Raised}
use jibit_ir_sdk.Effects.{Outcome, M, pure, ◌>>=◌}
use jibit_ir_sdk.Response.{RawResponse, ApiResponse, StatusResult}
use jibit_ir_sdk.Engine.{RequestOptions}
use jibit_ir_sdk.Services.Base.{validate_request, request_validation_error}

-- RequestOptions(service, operation, method, path, safety, params=params, json=json)
abbrev pub options_of :
    ServiceName → String → String → String → OperationSafety → Json → Json → RequestOptions
options_of service operation method path safety params json = record {
  service = service;
  operation = operation;
  method = method;
  path = path;
  safety = safety;
  headers = [];
  params = params;
  json = json;
  content = none;
  multipart = none;
  idempotency_key = none;
  correlation_id = none;
}

-- `_validate`: the request, if it passes its model.
unfoldable pub require :
    {A : Type 0} → ServiceName → Bool → A → String → String → String → Outcome A
unfolding validate_request
require service accepted a operation method path =
    validate_request (if accepted then some a else none) (value service) operation method path

abbrev pub invalid : ServiceName → String → String → String → Raised
invalid service operation method path =
    request_validation_error (value service) operation method path

-- raw.content or None
abbrev raw_body : Bytes → Option Bytes
raw_body content = if is_empty content then none else some content

abbrev pub status_result : RawResponse → ApiResponse StatusResult
status_result raw = record {
  result = record {
    success = true;
    status_code = raw.status_code;
    raw_body = raw_body raw.content;
  };
  raw = raw;
}

-- The call of an operation whose success is its status.
unfoldable pub status_request :
    {S : Type 0}
    → (RequestOptions → M S RawResponse)
    → RequestOptions
    → M S (ApiResponse StatusResult)
status_request executor o = do raw ← executor o; pure (status_result raw)

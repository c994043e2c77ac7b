-- ===== src/Engine/Errors.antt =====
-- engine.py: how an unsuccessful response becomes an error.
use jibit_ir_sdk.Prelude.{
  ℕ, String, Bool, ◌&&◌, ◌||◌, Option, none, some, ◌==◌, leb, is_some, is_empty, if◌then◌else◌,
}
use jibit_ir_sdk.Prelude.Text.{upper}
use jibit_ir_sdk.Types.{value, is_repeatable, is_protected}
use jibit_ir_sdk.Json.{Json, null, arr, obj, cons, Fields, end, get, ◌or◌, or_null}
use jibit_ir_sdk.Exceptions.{
  ErrorType, authentication, authorization, validation, business, rate_limit, server, response,
  ErrorContext, empty_context, post_init, JibitError,
}
use jibit_ir_sdk.Transport.{TransportResponse}
use jibit_ir_sdk.Effects.{Environment}
use jibit_ir_sdk.Engine.Options.{RequestOptions, upstream_request_id}

-- `_context`, with no changes
unfoldable pub context_of : RequestOptions → String → ErrorContext
context_of o id = record empty_context {
  service = some (value o.service);
  operation = some o.operation;
  method = some (upper o.method);
  endpoint = some o.path;
  correlation_id = some id;
}

abbrev fields_of : Option Json → Fields
fields_of (some (obj fs)) = fs
fields_of _ = end

-- `_body_fields`
unfoldable pub body_fields : Environment → TransportResponse → Fields
body_fields env r = if is_empty r.content then end else fields_of (env.loads r.content)

-- The first of the nested errors, if it is an object.
abbrev first_error : Json → Fields
first_error (arr (cons (obj fs) rest)) = fs
first_error _ = end

abbrev text_of : Environment → Json → Option String
text_of env null = none
text_of env v = some (env.py_str v)

-- The class that a status code is raised as.
unfoldable pub error_type_of : ℕ → ErrorType
error_type_of s =
    if s == 401
    then authentication
    else if s == 403
    then authorization
    else if s == 400 || s == 422
    then validation
    else if s == 429
    then rate_limit
    else if leb 500 s
    then server
    else if s == 402 || s == 404 || s == 409
    then business
    else response

-- The statuses that the engine lists as worth a repeat.
unfoldable pub is_retryable_status : ℕ → Bool
is_retryable_status s =
    s == 408 || s == 425 || s == 429 || s == 500 || s == 502 || s == 503 || s == 504

-- Whether the error's context says that the caller may repeat the request.
unfoldable pub is_retryable : RequestOptions → ℕ → Bool
unfolding is_retryable_status
is_retryable o s =
    is_retryable_status s
    && (is_repeatable o.safety || (is_protected o.safety && is_some o.idempotency_key))

-- `_map_error`
unfoldable pub map_error : Environment → RequestOptions → String → TransportResponse → JibitError
unfolding context_of body_fields error_type_of is_retryable
map_error env o id r =
    let body = body_fields env r in
    let first = first_error (get "errors" body) in
    let error_code =
      get "code" body or get "errorCode" body or get "error" body or get "code" first in
    let message =
      get "message" body
      or get "detail" body
      or get "description" body
      or get "message" first
      or get "description" first in
    let reference = get "referenceNumber" body or get "reference_number" body in
    let request_id =
      get "requestId" body or get "request_id" body or or_null (upstream_request_id r.headers) in
    record {
      type = error_type_of r.status_code;
      context = post_init (record (context_of o id) {
        status_code = some r.status_code;
        error_code = text_of env error_code;
        upstream_message = text_of env message;
        upstream_request_id = text_of env request_id;
        fingerprint = text_of env (get "fingerprint" body);
        reference_number = text_of env reference;
        retryable = is_retryable o r.status_code;
      });
    }

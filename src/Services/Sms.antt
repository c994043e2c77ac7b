-- ===== src/Services/Sms.antt =====
-- services/sms/service.py: messages, bulks and their inquiry. `uuid` is the parser of UUIDs.
pub mod Models
pub mod Once
use jibit_ir_sdk.Prelude.{ℕ, String, ◌<>◌, Bool, ◌&&◌, Option, some, none, all}
use jibit_ir_sdk.Prelude.Text.{codes}
use jibit_ir_sdk.Types.{value, OperationSafety, read_only, unsafe, sms}
use jibit_ir_sdk.Json.{Json, null, obj}
use jibit_ir_sdk.Effects.{Environment, Outcome, M, lift, ◌>>=◌}
use jibit_ir_sdk.Response.{RawResponse, ApiResponse}
use jibit_ir_sdk.Engine.{RequestOptions}
use jibit_ir_sdk.Services.Base.{Model, typed_request, validate_request}
use jibit_ir_sdk.Services.Fields.{text_between}
use jibit_ir_sdk.Services.Patterns.{is_reference_char}
use jibit_ir_sdk.Services.Facade.{options_of, require}
use jibit_ir_sdk.Services.Sms.Models.{
  SimpleSmsRequest, simple_sms_ok, simple_sms_payload, PatternSmsRequest, pattern_sms_ok,
  pattern_sms_payload, CreateBulkRequest, create_bulk_ok, create_bulk_payload, Page, page_ok,
  page_query, InboundQuery, inbound_ok, inbound_query,
}

abbrev prefix : String
prefix = "/pulse/api/v1/message/sms"

-- `_reference`
unfoldable pub message_reference_ok : String → Bool
message_reference_ok s = text_between 1 200 s && all is_reference_char (codes s)

module _ {S : Type 0} (env : Environment) (uuid : String → Option String)
    (executor : RequestOptions → M S RawResponse) where
  -- `_typed`
  abbrev call :
      {A : Type 0}
      → String
      → String
      → String
      → OperationSafety
      → Json
      → Json
      → Model A
      → M S (ApiResponse A)
  call operation method path safety params json model =
      typed_request env executor (options_of sms operation method path safety params json) model

  -- `_uuid`
  uuid_of : String → String → Outcome String
  unfolding validate_request
  uuid_of given operation = validate_request (uuid given) (value sms) operation "GET" prefix

  unfoldable pub send : {A : Type 0} → Model A → SimpleSmsRequest → M S (ApiResponse A)
  send model r = do
    request ← lift (require sms (simple_sms_ok r) r "send" "POST" (prefix <> "/send"))
    call "send" "POST" (prefix <> "/send") unsafe null (obj (simple_sms_payload request)) model

  unfoldable pub send_pattern : {A : Type 0} → Model A → PatternSmsRequest → M S (ApiResponse A)
  send_pattern model r = do
    request ←
        lift (require sms (pattern_sms_ok r) r "send_pattern" "POST" (prefix <> "/pattern/send"))
    call "send_pattern" "POST" (prefix <> "/pattern/send") unsafe null
        (obj (pattern_sms_payload request)) model

  unfoldable pub create_bulk : {A : Type 0} → Model A → CreateBulkRequest → M S (ApiResponse A)
  create_bulk model r = do
    request ← lift (require sms (create_bulk_ok r) r "create_bulk" "POST" (prefix <> "/bulk"))
    call "create_bulk" "POST" (prefix <> "/bulk") unsafe null (obj (create_bulk_payload request))
        model

  unfoldable pub get_status : {A : Type 0} → Model A → String → M S (ApiResponse A)
  unfolding uuid_of
  get_status model given = do
    message ← lift (uuid_of given "get_status")
    call "get_status" "GET" (prefix <> "/status/" <> message) read_only null null model

  unfoldable pub get_status_by_client_id : {A : Type 0} → Model A → String → M S (ApiResponse A)
  get_status_by_client_id model given = do
    reference ←
        lift (require sms (message_reference_ok given) given "get_status_by_client_id" "GET" prefix)
    call "get_status_by_client_id" "GET" (prefix <> "/status/client-message-id/" <> reference)
        read_only null null model

  unfoldable pub get_bulk : {A : Type 0} → Model A → String → Page → M S (ApiResponse A)
  unfolding uuid_of
  get_bulk model given p = do
    bulk ← lift (uuid_of given "get_bulk")
    pagination ← lift (require sms (page_ok p) p "get_bulk" "GET" (prefix <> "/bulk/" <> bulk))
    call "get_bulk" "GET" (prefix <> "/bulk/" <> bulk) read_only (obj (page_query pagination)) null
        model

  unfoldable pub fetch_inbound : {A : Type 0} → Model A → InboundQuery → M S (ApiResponse A)
  fetch_inbound model q = do
    query ← lift (require sms (inbound_ok q) q "fetch_inbound" "GET" (prefix <> "/mo-messages"))
    call "fetch_inbound" "GET" (prefix <> "/mo-messages") read_only
        (obj (inbound_query env.iso_instant query)) null model

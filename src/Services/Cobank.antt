-- ===== src/Services/Cobank.antt =====
-- services/cobank/service.py: settlements, their inquiry and their receipts. `uuid` is the parser of
-- UUIDs: the canonical text, if the given text is one.
pub mod Models
pub mod Once
use jibit_ir_sdk.Prelude.{
  ℕ, String, ◌<>◌, Bool, true, false, ◌&&◌, Option, none, some, List, [], ◌∷◌, pos, if◌then◌else◌,
}
use jibit_ir_sdk.Types.{value, OperationSafety, read_only, idempotent, unsafe, cobank}
use jibit_ir_sdk.Json.{Json, null, bool, int, str, arr, obj, Fields, end, field, text_items}
use jibit_ir_sdk.Exceptions.{Raised}
use jibit_ir_sdk.Effects.{Environment, Outcome, M, pure, lift, ◌>>=◌}
use jibit_ir_sdk.Response.{RawResponse, ApiResponse}
use jibit_ir_sdk.Engine.{RequestOptions}
use jibit_ir_sdk.Services.Base.{Model, typed_request, validate_request}
use jibit_ir_sdk.Services.Facade.{options_of, require}
use jibit_ir_sdk.Services.Cobank.Models.{
  CreateSettlementRequest, create_settlement_ok, create_settlement_payload, parse_all,
  batch_size_ok, Pagination, pagination_ok, reference_value_ok, ReceiptState, active, inactive,
  receipt_state,
}

abbrev settlement_path : String
settlement_path = "/cobank/v1/orders/settlement"

abbrev pub settlement_receipt_path : String → String
settlement_receipt_path reference = "/cobank/v2/orders/settlement/" <> reference <> "/receipt-link"

abbrev pub record_receipt_path : String → String → String
record_receipt_path reference record_reference =
    "/cobank/v2/orders/settlement/" <> reference <> "/records/" <> record_reference
    <> "/receipt-link"

abbrev sized : Option (List String) → Option (List String)
sized none = none
sized (some xs) = if batch_size_ok xs then some xs else none

abbrev show_archive : Bool → Json
show_archive b = obj (field "showArchive" (bool b) end)

abbrev state_body : Bool → Json
state_body on = obj (field "state" (str (receipt_state (if on then active else inactive))) end)

-- `_reference`
reference_of : String → String → Outcome String
unfolding require
reference_of given operation =
    require cobank (reference_value_ok given) given operation "PUT"
      "/cobank/v2/orders/settlement/{reference}/receipt-link"

module _ {S : Type 0} (env : Environment) (uuid : String → Option String)
    (executor : RequestOptions → M S RawResponse) where
  -- `_typed`
  abbrev call :
      {A : Type 0}
      → String
      → String
      → String
      → OperationSafety
      → Json
      → Json
      → Model A
      → M S (ApiResponse A)
  call operation method path safety params json model =
      typed_request env executor (options_of cobank operation method path safety params json) model

  unfoldable pub create_settlement :
      {A : Type 0} → Model A → CreateSettlementRequest → M S (ApiResponse A)
  create_settlement model r = do
    request ← lift (
        require cobank (create_settlement_ok env.unicode r) r "create_settlement" "POST"
          settlement_path)
    call "create_settlement" "POST" settlement_path unsafe null
        (obj (create_settlement_payload request)) model

  -- `_track_id`: one id, checked as a batch of one.
  track_id : String → String → Outcome String
  unfolding validate_request
  track_id given operation =
      validate_request (uuid given) (value cobank) operation "GET" settlement_path

  unfoldable pub inquire_settlement : {A : Type 0} → Model A → String → Bool → M S (ApiResponse A)
  unfolding track_id
  inquire_settlement model given archived = do
    track ← lift (track_id given "inquire_settlement")
    call "inquire_settlement" "GET" (settlement_path <> "/" <> track) read_only
        (show_archive archived) null model

  unfoldable pub batch_inquire_settlements :
      {A : Type 0} → Model A → List String → Bool → M S (ApiResponse A)
  batch_inquire_settlements model given archived = do
    ids ← lift (
        validate_request (sized (parse_all uuid given)) (value cobank) "batch_inquire_settlements"
          "POST" (settlement_path <> "/batch-inquiry"))
    call "batch_inquire_settlements" "POST" (settlement_path <> "/batch-inquiry") idempotent
        (show_archive archived) (obj (field "trackIds" (arr (text_items ids)) end)) model

  unfoldable pub list_settlements : {A : Type 0} → Model A → Pagination → M S (ApiResponse A)
  list_settlements model p = do
    page ←
        lift
          (require cobank (pagination_ok p) p "list_settlements" "GET" (settlement_path <> "/list"))
    call "list_settlements" "GET" (settlement_path <> "/list") read_only
        (obj (
          field "pageNumber" (int (pos page.page_number))
            (field "pageSize" (int (pos page.page_size)) end)))
        null model

  unfoldable pub get_merchant_accounts : {A : Type 0} → Model A → M S (ApiResponse A)
  get_merchant_accounts =
      call "get_merchant_accounts" "GET" "/cobank/v1/accounts/" read_only null null

  unfoldable pub set_settlement_receipt :
      {A : Type 0} → Model A → String → Bool → M S (ApiResponse A)
  unfolding reference_of
  set_settlement_receipt model given on = do
    reference ← lift (reference_of given "set_settlement_receipt")
    call "set_settlement_receipt" "PUT" (settlement_receipt_path reference) idempotent null
        (state_body on) model

  unfoldable pub set_record_receipt :
      {A : Type 0} → Model A → String → String → Bool → M S (ApiResponse A)
  unfolding reference_of
  set_record_receipt model given record_given on = do
    reference ← lift (reference_of given "set_record_receipt")
    record_reference ← lift (reference_of record_given "set_record_receipt")
    call "set_record_receipt" "PUT" (record_receipt_path reference record_reference) idempotent null
        (state_body on) model

-- ===== src/Services/Transfer.antt =====
-- services/transfer/service.py: batches, inquiries, balances and reports of Transferor.
pub mod Models
pub mod Once
use jibit_ir_sdk.Prelude.{
  ℕ, String, ◌<>◌, Bool, true, false, not, ◌&&◌, Option, none, some, List, [], ◌∷◌, pos, leb,
  if◌then◌else◌, ltb,
}
use jibit_ir_sdk.Types.{OperationSafety, read_only, idempotent, unsafe, transfers}
use jibit_ir_sdk.Json.{Json, null, int, str, obj, Fields, end, field}
use jibit_ir_sdk.Exceptions.{Raised}
use jibit_ir_sdk.Unicode.{Unicode}
use jibit_ir_sdk.Effects.{Environment, Outcome, ok, raised, M, pure, raise, lift, ◌>>=◌}
use jibit_ir_sdk.Response.{RawResponse, ApiResponse, StatusResult}
use jibit_ir_sdk.Engine.{RequestOptions}
use jibit_ir_sdk.Services.Base.{Model, typed_request}
use jibit_ir_sdk.Services.Fields.{between, payload, named}
use jibit_ir_sdk.Services.Patterns.{is_digits}
use jibit_ir_sdk.Services.Facade.{options_of, require, invalid, status_request}
use jibit_ir_sdk.Services.Transfer.Models.{
  TransferState, transfer_state, SubmitBatchRequest, submit_batch_ok, submit_batch_payload,
  BatchGeneratorRequest, batch_generator_ok, batch_generator_payload, TransferSelector,
  transfer_selector_ok, transfer_selector_payload, accept_list_response,
}

abbrev transfers_path : String
transfers_path = "/trf/v2/transfers"

-- `_FilterValidation`
pub record TransferFilter : Type 0 where
  pub state : Option TransferState
  pub from_time : Option ℕ
  pub to_time : Option ℕ
  pub page : ℕ
  pub size : ℕ

-- Not later: the ends of the interval may be the same.
abbrev not_later : Option ℕ → Option ℕ → Bool
not_later (some a) (some b) = not (ltb b a)
not_later _ _ = true

unfoldable pub transfer_filter_ok : TransferFilter → Bool
transfer_filter_ok f = leb 1 f.page && between 1 250 f.size && not_later f.from_time f.to_time

abbrev instant : (ℕ → String) → Option ℕ → Json
instant iso none = null
instant iso (some t) = str (iso t)

unfoldable pub transfer_filter_query : (ℕ → String) → TransferFilter → Fields
transfer_filter_query iso f = payload (
    ("state", named transfer_state f.state)
    ∷ ("from", instant iso f.from_time)
    ∷ ("to", instant iso f.to_time)
    ∷ ("page", int (pos f.page))
    ∷ ("size", int (pos f.size))
    ∷ [])

-- str(enabled).lower()
abbrev lower_bool : Bool → String
lower_bool true = "true"
lower_bool false = "false"

-- body[key] = value, for a key that the payload has not
abbrev with_field : Fields → String → Json → Fields
with_field end k v = field k v end
with_field (field j w fs) k v = field j w (with_field fs k v)

-- `request or self._validate(...)`, after the check that not both are given; without any keyword the
-- required fields are missing.
either_request :
    Unicode
    → Option BatchGeneratorRequest
    → Option BatchGeneratorRequest
    → Outcome BatchGeneratorRequest
unfolding require
either_request u (some given) none = ok given
either_request u (some given) (some r) =
    raised (invalid transfers "generate_batch" "POST" "/trf/v2/batch/generate")
either_request u none none =
    raised (invalid transfers "generate_batch" "POST" "/trf/v2/batch/generate")
either_request u none (some r) =
    require transfers (batch_generator_ok u r) r "generate_batch" "POST" "/trf/v2/batch/generate"

module _ {S : Type 0} (env : Environment) (executor : RequestOptions → M S RawResponse) where
  -- `_typed`
  abbrev call :
      {A : Type 0}
      → String
      → String
      → String
      → OperationSafety
      → Json
      → Json
      → Model A
      → M S (ApiResponse A)
  call operation method path safety params json model =
      typed_request env executor (options_of transfers operation method path safety params json)
        model

  -- `_selector`
  select : TransferSelector → String → String → M S TransferSelector
  unfolding require
  select r operation method =
      lift (require transfers (transfer_selector_ok r) r operation method transfers_path)

  unfoldable pub submit_batch : {A : Type 0} → Model A → SubmitBatchRequest → M S (ApiResponse A)
  submit_batch model r = do
    request ←
        lift
          (require transfers (submit_batch_ok env.unicode r) r "submit_batch" "POST" transfers_path)
    call "submit_batch" "POST" transfers_path unsafe null (obj (submit_batch_payload request)) model

  unfoldable pub inquire : {A : Type 0} → Model A → TransferSelector → M S (ApiResponse A)
  unfolding select
  inquire model r = do
    selector ← select r "inquire" "GET"
    call "inquire" "GET" transfers_path read_only (obj (transfer_selector_payload selector)) null
        model

  unfoldable pub cancel : TransferSelector → M S (ApiResponse StatusResult)
  unfolding select
  cancel r = do
    selector ← select r "cancel" "DELETE"
    status_request executor (
        options_of transfers "cancel" "DELETE" transfers_path unsafe
          (obj (transfer_selector_payload selector)) null)

  unfoldable pub retry_failed : TransferSelector → M S (ApiResponse StatusResult)
  unfolding select
  retry_failed r = do
    selector ← select r "retry_failed" "PATCH"
    status_request executor (
        options_of transfers "retry_failed" "PATCH" transfers_path unsafe
          (obj (transfer_selector_payload selector)) (obj (field "state" (str "RETRY") end)))

  unfoldable pub filter_transfers : {A : Type 0} → Model A → TransferFilter → M S (ApiResponse A)
  filter_transfers model f = do
    pagination ← lift (
        require transfers (transfer_filter_ok f) f "filter_transfers" "GET"
          (transfers_path <> "/filter"))
    call "filter_transfers" "GET" (transfers_path <> "/filter") read_only
        (obj (transfer_filter_query env.iso_instant pagination)) null
        (λ v. model (accept_list_response v))

  unfoldable pub set_receipt_enabled :
      {A : Type 0} → Model A → Bool → TransferSelector → M S (ApiResponse A)
  unfolding select
  set_receipt_enabled model enabled r = do
    selector ← select r "set_receipt_enabled" "POST"
    call "set_receipt_enabled" "POST" "/trf/v2/receipts" unsafe null
        (obj (
          with_field (transfer_selector_payload selector) "newEnablementStatus"
            (str (lower_bool enabled))))
        model

  unfoldable pub get_balances : {A : Type 0} → Model A → M S (ApiResponse A)
  get_balances = call "get_balances" "GET" "/trf/v2/balances" read_only null null

  unfoldable pub get_daily_usage_report : {A : Type 0} → Model A → String → M S (ApiResponse A)
  get_daily_usage_report model day = do
    request ← lift (
        require transfers (is_digits env.unicode 6 day) day "get_daily_usage_report" "GET"
          "/trf/v2/reports/daily")
    call "get_daily_usage_report" "GET" "/trf/v2/reports/daily" read_only
        (obj (field "yearMonthDay" (str request) end)) null model

  unfoldable pub get_supported_normal_banks : {A : Type 0} → Model A → M S (ApiResponse A)
  get_supported_normal_banks =
      call "get_supported_normal_banks" "GET" "/trf/v2/banks/normal" read_only null null

  unfoldable pub get_active_normal_banks : {A : Type 0} → Model A → M S (ApiResponse A)
  get_active_normal_banks =
      call "get_active_normal_banks" "GET" "/trf/v2/banks/status" read_only null null

  unfoldable pub generate_batch :
      {A : Type 0}
      → Model A
      → Option BatchGeneratorRequest
      → Option BatchGeneratorRequest
      → M S (ApiResponse A)
  unfolding either_request
  generate_batch model given values = do
    request ← lift (either_request env.unicode given values)
    call "generate_batch" "POST" "/trf/v2/batch/generate" idempotent null
        (obj (batch_generator_payload request)) model

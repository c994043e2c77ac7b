-- ===== src/Services/Gateway.antt =====
-- services/payment_gateway/service.py: the operations of the payment gateway.
pub mod Models
pub mod Calls
pub mod Filters
pub mod Once
pub mod Safety
pub mod Audited
use jibit_ir_sdk.Prelude.{
  ℕ, zero, String, ◌<>◌, Bool, true, false, Option, none, some, List, [], ◌∷◌, pos, is_some, leb,
  ◌&&◌, not, if◌then◌else◌, is_empty,
}
use jibit_ir_sdk.Prelude.Text.{is_blank}
use jibit_ir_sdk.Types.{OperationSafety, read_only, idempotent, unsafe, payment_gateway}
use jibit_ir_sdk.Json.{Json, null, int, str, obj, Fields, or_null}
use jibit_ir_sdk.Transport.{Bytes}
use jibit_ir_sdk.Exceptions.{Raised}
use jibit_ir_sdk.Logging.{to_fields}
use jibit_ir_sdk.Redaction.{decimal}
use jibit_ir_sdk.Effects.{
  Environment, Outcome, ok, raised, M, pure, raise, catch, lift, ◌>>=◌, ◌>>◌,
}
use jibit_ir_sdk.Response.{RawResponse, ApiResponse, StatusResult}
use jibit_ir_sdk.Engine.{RequestOptions}
use jibit_ir_sdk.Services.Base.{
  Model, emit, audit_error, parse_model_response, request_validation_error, validate_request,
}
use jibit_ir_sdk.Services.Facade.{status_result}
use jibit_ir_sdk.Services.Gateway.Calls.{
  service, gateway_options, refused, check, typed, financial_typed, audit, financial,
}
use jibit_ir_sdk.Services.Gateway.Models.{
  CreatePurchaseRequest, create_purchase_ok, create_purchase_payload, PurchaseReference,
  reference_ok, refund_ok, reverse_payload, refund_payload, number, payload, bounded,
}
use jibit_ir_sdk.Services.Gateway.Filters.{
  SettlementFilter, any_settlement, settlement_filter_query, PurchaseFilter, purchase_filter_ok,
  PurchaseHistoryFilter, any_purchase, purchase_filter_query, history_filter_query,
}

-- The fields of the results that the service itself reads.
pub record CreatePurchaseResult : Type 0 where
  pub purchase_id : ℕ
  pub client_reference_number : String

pub record PurchaseStatus : Type 0 where
  pub status : String

pub record RefundPurchaseResult : Type 0 where
  pub refund_id : Option ℕ
  pub batch_id : Option String
  pub transfer_id : Option String

abbrev pub refund_path : ℕ → String → String
refund_path refund_id action = "/ppg/v3/purchases/refunds/" <> decimal refund_id <> "/" <> action

abbrev pub verify_path : ℕ → String
verify_path purchase_id = "/ppg/v3/purchases/" <> decimal purchase_id <> "/verify"

-- criteria or PurchaseFilter()
abbrev or_any : Option PurchaseFilter → PurchaseFilter
or_any none = any_purchase
or_any (some f) = f

-- criteria or SettlementFilter()
abbrev or_any_settlement : Option SettlementFilter → SettlementFilter
or_any_settlement none = any_settlement
or_any_settlement (some f) = f

abbrev inquiry_filter : PurchaseReference → PurchaseFilter
inquiry_filter r = record any_purchase {
  purchase_id = r.purchase_id;
  client_reference_number = r.client_reference_number;
  size = some 1;
}

module _ {S : Type 0} (env : Environment) (executor : RequestOptions → M S RawResponse) where
  unfoldable pub create_purchase :
      Model CreatePurchaseResult → CreatePurchaseRequest → M S (ApiResponse CreatePurchaseResult)
  unfolding check financial
  create_purchase model r = do
    request ← lift (check (create_purchase_ok r) r "create_purchase" "POST" "/ppg/v3/purchases")
    financial env executor "jibit.payment.purchase_created"
        (gateway_options "create_purchase" "POST" "/ppg/v3/purchases" unsafe
          (obj (create_purchase_payload request)) null)
        model
        λ result. to_fields (
          ("purchase_id", int (pos result.purchase_id))
          ∷ ("client_reference_number", str result.client_reference_number)
          ∷ [])

  unfoldable pub filter_purchases :
      {A : Type 0} → Model A → Option PurchaseFilter → M S (ApiResponse A)
  unfolding typed
  filter_purchases model criteria =
      typed env executor
        (gateway_options "filter_purchases" "GET" "/ppg/v3/purchases" read_only null
          (obj (purchase_filter_query env.iso_instant (or_any criteria))))
        model

  unfoldable pub inquire_purchase : {A : Type 0} → Model A → PurchaseReference → M S (ApiResponse A)
  unfolding check filter_purchases
  inquire_purchase model r =
      if not (is_some r.purchase_id) && not (is_some r.client_reference_number)
      then raise (refused "inquire_purchase" "GET" "/ppg/v3/purchases")
      else do
        criteria ← lift (
            check (purchase_filter_ok (inquiry_filter r)) (inquiry_filter r) "inquire_purchase"
              "GET" "/ppg/v3/purchases")
        filter_purchases model (some criteria)

  unfoldable pub verify_purchase : Model PurchaseStatus → ℕ → M S (ApiResponse PurchaseStatus)
  unfolding financial
  verify_purchase model purchase_id =
      if leb purchase_id 0
      then raise (refused "verify_purchase" "POST" (verify_path purchase_id))
      else financial env executor "jibit.payment.purchase_verified"
          (gateway_options "verify_purchase" "POST" (verify_path purchase_id) idempotent null null)
          model
          λ result.
            to_fields (("purchase_id", int (pos purchase_id)) ∷ ("status", str result.status) ∷ [])

  unfoldable pub reverse_purchase :
      Model PurchaseStatus → PurchaseReference → M S (ApiResponse PurchaseStatus)
  unfolding check financial
  reverse_purchase model r = do
    request ← lift (check (reference_ok r) r "reverse_purchase" "POST" "/ppg/v3/purchases/reverse")
    financial env executor "jibit.payment.purchase_reversed"
        (gateway_options "reverse_purchase" "POST" "/ppg/v3/purchases/reverse" idempotent
          (obj (reverse_payload request)) null)
        model
        λ result.
          to_fields (("purchase_id", number r.purchase_id) ∷ ("status", str result.status) ∷ [])

  unfoldable pub refund_purchase :
      Model RefundPurchaseResult
      → PurchaseReference
      → Option ℕ
      → Bool
      → M S (ApiResponse RefundPurchaseResult)
  unfolding check financial
  refund_purchase model r amount cancellable = do
    request ←
        lift (check (refund_ok r amount) r "refund_purchase" "POST" "/ppg/v3/purchases/refund")
    financial env executor "jibit.payment.refund_submitted"
        (gateway_options "refund_purchase" "POST" "/ppg/v3/purchases/refund" unsafe
          (obj (refund_payload request amount cancellable)) null)
        model
        λ result. to_fields (
          ("purchase_id", number r.purchase_id)
          ∷ ("refund_id", number result.refund_id)
          ∷ ("batch_id", or_null result.batch_id)
          ∷ ("transfer_id", or_null result.transfer_id)
          ∷ [])

  unfoldable pub inquire_refund : {A : Type 0} → Model A → ℕ → M S (ApiResponse A)
  unfolding typed
  inquire_refund model refund_id =
      let path = "/ppg/v3/purchases/refunds/" <> decimal refund_id in
      if leb refund_id 0
      then raise (refused "inquire_refund" "GET" path)
      else typed env executor (gateway_options "inquire_refund" "GET" path read_only null null)
          model

  -- `_refund_action`
  unfoldable pub refund_action :
      String → ℕ → String → Option String → M S (ApiResponse StatusResult)
  unfolding check audit
  refund_action operation refund_id action transfer_id =
      let path = refund_path refund_id action in
      if leb refund_id 0 then raise (refused operation "POST" path) else do
        transfer ←
            lift (
              check (bounded (λ s. not (is_blank s)) transfer_id) transfer_id operation "POST" path)
        raw ←
            catch
              (executor (
                gateway_options operation "POST" path unsafe
                  (obj (payload (("transferId", or_null transfer) ∷ []))) null))
              (λ e. audit_error env ("jibit.payment." <> operation) service operation e >> raise e)
        audit env executor ("jibit.payment." <> operation) operation (status_result raw) (
            to_fields
              (("refund_id", int (pos refund_id)) ∷ ("transfer_id", or_null transfer_id) ∷ []))
        pure (status_result raw)

  unfoldable pub verify_refund : ℕ → Option String → M S (ApiResponse StatusResult)
  unfolding refund_action
  verify_refund refund_id transfer_id = refund_action "verify_refund" refund_id "verify" transfer_id

  unfoldable pub retry_refund : ℕ → Option String → M S (ApiResponse StatusResult)
  unfolding refund_action
  retry_refund refund_id transfer_id = refund_action "retry_refund" refund_id "retry" transfer_id

  unfoldable pub cancel_refund : ℕ → Option String → M S (ApiResponse StatusResult)
  unfolding refund_action
  cancel_refund refund_id transfer_id = refund_action "cancel_refund" refund_id "cancel" transfer_id

  unfoldable pub ignore_refund_cancellable_delay :
      ℕ → Option String → M S (ApiResponse StatusResult)
  unfolding refund_action
  ignore_refund_cancellable_delay refund_id transfer_id =
      refund_action "ignore_refund_cancellable_delay" refund_id "ignore-cancellable" transfer_id

  unfoldable pub list_terminals : {A : Type 0} → Model A → M S (ApiResponse A)
  unfolding typed
  list_terminals =
      typed env executor
        (gateway_options "list_terminals" "GET" "/ppg/v3/terminals/list" read_only null null)

  unfoldable pub filter_settlements :
      {A : Type 0} → Model A → Option SettlementFilter → M S (ApiResponse A)
  unfolding typed
  filter_settlements model criteria =
      typed env executor
        (gateway_options "filter_settlements" "GET" "/ppg/v3/settlements" read_only null
          (obj (settlement_filter_query (or_any_settlement criteria))))
        model

  unfoldable pub filter_purchase_histories :
      {A : Type 0} → Model A → PurchaseHistoryFilter → M S (ApiResponse A)
  unfolding typed
  filter_purchase_histories model criteria =
      typed env executor
        (gateway_options "filter_purchase_histories" "GET" "/ppg/v3/purchases/histories" read_only
          null (obj (history_filter_query env.iso_instant criteria)))
        model

  unfoldable pub get_balances : {A : Type 0} → Model A → M S (ApiResponse A)
  unfolding typed
  get_balances =
      typed env executor
        (gateway_options "get_balances" "GET" "/ppg/v3/balances" read_only null null)

  unfoldable pub health : {A : Type 0} → Model A → M S (ApiResponse A)
  unfolding typed
  health =
      typed env executor (gateway_options "health" "GET" "/ppg/v3/app/health" read_only null null)

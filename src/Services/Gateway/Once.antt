-- ===== src/Services/Gateway/Once.antt =====
-- services/payment_gateway/service.py: the operations that move money send at most one request that passes
-- a test, behind an executor that keeps that promise.
use jibit_ir_sdk.Prelude.{ℕ, refl, arith, String, Bool, Option, leb}
use native.Mathlib.Nat.{le_refl}
use jibit_ir_sdk.Json.{Fields}
use jibit_ir_sdk.Transport.{TransportRequest}
use jibit_ir_sdk.Effects.{Environment, M}
use jibit_ir_sdk.Effects.Counts.{
  Adds, Adds-pure, Adds-raise, Adds-weaken, Adds-if, Adds-none, Adds-skip, Adds-bind, Adds-catch,
  Adds-lift,
}
use jibit_ir_sdk.Response.{RawResponse}
use jibit_ir_sdk.Engine.{RequestOptions}
use jibit_ir_sdk.Engine.Sending.{sent_if}
use jibit_ir_sdk.Services.Base.{Model}
use jibit_ir_sdk.Services.Base.Audit.{emit_quiet, audit_error_quiet}
use jibit_ir_sdk.Services.Careful.{IsCareful, AtMostOnce}
use jibit_ir_sdk.Services.Gateway.Calls.{check, typed, financial_typed, audit, financial}
use jibit_ir_sdk.Services.Gateway.{
  CreatePurchaseResult, RefundPurchaseResult, create_purchase, refund_purchase, refund_action,
}
use jibit_ir_sdk.Services.Gateway.Models.{CreatePurchaseRequest, PurchaseReference}

module _ {S : Type 0} (env : Environment) (executor : RequestOptions → M S RawResponse)
    {q : TransportRequest → Bool} {lo hi : ℕ} where
  pub financial_sends :
      {A : Type 0} (name : String) (o : RequestOptions) (model : Model A) (metadata : A → Fields)
      → Adds (sent_if q) lo hi (executor o)
      → Adds (sent_if q) lo hi (financial env executor name o model metadata)
  unfolding financial financial_typed typed audit
  financial_sends name o model metadata h = Adds-weaken _ (le_refl _) (omega arith) (
      Adds-bind _ _
        (Adds-catch _ _ (Adds-bind _ _ h λ raw. Adds-lift _) λ e.
          Adds-skip _ _ (audit_error_quiet env (λ _ _ _. refl) (λ _. refl) _ _ _ _)
            λ _. Adds-raise _)
        λ answer.
          Adds-skip _ _ (emit_quiet env (λ _ _ _. refl) (λ _. refl) _ _ _ _ _ _) λ _. Adds-pure _)

module _ {S : Type 0} (env : Environment) {q : TransportRequest → Bool}
    {executor : RequestOptions → M S RawResponse} (careful : IsCareful q executor) where
  pub create_purchase-AtMostOnce :
      (model : Model CreatePurchaseResult) (r : CreatePurchaseRequest)
      → AtMostOnce q (create_purchase env executor model r)
  unfolding create_purchase check
  create_purchase-AtMostOnce model r =
      Adds-skip _ _ (Adds-lift _)
        λ _. financial_sends env executor _ _ model _ (careful.once _ refl)

  pub refund_purchase-AtMostOnce :
      (model : Model RefundPurchaseResult) (r : PurchaseReference) (amount : Option ℕ)
      (cancellable : Bool)
      → AtMostOnce q (refund_purchase env executor model r amount cancellable)
  unfolding refund_purchase check
  refund_purchase-AtMostOnce model r amount cancellable =
      Adds-skip _ _ (Adds-lift _)
        λ _. financial_sends env executor _ _ model _ (careful.once _ refl)

  pub refund_action-AtMostOnce :
      (operation : String) (refund_id : ℕ) (action : String) (transfer_id : Option String)
      → AtMostOnce q (refund_action env executor operation refund_id action transfer_id)
  unfolding refund_action audit
  refund_action-AtMostOnce operation refund_id action transfer_id =
      Adds-if (leb refund_id 0) _ _ (λ _. Adds-none _ (Adds-raise _))
        λ _. Adds-skip _ _ (Adds-lift _) λ transfer. Adds-weaken _ (omega arith) (le_refl _) (
          Adds-bind _ _
            (Adds-catch _ _ (careful.once _ refl) λ e.
              Adds-skip _ _ (audit_error_quiet env (λ _ _ _. refl) (λ _. refl) _ _ _ _)
                λ _. Adds-raise _)
            λ raw.
              Adds-skip _ _ (emit_quiet env (λ _ _ _. refl) (λ _. refl) _ _ _ _ _ _)
                λ _. Adds-pure _)

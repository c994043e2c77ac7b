-- ===== src/Services/Gateway/Audited.antt =====
-- services/payment_gateway/service.py: how often a financial operation is audited.
use jibit_ir_sdk.Prelude.{ℕ, ◌+◌, ◌≡◌, ap, sym, ◌∙◌, arith, String, true}
use jibit_ir_sdk.Json.{Fields}
use jibit_ir_sdk.Effects.{Environment, World, M, lift, catch, ◌>>=◌}
use jibit_ir_sdk.Effects.Counts.{Adds, Adds-skip, Adds-lift, count}
use jibit_ir_sdk.Effects.Silent.{catch_silently, then_silently}
use jibit_ir_sdk.Response.{RawResponse}
use jibit_ir_sdk.Engine.{RequestOptions}
use jibit_ir_sdk.Services.Base.{Model, validate_request}
use jibit_ir_sdk.Services.Base.Audit.{
  is_audit, audits, emit-Adds, emit-Returns, audit_error-Returns, after_executor,
}
use jibit_ir_sdk.Services.Gateway.Calls.{check, typed, financial_typed, audit, financial}
use jibit_ir_sdk.Services.Gateway.{CreatePurchaseResult, create_purchase}
use jibit_ir_sdk.Services.Gateway.Models.{CreatePurchaseRequest, create_purchase_ok}

cong_add : {a b c d : ℕ} → a ≡ b → c ≡ d → a + c ≡ b + d
cong_add h k = cc

module _ {S : Type 0} (env : Environment) (executor : RequestOptions → M S RawResponse)
    (unaudited : (o : RequestOptions) → Adds is_audit 0 0 (executor o)) where
  typed-Adds :
      {A : Type 0} (o : RequestOptions) (model : Model A)
      → Adds is_audit 0 0 (typed env executor o model)
  unfolding typed
  typed-Adds o model = Adds-skip _ _ (unaudited o) λ raw. Adds-lift _

  financial_transparent :
      {A : Type 0} (name : String) (o : RequestOptions) (model : Model A) (metadata : A → Fields)
      (w : World S)
      → (financial env executor name o model metadata w).0 ≡ (typed env executor o model w).0
  unfolding financial financial_typed audit
  financial_transparent name o model metadata w =
      then_silently _ _ w (λ answer. emit-Returns env _ _ _ _ _ _)
      ∙ catch_silently (typed env executor o model) _ w (λ e. audit_error-Returns env _ _ _ e)

  financial-audits :
      {A : Type 0} (name : String) (o : RequestOptions) (model : Model A) (metadata : A → Fields)
      (w : World S)
      → count is_audit (financial env executor name o model metadata w).1.trace
        ≡ audits (financial env executor name o model metadata w).0 + count is_audit w.trace
  unfolding financial financial_typed audit catch ◌>>=◌
  financial-audits name o model metadata w =
      let low = (typed-Adds o model).at_least w in
      let high = (typed-Adds o model).at_most w in
      after_executor env name "payment_gateway" o.operation (typed env executor o model w).0
        (typed env executor o model w).1 _ (λ answer. emit-Adds env _ _ _ _ _ _)
        (λ answer. emit-Returns env _ _ _ _ _ _)
      ∙ (cong_add (ap audits (sym (financial_transparent name o model metadata w))) (omega arith))

  -- Around an executor that audits nothing itself, a valid purchase leaves exactly one audit event
  -- if `create_purchase` returns or raises an error of the hierarchy, an unreadable response included,
  -- and none if it raises another exception.
  pub create_purchase-audits :
      (model : Model CreatePurchaseResult) (r : CreatePurchaseRequest) (w : World S)
      → create_purchase_ok r ≡ true
      → count is_audit (create_purchase env executor model r w).1.trace
        ≡ audits (create_purchase env executor model r w).0 + count is_audit w.trace
  unfolding create_purchase check validate_request lift ◌>>=◌
  create_purchase-audits model r w h = rw h (financial-audits _ _ model _ w)

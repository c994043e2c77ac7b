-- ===== src/Services/Gateway/Safety.antt =====
-- services/payment_gateway/service.py over auth/authenticated.py: how often the operations that move money
-- are sent.
use jibit_ir_sdk.Prelude.{ℕ, suc, ◌≡◌, refl, arith, String, Bool, true, false, Option, is_some}
use jibit_ir_sdk.Json.{Fields}
use jibit_ir_sdk.Transport.{TransportRequest}
use jibit_ir_sdk.Effects.{Environment, M, World, ok}
use jibit_ir_sdk.Effects.Counts.{Adds, Adds-pure, Adds-lift, Adds-bind, Adds-skip, count}
use jibit_ir_sdk.Effects.Delivers.{
  Delivers, Delivers-raise, Delivers-first, Delivers-rest, Delivers-catch,
}
use jibit_ir_sdk.Response.{RawResponse, ApiResponse}
use jibit_ir_sdk.Engine.{RequestOptions}
use jibit_ir_sdk.Engine.Options.{endpoint_ok}
use jibit_ir_sdk.Engine.Attempts.{sent_if}
use jibit_ir_sdk.Retry.Bounds.{is_safe_to_repeat}
use jibit_ir_sdk.Auth.Store.{TokenStore}
use jibit_ir_sdk.Auth.Provider.{ServiceAuthenticator}
use jibit_ir_sdk.Auth.Provider.Locking.{is_authorized}
use jibit_ir_sdk.Auth.Authenticated.{authenticated_execute}
use jibit_ir_sdk.Auth.Authenticated.Replay.Delivery.{authenticated_execute-Delivers}
use jibit_ir_sdk.Services.Base.{Model}
use jibit_ir_sdk.Services.Base.Audit.{emit_quiet, audit_error_quiet}
use jibit_ir_sdk.Services.Careful.{IsCareful, AtMostOnce}
use jibit_ir_sdk.Services.Careful.Executors.{authenticated_execute-IsCareful}
use jibit_ir_sdk.Services.Gateway.Once.{create_purchase-AtMostOnce, refund_purchase-AtMostOnce}
use jibit_ir_sdk.Services.Gateway.Calls.{check, typed, financial_typed, audit, financial}
use jibit_ir_sdk.Services.Gateway.{
  CreatePurchaseResult, RefundPurchaseResult, create_purchase, refund_purchase,
}
use jibit_ir_sdk.Services.Gateway.Models.{CreatePurchaseRequest, PurchaseReference}

-- A financial operation that returns has sent its request, behind an executor that sends before it
-- returns.
financial-Delivers :
    {S A : Type 0} (env : Environment) (executor : RequestOptions → M S RawResponse)
    {q : TransportRequest → Bool} {hi : ℕ} (name : String) (o : RequestOptions) (model : Model A)
    (metadata : A → Fields)
    → Adds (sent_if q) 0 hi (executor o)
    → Delivers (sent_if q) (executor o)
    → Delivers (sent_if q) (financial env executor name o model metadata)
unfolding financial financial_typed typed audit
financial-Delivers env executor name o model metadata h d =
    Delivers-first _ _
      (Delivers-catch _ _ (Adds-bind _ _ h λ raw. Adds-lift _)
        (Delivers-first _ _ d λ raw. Adds-lift _)
        λ e.
          Delivers-rest _ _ (audit_error_quiet env (λ _ _ _. refl) (λ _. refl) _ _ _ _)
            λ _. Delivers-raise _)
      λ answer.
        Adds-skip _ _ (emit_quiet env (λ _ _ _. refl) (λ _. refl) _ _ _ _ _ _) λ _. Adds-pure _

-- What returns, and sends at most one request, has sent exactly one.
exactly_one :
    {S A : Type 0} {q : TransportRequest → Bool} (m : M S A)
    → AtMostOnce q m
    → Delivers (sent_if q) m
    → (w : World S) (a : A) → (m w).0 ≡ ok a
    → count (sent_if q) (m w).1.trace ≡ suc (count (sent_if q) w.trace)
exactly_one m h d w a e = omega (arith, h.at_most w, d.delivered w a e)

module _ {S : Type 0} (env : Environment) (store : TokenStore S) (a : ServiceAuthenticator)
    (w : World S) where
  careful : IsCareful is_authorized (authenticated_execute env store a)
  careful = authenticated_execute-IsCareful env store a

  authenticated_financial-Delivers :
      {A : Type 0} (name : String) (o : RequestOptions) (model : Model A) (metadata : A → Fields)
      → is_safe_to_repeat o.safety (is_some o.idempotency_key) ≡ false
      → endpoint_ok o.path ≡ true
      → Delivers
          (sent_if is_authorized)
          (financial env (authenticated_execute env store a) name o model metadata)
  authenticated_financial-Delivers name o model metadata h k =
      financial-Delivers env (authenticated_execute env store a) name o model metadata
        (careful.once o h) (authenticated_execute-Delivers env store a o k)

  -- A call of create_purchase that returns has sent exactly one request with a token, whatever the
  -- retry policy allows, and whatever the transport, the token store and other workers do.
  pub create_purchase_once :
      (model : Model CreatePurchaseResult) (r : CreatePurchaseRequest)
      (answer : ApiResponse CreatePurchaseResult)
      → (create_purchase env (authenticated_execute env store a) model r w).0 ≡ ok answer
      → count
          (sent_if is_authorized)
          (create_purchase env (authenticated_execute env store a) model r w).1.trace
        ≡ suc (count (sent_if is_authorized) w.trace)
  unfolding create_purchase check endpoint_ok
  create_purchase_once model r =
      exactly_one _ (create_purchase-AtMostOnce env careful model r)
        (Delivers-rest _ _ (Adds-lift _)
          λ request. authenticated_financial-Delivers _ _ model _ refl refl)
        w

  -- A call of refund_purchase that returns has sent exactly one request with a token.
  pub refund_purchase_once :
      (model : Model RefundPurchaseResult) (r : PurchaseReference) (amount : Option ℕ)
      (cancellable : Bool) (answer : ApiResponse RefundPurchaseResult)
      → (refund_purchase env (authenticated_execute env store a) model r amount cancellable w).0
        ≡ ok answer
      → count
          (sent_if is_authorized)
          (refund_purchase env
            (authenticated_execute env store a)
            model
            r
            amount
            cancellable
            w).1.trace
        ≡ suc (count (sent_if is_authorized) w.trace)
  unfolding refund_purchase check endpoint_ok
  refund_purchase_once model r amount cancellable =
      exactly_one _ (refund_purchase-AtMostOnce env careful model r amount cancellable)
        (Delivers-rest _ _ (Adds-lift _)
          λ request. authenticated_financial-Delivers _ _ model _ refl refl)
        w

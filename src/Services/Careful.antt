-- ===== src/Services/Careful.antt =====
-- What a facade relies on in its executor when it sends an operation that must not be repeated.
pub mod Executors
use jibit_ir_sdk.Prelude.{ℕ, ◌≡◌, refl, ◌≤◌, arith, Bool, false, is_some}
use native.Mathlib.Nat.{le_refl}
use jibit_ir_sdk.Exceptions.{Raised}
use jibit_ir_sdk.Effects.{Environment, Event, Outcome, M, pure, raise, lift, ◌>>=◌}
use jibit_ir_sdk.Effects.Counts.{
  Adds, Adds-pure, Adds-raise, Adds-weaken, Adds-none, Adds-skip, Adds-bind, Adds-lift,
}
use jibit_ir_sdk.Response.{RawResponse, ApiResponse, StatusResult}
use jibit_ir_sdk.Engine.Sending.{sent_if}
use jibit_ir_sdk.Transport.{TransportRequest}
use jibit_ir_sdk.Retry.Bounds.{is_safe_to_repeat}
use jibit_ir_sdk.Engine.{RequestOptions}
use jibit_ir_sdk.Services.Base.{Model, typed_request}
use jibit_ir_sdk.Services.Facade.{status_request}

-- An executor that sends at most one request that passes the test `q` for an operation that is not
-- safe to repeat.
pub record IsCareful {S : Type 0} (q : TransportRequest → Bool)
    (executor : RequestOptions → M S RawResponse) : Type 0 where
  pub once :
      (o : RequestOptions)
      → is_safe_to_repeat o.safety (is_some o.idempotency_key) ≡ false
      → Adds (sent_if q) 0 1 (executor o)

abbrev pub AtMostOnce : {S A : Type 0} → (TransportRequest → Bool) → M S A → Type 0
AtMostOnce q m = Adds (sent_if q) 0 1 m

module _ {S : Type 0} (env : Environment) {q : TransportRequest → Bool}
    {executor : RequestOptions → M S RawResponse} (careful : IsCareful q executor) where
  pub typed_request-AtMostOnce :
      {A : Type 0} (o : RequestOptions) (model : Model A)
      → is_safe_to_repeat o.safety (is_some o.idempotency_key) ≡ false
      → AtMostOnce q (typed_request env executor o model)
  unfolding typed_request
  typed_request-AtMostOnce o model h =
      Adds-weaken _ (le_refl _) (omega arith) (Adds-bind _ _ (careful.once o h) λ raw. Adds-lift _)

  pub status_request-AtMostOnce :
      (o : RequestOptions)
      → is_safe_to_repeat o.safety (is_some o.idempotency_key) ≡ false
      → AtMostOnce q (status_request executor o)
  unfolding status_request
  status_request-AtMostOnce o h =
      Adds-weaken _ (le_refl _) (omega arith) (Adds-bind _ _ (careful.once o h) λ raw. Adds-pure _)

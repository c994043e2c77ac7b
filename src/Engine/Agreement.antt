-- ===== src/Engine/Agreement.antt =====
-- engine.py and retry.py: the flag on an error and the decision of the policy.
use jibit_ir_sdk.Prelude.{ℕ, ◌<◌, ◌≡◌, arith, false, some, is_some}
use jibit_ir_sdk.Config.{RetryConfig}
use jibit_ir_sdk.Effects.{Environment, World, ok}
use jibit_ir_sdk.Retry.{RetryDecision, decide, is_transient}
use jibit_ir_sdk.Retry.Bounds.{decide-Decides}
use jibit_ir_sdk.Engine.Options.{RequestOptions}
use jibit_ir_sdk.Engine.Errors.{is_retryable, is_retryable_status}

-- Below the attempt limit, the policy repeats a rejected request exactly if the error mapped from the
-- same status is marked as retryable.
pub decide-is_retryable :
    {S : Type 0} (env : Environment) (r : RetryConfig) (attempt : ℕ) (o : RequestOptions)
    (status : ℕ) (w : World S)
    → attempt < r.max_attempts
    → (d : RetryDecision) × ((decide env r attempt o.safety
          (some status)
          false
          (is_some o.idempotency_key)
          w).0
        ≡ ok d)
      × (d.should_retry ≡ is_retryable o status)
unfolding is_retryable is_retryable_status is_transient
decide-is_retryable env r attempt o status w h =
    let d = decide-Decides env r attempt o.safety (some status) false (is_some o.idempotency_key) in
    (d.decision w, d.answer w, let exact = d.exact w in ground arith)

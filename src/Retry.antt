-- ===== src/Retry.antt =====
-- retry.py: whether and when a completed attempt may be repeated.
pub mod Bounds
use jibit_ir_sdk.Prelude.{
  ℕ, ◌+◌, ◌-◌, ◌*◌, ◌/◌, ◌^◌, min, String, ◌<>◌, Bool, true, false, not, ◌&&◌, ◌||◌, Option, none,
  some, ◌==◌, leb, if◌then◌else◌,
}
use jibit_ir_sdk.Types.{OperationSafety, is_unsafe, is_protected}
use jibit_ir_sdk.Config.{RetryConfig, million}
use jibit_ir_sdk.Redaction.{decimal}
use jibit_ir_sdk.Effects.{Environment, M, pure, ask, drew_random, ◌>>=◌}

-- status in TRANSIENT_STATUS_CODES
unfoldable pub is_transient : ℕ → Bool
is_transient s = s == 408 || s == 425 || s == 429 || s == 500 || s == 502 || s == 503 || s == 504

pub record RetryDecision : Type 0 where
  pub should_retry : Bool
  pub delay : ℕ
  pub reason : String

abbrev pub refuse : String → RetryDecision
refuse reason = record { should_retry = false; delay = 0; reason = reason }

abbrev pub is_transient_status : Option ℕ → Bool
is_transient_status none = false
is_transient_status (some s) = is_transient s

retry_reason : Bool → Option ℕ → String
retry_reason true status = "transport_error"
retry_reason false none = "http_None"
retry_reason false (some s) = "http_" <> decimal s

-- The exponential step, before the jitter.
unfoldable pub backoff : RetryConfig → ℕ → ℕ
backoff r attempt = min r.max_delay (r.base_delay * 2 ^ (attempt - 1))

-- The delay, at a random number in millionths.
unfoldable pub delay_of : RetryConfig → ℕ → ℕ → ℕ
unfolding backoff
delay_of r attempt random =
    let base = backoff r attempt in
    min r.max_delay (base + base * r.jitter_ratio * random / (million * million))

module _ {S : Type 0} (env : Environment) (r : RetryConfig) where
  -- `RetryPolicy.decide`
  unfoldable pub decide :
      (attempt : ℕ) (safety : OperationSafety) (status_code : Option ℕ)
      (transport_error has_idempotency_key : Bool)
      → M S RetryDecision
  unfolding is_transient retry_reason delay_of
  decide attempt safety status_code transport_error has_idempotency_key =
      if leb r.max_attempts attempt
      then pure (refuse "attempt_limit")
      else if is_unsafe safety
      then pure (refuse "unsafe_operation")
      else if is_protected safety && not has_idempotency_key
      then pure (refuse "missing_idempotency_key")
      else if not transport_error && not (is_transient_status status_code)
      then pure (refuse "non_transient_response")
      else do
        random ← ask drew_random env.random
        pure (record {
          should_retry = true;
          delay = delay_of r attempt random;
          reason = retry_reason transport_error status_code;
        })

-- ===== src/Retry/Bounds.antt =====
-- When a retry is allowed, and how long the SDK waits before it.
use jibit_ir_sdk.Prelude.{
  ℕ, ◌*◌, ◌/◌, ◌≤◌, ◌≡◌, refl, String, sym, Bool, true, false, not, ◌&&◌, ◌||◌, Option, arith, ltb,
  leb, if◌then◌else◌,
}
use native.Mathlib.Nat.{le_refl, div-le_of_le-mul, mul-le-mul}
use jibit_ir_sdk.Types.{OperationSafety, is_unsafe, is_protected, is_repeatable}
use jibit_ir_sdk.Config.{RetryConfig, million, retry_ok}
use jibit_ir_sdk.Effects.{Environment, World, ok, M, pure, ask, ◌>>=◌}
use jibit_ir_sdk.Retry.{RetryDecision, is_transient_status, refuse, backoff, delay_of, decide}

-- Whether repeating an operation cannot duplicate its effect.
abbrev pub is_safe_to_repeat : OperationSafety → Bool → Bool
is_safe_to_repeat safety has_key = is_repeatable safety || (is_protected safety && has_key)

-- The retry rule in one formula.
abbrev pub may_repeat : RetryConfig → ℕ → OperationSafety → Option ℕ → Bool → Bool → Bool
may_repeat r attempt safety status transport_error has_key =
    ltb attempt r.max_attempts
    && is_safe_to_repeat safety has_key
    && (transport_error || is_transient_status status)

-- What is known of the decision that `m` returns: it is positive exactly if `allowed`, its delay
-- never passes the maximum, and a retry waits at least the exponential step.
pub record Decides {S : Type 0} (r : RetryConfig) (attempt : ℕ) (allowed : Bool)
    (m : M S RetryDecision) : Type 0 where
  pub decision : (w : World S) → RetryDecision
  pub answer : (w : World S) → (m w).0 ≡ ok (decision w)
  pub exact : (w : World S) → (decision w).should_retry ≡ allowed
  pub bounded : (w : World S) → (decision w).delay ≤ r.max_delay
  pub backs_off : (w : World S) → (if allowed then backoff r attempt else 0) ≤ (decision w).delay

delay_of_bounded : (r : RetryConfig) (attempt random : ℕ) → delay_of r attempt random ≤ r.max_delay
unfolding delay_of
delay_of_bounded r attempt random = omega arith

backoff-le-delay_of :
    (r : RetryConfig) (attempt random : ℕ) → backoff r attempt ≤ delay_of r attempt random
unfolding delay_of
backoff-le-delay_of r attempt random = omega arith

step_le : (b : Bool) (step delay : ℕ) → step ≤ delay → (if b then step else 0) ≤ delay
step_le true step delay h = h
step_le false step delay h = omega arith

module _ {S : Type 0} {r : RetryConfig} {attempt : ℕ} {allowed : Bool} where
  Decides-if :
      (b : Bool) (m n : M S RetryDecision)
      → (b ≡ true → Decides r attempt allowed m)
      → (b ≡ false → Decides r attempt allowed n)
      → Decides r attempt allowed (if b then m else n)
  Decides-if true m n h k = h refl
  Decides-if false m n h k = k refl

  Decides-refuse :
      (reason : String) → allowed ≡ false → Decides r attempt allowed (pure {S = S} (refuse reason))
  unfolding pure
  Decides-refuse reason h = record {
    decision = λ w. refuse reason;
    answer = λ w. refl;
    exact = λ w. sym h;
    bounded = λ w. omega arith;
    backs_off = λ w. rw h (omega arith);
  }

module _ {S : Type 0} (env : Environment) (r : RetryConfig) where
  -- Every decision of the policy is positive exactly if the attempt limit is not reached, the
  -- operation is safe to repeat, and the failure is transient; no delay passes the maximum, and a
  -- retry waits at least the exponential step.
  pub decide-Decides :
      (attempt : ℕ) (safety : OperationSafety) (status : Option ℕ) (transport_error has_key : Bool)
      → Decides {S = S} r attempt
          (may_repeat r attempt safety status transport_error has_key)
          (decide env r attempt safety status transport_error has_key)
  unfolding decide ◌>>=◌ ask
  decide-Decides attempt safety status transport_error has_key =
      Decides-if (leb r.max_attempts attempt) _ _ (λ h. Decides-refuse _ (ground arith))
        λ h1.
          Decides-if (is_unsafe safety) _ _ (λ h. Decides-refuse _ (ground arith))
            λ h2.
              Decides-if (is_protected safety && not has_key) _ _
                (λ h. Decides-refuse _ (ground arith))
                λ h3.
                  Decides-if (not transport_error && not (is_transient_status status)) _ _
                    (λ h. Decides-refuse _ (ground arith))
                    λ h4. record {
                      decision = λ w. record {
                        should_retry = true;
                        delay = delay_of r attempt (env.random w.trace);
                        reason = _;
                      };
                      answer = λ w. refl;
                      exact = λ w. ground arith;
                      bounded = λ w. delay_of_bounded r attempt (env.random w.trace);
                      backs_off =
                          λ w. step_le _ _ _ (backoff-le-delay_of r attempt (env.random w.trace));
                    }

jitter_le :
    (base ratio random : ℕ)
    → ratio ≤ million
    → random ≤ million
    → base * ratio * random / (million * million) ≤ base
jitter_le base ratio random h k =
    let product : base * ratio * random ≤ base * million * million =
      mul-le-mul (mul-le-mul (le_refl base) h) k in
    div-le_of_le-mul (million * million) (omega (arith, product))

-- With valid settings and a random number of at most one, the delay lies between the exponential
-- step and twice the step, and below the configured maximum.
pub delay_of_bounds :
    (r : RetryConfig) (attempt random : ℕ)
    → retry_ok r ≡ true
    → random ≤ million
    → (backoff r attempt ≤ delay_of r attempt random)
      × (delay_of r attempt random ≤ 2 * backoff r attempt)
      × (delay_of r attempt random ≤ r.max_delay)
unfolding delay_of retry_ok
delay_of_bounds r attempt random h k =
    let jitter = jitter_le (backoff r attempt) r.jitter_ratio random (ground arith) k in
    (backoff-le-delay_of r attempt random, omega (arith, jitter), delay_of_bounded r attempt random)

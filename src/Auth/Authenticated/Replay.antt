-- ===== src/Auth/Authenticated/Replay.antt =====
-- auth/authenticated.py: how often a request is sent with a token.
pub mod Delivery
use jibit_ir_sdk.Prelude.{
  ℕ, ◌+◌, ◌*◌, ◌≤◌, ◌≡◌, refl, ◌∙◌, arith, true, false, Option, none, some, is_some,
}
use native.Mathlib.Nat.{le_refl}
use jibit_ir_sdk.Effects.{Environment, World, Outcome, ok, raised, M}
use jibit_ir_sdk.Effects.Counts.{
  Adds, Adds-pure, Adds-raise, Adds-weaken, Adds-if, Adds-none, Adds-skip, Adds-bind, Adds-catch,
}
use jibit_ir_sdk.Effects.Ends.{
  Ends, Either, Ends-pure, Ends-raise, Ends-if, Ends-bind, Ends-catch, Anywhere, Adds-after,
  any_end,
}
use jibit_ir_sdk.Response.{RawResponse}
use jibit_ir_sdk.Retry.Bounds.{is_safe_to_repeat}
use jibit_ir_sdk.Engine.{RequestOptions, execute}
use jibit_ir_sdk.Engine.Attempts.{sent_if, execute_counted, execute_counted_once}
use jibit_ir_sdk.Auth.Tokens.{TokenState}
use jibit_ir_sdk.Auth.Store.{TokenStore}
use jibit_ir_sdk.Auth.Provider.{ServiceAuthenticator, invalidate}
use jibit_ir_sdk.Auth.Provider.Locking.{
  is_authorized, get_token-Quiet, recover-Quiet, invalidate-Quiet,
}
use jibit_ir_sdk.Auth.Authenticated.{
  can_replay, is_authentication, authorize, replay, first_try, answer_or_replay,
  authenticated_execute,
}

-- The rule for a replay is the rule for a retry.
pub can_replay-is_safe_to_repeat :
    (o : RequestOptions) → can_replay o ≡ is_safe_to_repeat o.safety (is_some o.idempotency_key)
unfolding can_replay
can_replay-is_safe_to_repeat o = ground arith

module _ {S : Type 0} (env : Environment) (store : TokenStore S) (a : ServiceAuthenticator)
    (o : RequestOptions) where
  first_try-Adds :
      {lo hi : ℕ}
      → ((t : TokenState)
          → Adds {S = S} (sent_if is_authorized) lo hi (execute env a.engine (authorize o t)))
      → (token : TokenState) → Adds (sent_if is_authorized) lo hi (first_try env store a o token)
  unfolding first_try
  first_try-Adds {lo} {hi} sends token = Adds-weaken _ (le_refl _) (omega arith) (
      Adds-catch {hi = hi} {hi' = 0} _ _
        (Adds-weaken _ (le_refl _) (omega arith)
          (Adds-bind {hi = hi} {hi' = 0} _ _ (sends token) λ raw. Adds-pure _))
        λ e.
          Adds-if (is_authentication e) _ _
            (λ _.
              Adds-if (can_replay o) _ _ (λ _. Adds-pure _)
                (λ _. Adds-skip _ _ (invalidate-Quiet env store a) λ _. Adds-raise _))
            (λ _. Adds-raise _))

  module _ {hi : ℕ}
      (sends : (t : TokenState)
        → Adds {S = S} (sent_if is_authorized) 0 hi (execute env a.engine (authorize o t))) where
    replay-Adds :
        (token : TokenState) → Adds (sent_if is_authorized) 0 hi (replay env store a o token)
    unfolding replay
    replay-Adds token = Adds-skip _ _ (recover-Quiet env store a _) λ replacement.
        Adds-weaken _ (le_refl _) (omega arith) (
          Adds-catch {hi = hi} {hi' = 0} _ _ (sends replacement) λ e.
            Adds-if (is_authentication e) _ _
              (λ _. Adds-skip _ _ (invalidate-Quiet env store a) λ _. Adds-raise _)
              (λ _. Adds-raise _))

    answer-Adds :
        (token : TokenState) (answer : Option RawResponse)
        → Adds (sent_if is_authorized) 0 hi (answer_or_replay env store a o token answer)
    unfolding answer_or_replay
    answer-Adds token none = replay-Adds token
    answer-Adds token (some raw) = Adds-none _ (Adds-pure _)

    tries_add : Adds (sent_if is_authorized) 0 (hi + hi) (authenticated_execute env store a o)
    unfolding authenticated_execute authorize
    tries_add =
        Adds-skip _ _ (get_token-Quiet env store a)
          λ token. Adds-bind _ _ (first_try-Adds sends token) (answer-Adds token)

  -- Without leave to replay, the first try never asks for a second one.
  first_try_final :
      can_replay o ≡ false
      → (token : TokenState)
      → Ends {S = S} Anywhere
          (Either (λ answer _. is_some answer ≡ true) (λ e _. Unit))
          (first_try env store a o token)
  unfolding first_try
  first_try_final h token =
      Ends-catch {Q = λ e _. Unit} _ _
        (Ends-bind {P = λ raw _. Unit} _ _ (any_end (execute env a.engine (authorize o token)))
          λ raw. Ends-pure _ (λ _ _. refl))
        λ e.
          Ends-if (is_authentication e) _ _
            (λ _. rw h (
              Ends-bind {P = λ _ _. Unit} _ _ (any_end (invalidate env store a))
                λ _. Ends-raise _ (λ _ _. tt)))
            (λ _. Ends-raise _ (λ _ _. tt))

  answered-Adds :
      (token : TokenState) (answer : Option RawResponse)
      → is_some answer ≡ true
      → Adds {S = S} (sent_if is_authorized) 0 0 (answer_or_replay env store a o token answer)
  unfolding answer_or_replay
  answered-Adds token none h = absurd cc
  answered-Adds token (some raw) h = Adds-pure _

  -- An operation that is not safe to repeat is sent with a token at most once, even when the token is
  -- rejected, whatever the token store, the transport and other workers do.
  pub authenticated_execute_once :
      is_safe_to_repeat o.safety (is_some o.idempotency_key) ≡ false
      → Adds {S = S} (sent_if is_authorized) 0 1 (authenticated_execute env store a o)
  unfolding authenticated_execute authorize
  authenticated_execute_once h =
      let sends = λ (t : TokenState).
        execute_counted_once {S = S} env a.engine (authorize o t) is_authorized h in
      Adds-skip _ _ (get_token-Quiet env store a) λ token.
        Adds-after (λ answer _. is_some answer ≡ true) _ _ (first_try-Adds sends token)
          (first_try_final (can_replay-is_safe_to_repeat o ∙ h) token)
          λ answer w final. answered-Adds token answer final

  -- Under a policy that allows an attempt, any operation is sent with a token at most twice as often
  -- as the policy allows attempts.
  pub authenticated_execute_attempts :
      1 ≤ a.engine.retry_policy.max_attempts
      → Adds {S = S}
          (sent_if is_authorized)
          0
          (2 * a.engine.retry_policy.max_attempts)
          (authenticated_execute env store a o)
  authenticated_execute_attempts h =
      Adds-weaken _ (le_refl _) (omega arith)
        (tries_add (λ t. execute_counted env a.engine (authorize o t) is_authorized h))

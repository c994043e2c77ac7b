-- ===== src/Engine/Recovery.antt =====
-- engine.py: `execute` survives an outage that is shorter than its attempts.
use jibit_ir_sdk.Prelude.{
  ℕ, zero, suc, ◌+◌, ◌≤◌, ◌<◌, ◌≡◌, refl, Bool, true, false, not, ◌&&◌, ◌||◌, Option, none, some,
  is_some, List, ltb, arith, if◌then◌else◌,
}
use jibit_ir_sdk.Exceptions.{JibitError}
use jibit_ir_sdk.Transport.{
  TransportRequest, TransportResponse, Reply, responded, timed_out, network_failed, crashed,
}
use jibit_ir_sdk.Effects.{Environment, Event, World, Outcome, ok, raised, M}
use jibit_ir_sdk.Effects.Counts.{
  count, Adds, Returns, Adds-log, Returns-log, Adds-ask_off, Returns-ask, Adds-act_off, Returns-act,
  Adds-pure, Returns-pure,
}
use jibit_ir_sdk.Effects.Ends.{Ends, Either, Ends-pure, Ends-if, Ends-bind, Ends-ask}
use jibit_ir_sdk.Response.{RawResponse}
use jibit_ir_sdk.Retry.{decide, is_transient_status}
use jibit_ir_sdk.Retry.Bounds.{decide-Decides, is_safe_to_repeat}
use jibit_ir_sdk.Engine.{
  RequestEngine, RequestOptions, Call, succeed, retry_or_fail, react, attempt_loop, execute, fuel,
  is_success, log_retry,
}
use jibit_ir_sdk.Engine.Options.{endpoint_ok, validated_endpoint}
use jibit_ir_sdk.Engine.Sending.{is_sent, decide-Adds, correlation-Adds, correlation-Returns}

-- An answer of a transport that is down for the moment, and one of a transport that is up.
abbrev pub is_outage : Reply → Bool
is_outage (responded r) = not (is_success r.status_code) && is_transient_status (some r.status_code)
is_outage crashed = false
is_outage _ = true

abbrev pub is_served : Reply → Bool
is_served (responded r) = is_success r.status_code
is_served _ = false

-- A transport that is down for the requests before the `k`-th, counted from 0, and up from then on.
abbrev pub answers_as : ℕ → ℕ → Reply → Bool
answers_as k n reply = if ltb n k then is_outage reply else is_served reply

abbrev pub is_ok : {A : Type 0} → Outcome A → Bool
is_ok (ok a) = true
is_ok (raised e) = false

module _ {S : Type 0} where
  abbrev Counted : ℕ → World S → Type 0
  Counted n w = count is_sent w.trace ≡ n

  -- The action returns, in a world with `P`.
  abbrev Succeeds : {A : Type 0} → (A → World S → Type 0) → Outcome A → World S → Type 0
  Succeeds P = Either P (λ e _. false ≡ true)

  keeps :
      {A : Type 0} (n : ℕ) (m : M S A)
      → Returns m
      → Adds is_sent 0 0 m
      → Ends (Counted n) (Succeeds (λ _. Counted n)) m
  keeps n m t a = record {
    holds = λ w i. let (x, e) = t.answer w in rw e (omega (arith, i, a.at_least w, a.at_most w));
  }

module _ {S : Type 0} (env : Environment) (engine : RequestEngine) (c : Call)
    (safe : is_safe_to_repeat c.options.safety (is_some c.options.idempotency_key) ≡ true) where
  abbrev Recovers : ℕ → M S RawResponse → Type 0
  Recovers n = Ends (Counted n) (Succeeds (λ _ _. Unit))

  succeed-Recovers :
      (n attempt : ℕ) (r : TransportResponse) → Recovers n (succeed env engine c attempt r)
  unfolding succeed
  succeed-Recovers n attempt r =
      Ends-bind {P = λ _. Counted n} _ _ (keeps n _ (Returns-ask _ _) (Adds-ask_off _ _ refl)) λ _.
        Ends-bind {P = λ _. Counted n} _ _
          (keeps n _ (Returns-log env _ _ _) (Adds-log env _ _ _ (λ _. refl)))
          λ _. Ends-pure _ (λ _ _. tt)

  -- Below the limit, a transient failure is always answered by a retry.
  decided-Recovers :
      (n attempt : ℕ) (status : Option ℕ) (transport_error : Bool)
      → (transport_error || is_transient_status status) ≡ true
      → attempt < engine.retry_policy.max_attempts
      → Ends {S = S} (Counted n) (Succeeds (λ d w. (d.should_retry ≡ true) × Counted n w)) (
          decide env engine.retry_policy attempt c.options.safety status transport_error
            (is_some c.options.idempotency_key))
  decided-Recovers n attempt status transport_error transient below =
      let d =
        decide-Decides {S = S} env engine.retry_policy attempt c.options.safety status
          transport_error (is_some c.options.idempotency_key) in
      let a =
        decide-Adds {S = S} env engine (λ _. true) attempt c.options.safety status transport_error
          (is_some c.options.idempotency_key) in
      record {
        holds = λ w i.
            rw (d.answer w) (
              (let exact = d.exact w in ground arith, omega (arith, i, a.at_least w, a.at_most w)));
      }

  retry-Recovers :
      (n attempt : ℕ) (status : Option ℕ) (transport_error : Bool) (e : JibitError)
      (again : M S RawResponse)
      → (transport_error || is_transient_status status) ≡ true
      → attempt < engine.retry_policy.max_attempts
      → Recovers n again
      → Recovers n (retry_or_fail env engine c attempt status transport_error e again)
  unfolding retry_or_fail log_retry
  retry-Recovers n attempt status transport_error e again transient below h =
      Ends-bind {P = λ d w. (d.should_retry ≡ true) × Counted n w} _ _
        (decided-Recovers n attempt status transport_error transient below)
        λ d.
          Ends-if d.should_retry _ _
            (λ retry. record {
              holds = λ w i.
                  (Ends-bind {P = λ _. Counted n} _ _
                      (keeps n _ (Returns-log env _ _ _) (Adds-log env _ _ _ (λ _. refl)))
                      λ _.
                        Ends-bind {P = λ _. Counted n} _ _
                          (keeps n _ (Returns-act _) (Adds-act_off _ refl)) λ _. h).holds
                    w i.1;
            })
            (λ no. record { holds = λ w i. absurd cc })

  react-Recovers :
      (k n attempt : ℕ) (again : M S RawResponse) (reply : Reply)
      → answers_as k n reply ≡ true
      → (n < k → attempt < engine.retry_policy.max_attempts)
      → (n < k → Recovers (suc n) again)
      → Recovers (suc n) (react env engine c attempt again reply)
  unfolding react
  react-Recovers k n attempt again (responded r) answer below h =
      Ends-if (is_success r.status_code) _ _ (λ good. succeed-Recovers (suc n) attempt r)
        (λ bad.
          retry-Recovers (suc n) attempt (some r.status_code) false _ again
            (ground (arith, answer, bad)) (below (ground arith)) (h (ground arith)))
  react-Recovers k n attempt again timed_out answer below h =
      retry-Recovers (suc n) attempt none true _ again refl (below (ground arith))
        (h (ground arith))
  react-Recovers k n attempt again network_failed answer below h =
      retry-Recovers (suc n) attempt none true _ again refl (below (ground arith))
        (h (ground arith))
  react-Recovers k n attempt again crashed answer below h = absurd (ground arith)

  -- With fuel and attempts for the failures that are left, the loop returns.
  attempt_loop-Recovers :
      (k : ℕ)
      (answers : (history : List Event) (request : TransportRequest)
        → answers_as k (count is_sent history) (env.send history request) ≡ true)
      (steps attempt n : ℕ)
      → k < steps + n
      → 1 ≤ steps
      → k + attempt ≤ engine.retry_policy.max_attempts + n
      → Recovers n (attempt_loop env engine c steps attempt)
  unfolding attempt_loop
  attempt_loop-Recovers k answers zero attempt n h one below = absurd (omega arith)
  attempt_loop-Recovers k answers (suc steps) attempt n h one below =
      Ends-bind {P = λ reply w. (answers_as k n reply ≡ true) × Counted (suc n) w} _ _
        (Ends-ask _ _ (λ w i. (rw i at (answers w.trace c.request), rw i refl)))
        λ reply. record {
          holds = λ w i.
              (react-Recovers k n attempt _ reply i.0 (λ more. omega arith)
                  (λ more.
                    attempt_loop-Recovers k answers steps (attempt + 1) (suc n) (omega arith)
                      (omega arith) (omega arith))).holds
                w i.1;
        }

module _ {S : Type 0} (env : Environment) (engine : RequestEngine) (o : RequestOptions)
    (good : endpoint_ok o.path ≡ true)
    (safe : is_safe_to_repeat o.safety (is_some o.idempotency_key) ≡ true) where
  execute-Recovers :
      (k : ℕ)
      (answers : (history : List Event) (request : TransportRequest)
        → answers_as k (count is_sent history) (env.send history request) ≡ true)
      (n : ℕ)
      → k < n + engine.retry_policy.max_attempts
      → Ends {S = S} (Counted n) (Succeeds (λ _ _. Unit)) (execute env engine o)
  unfolding execute validated_endpoint
  execute-Recovers k answers n enough =
      Ends-bind {P = λ _. Counted n} _ _
        (keeps n _ (correlation-Returns env engine (λ _. true) o.correlation_id)
          (correlation-Adds env engine (λ _. true) o.correlation_id))
        λ id.
          Ends-bind {P = λ _. Counted n} _ _ (rw good (keeps n _ (Returns-pure tt) (Adds-pure tt)))
            λ _.
              Ends-bind {P = λ _. Counted n} _ _
                (keeps n _ (Returns-ask _ _) (Adds-ask_off _ _ refl))
                λ started.
                  Ends-bind {P = λ _. Counted n} _ _
                    (keeps n _ (Returns-log env _ _ _) (Adds-log env _ _ _ (λ _. refl)))
                    λ _.
                      attempt_loop-Recovers env engine _ safe k answers (fuel engine) 1 n
                        (omega arith) (omega arith) (omega arith)

is_ok_of_Succeeds :
    {S A : Type 0} (r : Outcome A) (w : World S) → Succeeds (λ _ _. Unit) r w → is_ok r ≡ true
is_ok_of_Succeeds (ok a) w h = refl
is_ok_of_Succeeds (raised e) w h = h

-- An outage that is over before the attempts are used up does not fail the call: if an operation is safe
-- to repeat and its path is accepted, the transport is down only for the requests before the `k`-th,
-- in a way that the policy takes for transient, and up from then on, and fewer failures are left than
-- the policy allows attempts, then `execute` returns a response.
pub execute_recovers :
    {S : Type 0} (env : Environment) (engine : RequestEngine) (o : RequestOptions) (k : ℕ)
    (w : World S)
    → endpoint_ok o.path ≡ true
    → is_safe_to_repeat o.safety (is_some o.idempotency_key) ≡ true
    → ((history : List Event) (request : TransportRequest)
        → answers_as k (count is_sent history) (env.send history request) ≡ true)
    → k < count is_sent w.trace + engine.retry_policy.max_attempts
    → is_ok (execute env engine o w).0 ≡ true
execute_recovers env engine o k w good safe answers enough = is_ok_of_Succeeds _ _ (
    (execute-Recovers env engine o good safe k answers (count is_sent w.trace) enough).holds w refl)

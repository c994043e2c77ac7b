-- ===== src/Engine/Sending.antt =====
-- engine.py: what the loop of `execute` adds to the count of requests.
use jibit_ir_sdk.Prelude.{
  ℕ, zero, suc, ◌+◌, ◌-◌, ◌*◌, ◌≤◌, ◌<◌, ◌≡◌, refl, String, Bool, true, false, not, leb, ◌&&◌,
  Option, none, some, is_some, arith,
}
use native.Mathlib.Nat.{le_refl}
use jibit_ir_sdk.Prelude.Text.{is_blank}
use jibit_ir_sdk.Types.{OperationSafety, is_unsafe, is_protected}
use jibit_ir_sdk.Config.{RetryConfig}
use jibit_ir_sdk.Exceptions.{JibitError}
use jibit_ir_sdk.Transport.{
  TransportRequest, TransportResponse, Reply, responded, timed_out, network_failed, crashed,
}
use jibit_ir_sdk.Effects.{Environment, Event, sent, M, continue, ◌>>=◌}
use jibit_ir_sdk.Effects.Counts.{
  weight, Adds, Returns, Adds-pure, Adds-raise, Adds-weaken, Adds-if, Adds-none, Adds-skip,
  Adds-pass, Adds-bind, Adds-ask, Adds-ask_off, Adds-act_off, Adds-log, Returns-ask, Returns-log,
  Returns-pure, Returns-if,
}
use jibit_ir_sdk.Response.{RawResponse}
use jibit_ir_sdk.Retry.{RetryDecision, decide, is_transient_status}
use jibit_ir_sdk.Retry.Bounds.{Decides, decide-Decides, is_safe_to_repeat}
use jibit_ir_sdk.Engine.{
  RequestEngine, RequestOptions, Call, log_retry, fail, succeed, retry_or_fail, react, attempt_loop,
  execute, correlation, transport_request, fuel, is_success,
}
use jibit_ir_sdk.Engine.Options.{endpoint_ok, validated_endpoint}

-- Requests that pass a test.
abbrev pub sent_if : (TransportRequest → Bool) → Event → Bool
sent_if q (sent r) = q r
sent_if q _ = false

abbrev pub is_sent : Event → Bool
is_sent = sent_if (λ r. true)

module _ {S A : Type 0} {p : Event → Bool} {r : RetryConfig} {attempt : ℕ} {allowed : Bool} where
  -- What follows a decision may rely on what is known of it.
  pub Adds-decide :
      {hi : ℕ} (m : M S RetryDecision) (f : RetryDecision → M S A)
      → Decides r attempt allowed m
      → Adds p 0 0 m
      → ((d : RetryDecision) → d.should_retry ≡ allowed → Adds p 0 hi (f d))
      → Adds p 0 hi (m >>= f)
  unfolding ◌>>=◌
  Adds-decide m f d a h = record {
    at_least = λ w.
        let next = h (d.decision w) (d.exact w) in
        rw (d.answer w, continue) (omega (arith, a.at_least w, next.at_least (m w).1));
    at_most = λ w.
        let next = h (d.decision w) (d.exact w) in
        rw (d.answer w, continue) (omega (arith, a.at_most w, next.at_most (m w).1));
  }

-- The retries that are left after an attempt.
abbrev budget : RequestEngine → ℕ → ℕ
budget engine attempt = engine.retry_policy.max_attempts - attempt

budget_step : (a n v : ℕ) → a < n → v + (n - (a + 1)) * v ≤ (n - a) * v
budget_step a n v h = let e : suc (n - (a + 1)) ≡ n - a = omega arith in rw (← e) (omega arith)

module _ {S : Type 0} (env : Environment) (engine : RequestEngine)
    (q : TransportRequest → Bool) where
  pub decide-Adds :
      (attempt : ℕ) (safety : OperationSafety) (status : Option ℕ) (transport_error has_key : Bool)
      → Adds {S = S}
          (sent_if q)
          0
          0
          (decide env engine.retry_policy attempt safety status transport_error has_key)
  unfolding decide
  decide-Adds attempt safety status transport_error has_key =
      Adds-if (leb engine.retry_policy.max_attempts attempt) _ _ (λ _. Adds-pure _)
        λ _.
          Adds-if (is_unsafe safety) _ _ (λ _. Adds-pure _)
            λ _.
              Adds-if (is_protected safety && not has_key) _ _ (λ _. Adds-pure _)
                λ _.
                  Adds-if (not transport_error && not (is_transient_status status)) _ _
                    (λ _. Adds-pure _) λ _. Adds-skip _ _ (Adds-ask_off _ _ refl) (λ _. Adds-pure _)

  fail-Adds : (c : Call) (e : JibitError) → Adds {S = S} (sent_if q) 0 0 (fail env engine c e)
  unfolding fail
  fail-Adds c e =
      Adds-skip _ _ (Adds-ask_off _ _ refl)
        λ _. Adds-skip _ _ (Adds-log env _ _ _ (λ _. refl)) λ _. Adds-raise _

  succeed-Adds :
      (c : Call) (attempt : ℕ) (r : TransportResponse)
      → Adds {S = S} (sent_if q) 0 0 (succeed env engine c attempt r)
  unfolding succeed
  succeed-Adds c attempt r =
      Adds-skip _ _ (Adds-ask_off _ _ refl)
        λ _. Adds-skip _ _ (Adds-log env _ _ _ (λ _. refl)) λ _. Adds-pure _

  module _ (c : Call) (attempt hi : ℕ) (again : M S RawResponse) where
    -- Whether another attempt is still possible.
    abbrev MoreAttempts : Type 0
    MoreAttempts =
        (attempt < engine.retry_policy.max_attempts)
        × (is_safe_to_repeat c.options.safety (is_some c.options.idempotency_key) ≡ true)

    retry_or_fail-Adds :
        (status : Option ℕ) (transport_error : Bool) (e : JibitError)
        → (MoreAttempts → Adds (sent_if q) 0 hi again)
        → Adds (sent_if q) 0 hi (retry_or_fail env engine c attempt status transport_error e again)
    unfolding retry_or_fail log_retry
    retry_or_fail-Adds status transport_error e h =
        Adds-decide _ _
          (decide-Decides env engine.retry_policy attempt c.options.safety status transport_error
            (is_some c.options.idempotency_key))
          (decide-Adds _ _ _ _ _)
          λ d exact.
            Adds-if d.should_retry _ _
              (λ retry.
                Adds-skip _ _ (Adds-log env _ _ _ (λ _. refl))
                  λ _. Adds-skip _ _ (Adds-act_off _ refl) λ _. h (ground arith, ground arith))
              (λ _. Adds-none _ (fail-Adds c e))

    react-Adds :
        (reply : Reply)
        → (MoreAttempts → Adds (sent_if q) 0 hi again)
        → Adds (sent_if q) 0 hi (react env engine c attempt again reply)
    unfolding react
    react-Adds (responded r) h =
        Adds-if (is_success r.status_code) _ _ (λ _. Adds-none _ (succeed-Adds c attempt r))
          (λ _. retry_or_fail-Adds _ _ _ h)
    react-Adds timed_out h = retry_or_fail-Adds _ _ _ h
    react-Adds network_failed h = retry_or_fail-Adds _ _ _ h
    react-Adds crashed h = Adds-none _ (Adds-raise _)

  -- `v` is the weight of the call's request: 1 if it is counted, else 0.
  pub attempt_loop_at_most :
      (c : Call) (steps attempt : ℕ)
      → let v = weight (sent_if q) (sent c.request) in
        Adds {S = S}
          (sent_if q)
          0
          (v + budget engine attempt * v)
          (attempt_loop env engine c steps attempt)
  unfolding attempt_loop
  attempt_loop_at_most c zero attempt = Adds-none _ (Adds-raise _)
  attempt_loop_at_most c (suc steps) attempt =
      let v = weight (sent_if q) (sent c.request) in
      Adds-weaken _ (omega arith) (le_refl _) (
        Adds-bind _ _ (Adds-ask _ _) λ reply.
          react-Adds c attempt (budget engine attempt * v) _ reply λ m.
            Adds-weaken _ (omega arith) (budget_step attempt engine.retry_policy.max_attempts v m.0)
              (attempt_loop_at_most c steps (attempt + 1)))

  -- With fuel left, the first request is sent.
  pub attempt_loop-Adds :
      (c : Call) (steps attempt : ℕ)
      → let v = weight (sent_if q) (sent c.request) in
        Adds {S = S}
          (sent_if q)
          v
          (v + budget engine attempt * v)
          (attempt_loop env engine c (suc steps) attempt)
  unfolding attempt_loop
  attempt_loop-Adds c steps attempt = record {
    at_least =
        (Adds-bind _ _ (Adds-ask _ _) (λ reply.
          react-Adds c attempt (budget engine attempt * weight (sent_if q) (sent c.request)) _ reply
            λ m.
              Adds-weaken _ (omega arith)
                (budget_step attempt engine.retry_policy.max_attempts _ m.0)
                (attempt_loop_at_most c steps (attempt + 1)))).at_least;
    at_most = (attempt_loop_at_most c (suc steps) attempt).at_most;
  }

  -- An operation that must not be repeated gets one attempt.
  pub attempt_loop_once :
      (c : Call) (steps attempt : ℕ)
      → is_safe_to_repeat c.options.safety (is_some c.options.idempotency_key) ≡ false
      → let v = weight (sent_if q) (sent c.request) in
        Adds {S = S} (sent_if q) v v (attempt_loop env engine c (suc steps) attempt)
  unfolding attempt_loop
  attempt_loop_once c steps attempt h =
      Adds-weaken _ (le_refl _) (omega arith)
        (Adds-bind _ _ (Adds-ask _ _) λ reply. react-Adds c attempt 0 _ reply (λ m. absurd (cc)))

  pub correlation-Adds :
      (given : Option String) → Adds {S = S} (sent_if q) 0 0 (correlation env engine given)
  unfolding correlation
  correlation-Adds none = Adds-ask_off _ _ refl
  correlation-Adds (some s) =
      Adds-if (is_blank s) _ _ (λ _. Adds-ask_off _ _ refl) (λ _. Adds-pure _)

  pub correlation-Returns : (given : Option String) → Returns {S = S} (correlation env engine given)
  unfolding correlation
  correlation-Returns none = Returns-ask _ _
  correlation-Returns (some s) = Returns-if (is_blank s) _ _ (Returns-ask _ _) (Returns-pure _)

  -- The part of `execute` before the loop.
  pub prologue-Adds :
      (o : RequestOptions) {lo hi : ℕ}
      → endpoint_ok o.path ≡ true
      → ((c : Call) (id : String)
          → c.options ≡ o
          → c.request ≡ transport_request engine o id
          → Adds {S = S} (sent_if q) lo hi (attempt_loop env engine c (fuel engine) 1))
      → Adds {S = S} (sent_if q) lo hi (execute env engine o)
  unfolding execute validated_endpoint
  prologue-Adds o ok_path h =
      Adds-pass _ _ (correlation-Returns o.correlation_id) (correlation-Adds o.correlation_id) λ id.
        Adds-pass _ _ (rw ok_path (Returns-pure tt)) (rw ok_path (Adds-pure tt)) λ _.
          Adds-pass _ _ (Returns-ask _ _) (Adds-ask_off _ _ refl) λ started.
            Adds-pass _ _ (Returns-log env _ _ _) (Adds-log env _ _ _ (λ _. refl))
              λ _. h _ id refl refl

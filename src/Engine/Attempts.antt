-- ===== src/Engine/Attempts.antt =====
-- How many requests one call of `execute` sends.
pub use jibit_ir_sdk.Engine.Sending.{sent_if, is_sent}
use jibit_ir_sdk.Prelude.{
  ℕ, ltb, refl, ◌+◌, ◌-◌, ◌*◌, ◌≤◌, ◌≡◌, String, Bool, true, false, is_some, arith, if◌then◌else◌,
  inl, inr, Bool-cases,
}
use jibit_ir_sdk.Transport.{TransportRequest}
use jibit_ir_sdk.Effects.{Environment, sent, World}
use jibit_ir_sdk.Effects.Counts.{
  weight, count, Adds, Adds-weaken, Adds-none, Adds-skip, Adds-raise-bind,
}
use jibit_ir_sdk.Retry.Bounds.{is_safe_to_repeat}
use jibit_ir_sdk.Engine.{RequestEngine, RequestOptions, execute, transport_request, fuel}
use jibit_ir_sdk.Engine.Options.{endpoint_ok, validated_endpoint, endpoint_failure}
use jibit_ir_sdk.Engine.Sending.{
  attempt_loop_at_most, attempt_loop-Adds, attempt_loop_once, correlation-Adds, prologue-Adds,
}

weight_total :
    (b : Bool) (n : ℕ) → 1 ≤ n → (if b then 1 else 0) + (n - 1) * (if b then 1 else 0) ≤ n
weight_total true n h = omega arith
weight_total false n h = omega arith

module _ {S : Type 0} (env : Environment) (engine : RequestEngine) (o : RequestOptions) where
  -- A request on an accepted path is sent at least once, and at most as often as a policy that
  -- allows an attempt allows.
  pub execute_attempts :
      endpoint_ok o.path ≡ true
      → 1 ≤ engine.retry_policy.max_attempts
      → Adds {S = S} is_sent 1 engine.retry_policy.max_attempts (execute env engine o)
  execute_attempts h k =
      prologue-Adds env engine (λ _. true) o h
        λ c id e r.
          Adds-weaken _ (omega arith) (omega arith)
            (attempt_loop-Adds env engine (λ _. true) c engine.retry_policy.max_attempts 1)

  -- On an accepted path, an operation that is not safe to repeat is sent exactly once, whatever the
  -- transport answers and whatever the policy allows.
  pub execute_once :
      endpoint_ok o.path ≡ true
      → is_safe_to_repeat o.safety (is_some o.idempotency_key) ≡ false
      → Adds {S = S} is_sent 1 1 (execute env engine o)
  execute_once h k =
      prologue-Adds env engine (λ _. true) o h
        λ c id e r.
          attempt_loop_once env engine (λ _. true) c engine.retry_policy.max_attempts 1 (rw e k)

  accepted-Adds :
      (q : TransportRequest → Bool)
      → endpoint_ok o.path ≡ true
      → ((id : String) → q (transport_request engine o id) ≡ false)
      → Adds {S = S} (sent_if q) 0 0 (execute env engine o)
  accepted-Adds q h k = prologue-Adds env engine q o h λ c id e r.
      let off : weight (sent_if q) (sent c.request) ≡ 0 = rw r (rw (k id)) in
      Adds-weaken _ (omega arith) (rw off (omega arith))
        (attempt_loop_at_most env engine q c (fuel engine) 1)

  refused-Adds :
      (q : TransportRequest → Bool)
      → endpoint_ok o.path ≡ false
      → Adds {S = S} (sent_if q) 0 0 (execute env engine o)
  unfolding execute validated_endpoint
  refused-Adds q h =
      Adds-skip _ _ (correlation-Adds env engine q o.correlation_id)
        (λ id. rw h (Adds-raise-bind (endpoint_failure env o.path) _))

  -- The same without a condition on the path.
  pub execute_uncounted :
      (q : TransportRequest → Bool)
      → ((id : String) → q (transport_request engine o id) ≡ false)
      → Adds {S = S} (sent_if q) 0 0 (execute env engine o)
  execute_uncounted q k = elim (Bool-cases (endpoint_ok o.path)) [
    | inl good ↦ accepted-Adds q good k
    | inr bad ↦ refused-Adds q bad
  ]

  -- At most as many requests of any kind as the policy allows, and one where a repeat is unsafe,
  -- without a condition on the path.
  pub execute_counted :
      (q : TransportRequest → Bool)
      → 1 ≤ engine.retry_policy.max_attempts
      → Adds {S = S} (sent_if q) 0 engine.retry_policy.max_attempts (execute env engine o)
  execute_counted q k = elim (Bool-cases (endpoint_ok o.path)) [
    | inl good ↦ prologue-Adds env engine q o good λ c id e r.
        Adds-weaken _ (omega arith) (weight_total (q c.request) engine.retry_policy.max_attempts k)
          (attempt_loop_at_most env engine q c (fuel engine) 1)
    | inr bad ↦ Adds-none _ (refused-Adds q bad)
  ]

  pub execute_counted_once :
      (q : TransportRequest → Bool)
      → is_safe_to_repeat o.safety (is_some o.idempotency_key) ≡ false
      → Adds {S = S} (sent_if q) 0 1 (execute env engine o)
  execute_counted_once q h = elim (Bool-cases (endpoint_ok o.path)) [
    | inl good ↦ prologue-Adds env engine q o good λ c id e r.
        Adds-weaken _ (omega arith) (ground arith)
          (attempt_loop_once env engine q c engine.retry_policy.max_attempts 1 (rw e h))
    | inr bad ↦ Adds-none _ (refused-Adds q bad)
  ]

  -- On an accepted path, a request that is counted under every correlation id is sent.
  pub attempted-Adds :
      (q : TransportRequest → Bool)
      → endpoint_ok o.path ≡ true
      → ((id : String) → q (transport_request engine o id) ≡ true)
      → Adds {S = S}
          (sent_if q)
          1
          (1 + (engine.retry_policy.max_attempts - 1))
          (execute env engine o)
  attempted-Adds q h k = prologue-Adds env engine q o h λ c id e r.
      let on : weight (sent_if q) (sent c.request) ≡ 1 = rw r (rw (k id)) in
      Adds-weaken _ (rw on (omega arith)) (rw on (omega arith))
        (attempt_loop-Adds env engine q c engine.retry_policy.max_attempts 1)

  -- `execute` sends a request exactly if the path is accepted.
  pub execute_sends_accepted :
      (w : World S)
      → ltb (count is_sent w.trace) (count is_sent (execute env engine o w).1.trace)
        ≡ endpoint_ok o.path
  execute_sends_accepted w = elim (Bool-cases (endpoint_ok o.path)) [
    | inl good ↦
        let more = (attempted-Adds (λ _. true) good (λ _. refl)).at_least w in
        ground (arith, more, good)
    | inr bad ↦
        let none_sent = (refused-Adds (λ _. true) bad).at_most w in ground (arith, none_sent, bad)
  ]

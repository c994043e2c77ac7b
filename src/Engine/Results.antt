-- ===== src/Engine/Results.antt =====
-- Where the outcome of `execute` comes from.
use jibit_ir_sdk.Prelude.{
  ℕ, zero, suc, ◌+◌, ◌≤◌, ◌<◌, ◌≡◌, refl, String, Bool, true, false, Option, none, some, is_some,
  List, arith,
}
use jibit_ir_sdk.Prelude.Text.{is_blank}
use jibit_ir_sdk.Exceptions.{timeout, network, JibitError, jibit, other_error}
use jibit_ir_sdk.Transport.{TransportResponse, Reply, responded, timed_out, network_failed, crashed}
use jibit_ir_sdk.Effects.{Environment, Event, World, Outcome, ok, raised, M}
use jibit_ir_sdk.Effects.Ends.{
  Ends, Either, Ends-pure, Ends-raise, Ends-if, Ends-bind, Ends-ask, Ends-log, Ends-act, Anywhere,
  anywhere, Ends-known, Ends-weaken,
}
use jibit_ir_sdk.Response.{RawResponse}
use jibit_ir_sdk.Retry.{decide}
use jibit_ir_sdk.Retry.Bounds.{decide-Decides}
use jibit_ir_sdk.Engine.{
  RequestEngine, RequestOptions, Call, fail, succeed, retry_or_fail, react, attempt_loop, execute,
  correlation, transport_request, fuel, is_success, map_error, transport_failure, log_retry,
}
use jibit_ir_sdk.Engine.Options.{endpoint_ok, validated_endpoint}

abbrev pub raw_of : Call → TransportResponse → RawResponse
raw_of c r = record {
  status_code = r.status_code;
  headers = r.headers;
  content = r.content;
  correlation_id = c.correlation_id;
}

-- An outcome of a call that one of the transport's answers to its request accounts for.
pub data Explained (env : Environment) (c : Call) : Outcome RawResponse → Type 0 where
  answered :
      (history : List Event) (r : TransportResponse)
      → env.send history c.request ≡ responded r
      → is_success r.status_code ≡ true
      → Explained env c (ok (raw_of c r))
  rejected :
      (history : List Event) (r : TransportResponse)
      → env.send history c.request ≡ responded r
      → is_success r.status_code ≡ false
      → Explained env c (raised (jibit (map_error env c.options c.correlation_id r)))
  too_slow :
      (history : List Event)
      → env.send history c.request ≡ timed_out
      → Explained env c (raised (jibit (transport_failure c timeout)))
  unreachable :
      (history : List Event)
      → env.send history c.request ≡ network_failed
      → Explained env c (raised (jibit (transport_failure c network)))
  broken :
      (history : List Event)
      → env.send history c.request ≡ crashed
      → Explained env c (raised other_error)

-- The same for a call that `execute` makes of the options `o`.
pub record CallExplained (env : Environment) (engine : RequestEngine) (o : RequestOptions)
    (outcome : Outcome RawResponse) : Type 0 where
  pub call : Call
  pub same_options : call.options ≡ o
  pub same_request : call.request ≡ transport_request engine o call.correlation_id
  pub explained : Explained env call outcome

module _ {S : Type 0} (env : Environment) (engine : RequestEngine) (c : Call) where
  abbrev Fine : M S RawResponse → Type 0
  Fine =
      Ends Anywhere (Either (λ raw _. Explained env c (ok raw)) (λ e _. Explained env c (raised e)))

  fail-Fine : (e : JibitError) → Explained env c (raised (jibit e)) → Fine (fail env engine c e)
  unfolding fail
  fail-Fine e x = Ends-bind {P = λ _ _. Unit} _ _ (Ends-ask _ _ (λ _ _. tt)) λ _.
      Ends-bind {P = λ _ _. Unit} _ _ (Ends-log env _ _ _ anywhere) λ _. Ends-raise _ (λ _ _. x)

  succeed-Fine :
      (attempt : ℕ) (r : TransportResponse)
      → Explained env c (ok (raw_of c r))
      → Fine (succeed env engine c attempt r)
  unfolding succeed
  succeed-Fine attempt r x =
      Ends-bind {P = λ _ _. Unit} _ _ (Ends-ask _ _ (λ _ _. tt)) λ _.
        Ends-bind {P = λ _ _. Unit} _ _ (Ends-log env _ _ _ anywhere) λ _. Ends-pure _ (λ _ _. x)

  module _ (attempt : ℕ) (again : M S RawResponse) where
    -- A retry is only made below the limit.
    abbrev More : Type 0
    More = attempt < engine.retry_policy.max_attempts

    decided :
        (status : Option ℕ) (transport_error : Bool)
        → Ends {S = S} Anywhere
            (Either (λ d _. d.should_retry ≡ true → More) (λ e _. Explained env c (raised e)))
            (decide env engine.retry_policy attempt c.options.safety status transport_error
              (is_some c.options.idempotency_key))
    decided status transport_error =
        let d =
          decide-Decides env engine.retry_policy attempt c.options.safety status transport_error
            (is_some c.options.idempotency_key) in
        record { holds = λ w i. rw (d.answer w) (λ retry. let exact = d.exact w in ground arith) }

    retry_or_fail-Fine :
        (status : Option ℕ) (transport_error : Bool) (e : JibitError)
        → Explained env c (raised (jibit e))
        → (More → Fine again)
        → Fine (retry_or_fail env engine c attempt status transport_error e again)
    unfolding retry_or_fail log_retry
    retry_or_fail-Fine status transport_error e x h =
        Ends-bind {P = λ d _. d.should_retry ≡ true → More} _ _ (decided status transport_error)
          λ d.
            Ends-if d.should_retry _ _
              (λ retry. Ends-known _ λ more.
                Ends-bind {P = λ _ _. Unit} _ _ (Ends-log env _ _ _ anywhere)
                  λ _. Ends-bind {P = λ _ _. Unit} _ _ (Ends-act _ anywhere) λ _. h (more retry))
              (λ _. Ends-known _ λ _. fail-Fine e x)

    react-Fine :
        (history : List Event) (reply : Reply)
        → env.send history c.request ≡ reply
        → (More → Fine again)
        → Fine (react env engine c attempt again reply)
    unfolding react
    react-Fine history (responded r) e h =
        Ends-if (is_success r.status_code) _ _
          (λ good. succeed-Fine attempt r (answered history r e good))
          (λ bad. retry_or_fail-Fine _ _ _ (rejected history r e bad) h)
    react-Fine history timed_out e h = retry_or_fail-Fine _ _ _ (too_slow history e) h
    react-Fine history network_failed e h = retry_or_fail-Fine _ _ _ (unreachable history e) h
    react-Fine history crashed e h = Ends-raise _ (λ _ _. broken history e)

  -- With fuel for every attempt that is left, the loop ends before the fuel does.
  attempt_loop-Fine :
      (steps attempt : ℕ)
      → engine.retry_policy.max_attempts < steps + attempt
      → 1 ≤ steps
      → Fine (attempt_loop env engine c steps attempt)
  unfolding attempt_loop
  attempt_loop-Fine zero attempt h k = absurd (omega arith)
  attempt_loop-Fine (suc steps) attempt h k =
      Ends-bind {P = λ reply _. (history : List Event) × (env.send history c.request ≡ reply)} _ _
        (Ends-ask _ _ (λ w _. (w.trace, refl)))
        λ reply. Ends-known _ λ source.
          react-Fine attempt _ source.0 reply source.1
            λ more. attempt_loop-Fine steps (attempt + 1) (omega arith) (omega arith)

module _ {S : Type 0} (env : Environment) (engine : RequestEngine) (o : RequestOptions) where
  abbrev Known : {A : Type 0} → (A → World S → Type 0) → M S A → Type 0
  Known P = Ends Anywhere (Either P (λ e _. CallExplained env engine o (raised e)))

  correlation-Known : (given : Option String) → Known (λ _ _. Unit) (correlation env engine given)
  unfolding correlation
  correlation-Known none = Ends-ask _ _ (λ _ _. tt)
  correlation-Known (some s) =
      Ends-if (is_blank s) _ _ (λ _. Ends-ask _ _ (λ _ _. tt)) (λ _. Ends-pure _ (λ _ _. tt))

  outcome_of_known :
      (w : World S) (outcome : Outcome RawResponse)
      → Either
          (λ raw _. CallExplained env engine o (ok raw))
          (λ e _. CallExplained env engine o (raised e))
          outcome
          w
      → CallExplained env engine o outcome
  outcome_of_known w (ok raw) x = x
  outcome_of_known w (raised e) x = x

  known_of_Explained :
      (c : Call)
      → c.options ≡ o
      → c.request ≡ transport_request engine o c.correlation_id
      → (outcome : Outcome RawResponse) (w : World S)
      → Either (λ raw _. Explained env c (ok raw)) (λ e _. Explained env c (raised e)) outcome w
      → Either
          (λ raw _. CallExplained env engine o (ok raw))
          (λ e _. CallExplained env engine o (raised e))
          outcome
          w
  known_of_Explained c e f (ok raw) w x = record {
    call = c;
    same_options = e;
    same_request = f;
    explained = x;
  }
  known_of_Explained c e f (raised err) w x = record {
    call = c;
    same_options = e;
    same_request = f;
    explained = x;
  }

  loop-Known :
      (c : Call)
      → c.options ≡ o
      → c.request ≡ transport_request engine o c.correlation_id
      → Known
          (λ raw _. CallExplained env engine o (ok raw))
          (attempt_loop env engine c (fuel engine) 1)
  loop-Known c e f =
      Ends-weaken _ (known_of_Explained c e f)
        (attempt_loop-Fine env engine c (fuel engine) 1 (omega arith) (omega arith))

  -- A call of `execute` on an accepted path always ends, and its outcome is one that an answer of
  -- the transport to its own request accounts for: the raw response of a 2xx answer, the error
  -- mapped from another answer, or the error of a transport failure.
  pub execute_explained :
      endpoint_ok o.path ≡ true
      → (w : World S) → CallExplained env engine o (execute env engine o w).0
  unfolding execute validated_endpoint
  execute_explained h w = outcome_of_known _ _ (
      (Ends-bind {P = λ _ _. Unit} _ _ (correlation-Known o.correlation_id) λ id.
          Ends-bind {P = λ _ _. Unit} _ _ (rw h (Ends-pure _ (λ _ _. tt))) λ _.
            Ends-bind {P = λ _ _. Unit} _ _ (Ends-ask _ _ (λ _ _. tt)) λ started.
              Ends-bind {P = λ _ _. Unit} _ _ (Ends-log env _ _ _ anywhere)
                λ _. loop-Known _ refl refl).holds
        w tt)

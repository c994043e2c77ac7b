-- ===== src/Engine/Keeps.antt =====
-- engine.py: what `execute` keeps of the history.
use jibit_ir_sdk.Prelude.{
  ℕ, zero, suc, ◌+◌, ◌≡◌, refl, Bool, true, not, ◌&&◌, Option, none, some, String, List, ◌∷◌, leb,
}
use jibit_ir_sdk.Prelude.Text.{is_blank}
use jibit_ir_sdk.Types.{OperationSafety, is_unsafe, is_protected}
use jibit_ir_sdk.Exceptions.{JibitError}
use jibit_ir_sdk.Transport.{TransportResponse, Reply, responded, timed_out, network_failed, crashed}
use jibit_ir_sdk.Effects.{
  Environment, Event, sent, drew_id, read_monotonic, drew_random, slept, World, ok, M,
}
use jibit_ir_sdk.Effects.Keeps.{
  Keeps, is_plain, Keeps-pure, Keeps-raise, Keeps-if, Keeps-ask, Keeps-bind, Keeps-act, Keeps-log,
  preserved-known,
}
use jibit_ir_sdk.Response.{RawResponse}
use jibit_ir_sdk.Retry.{decide, is_transient_status}
use jibit_ir_sdk.Engine.{
  RequestEngine, RequestOptions, Call, fail, succeed, retry_or_fail, react, attempt_loop, execute,
  correlation, transport_request, fuel, is_success, log_retry,
}
use jibit_ir_sdk.Engine.Options.{endpoint_ok, validated_endpoint}

module _ {S : Type 0} (env : Environment) (engine : RequestEngine) (I : List Event → Type 0)
    (plain : (e : Event) → is_plain e ≡ true → (es : List Event) → I es → I (e ∷ es)) where
  decide-Keeps :
      (attempt : ℕ) (safety : OperationSafety) (status : Option ℕ) (transport_error has_key : Bool)
      → Keeps {S = S} I
          (decide env engine.retry_policy attempt safety status transport_error has_key)
  unfolding decide
  decide-Keeps attempt safety status transport_error has_key =
      Keeps-if (leb engine.retry_policy.max_attempts attempt) _ _ (Keeps-pure _) (
        Keeps-if (is_unsafe safety) _ _ (Keeps-pure _) (
          Keeps-if (is_protected safety && not has_key) _ _ (Keeps-pure _) (
            Keeps-if (not transport_error && not (is_transient_status status)) _ _ (Keeps-pure _)
              (Keeps-bind _ _ (Keeps-ask _ _ (plain drew_random refl)) (λ _. Keeps-pure _)))))

  fail-Keeps : (c : Call) (e : JibitError) → Keeps {S = S} I (fail env engine c e)
  unfolding fail
  fail-Keeps c e =
      Keeps-bind _ _ (Keeps-ask _ _ (plain read_monotonic refl))
        λ _. Keeps-bind _ _ (Keeps-log env _ _ _ plain) λ _. Keeps-raise _

  succeed-Keeps :
      (c : Call) (attempt : ℕ) (r : TransportResponse)
      → Keeps {S = S} I (succeed env engine c attempt r)
  unfolding succeed
  succeed-Keeps c attempt r =
      Keeps-bind _ _ (Keeps-ask _ _ (plain read_monotonic refl))
        λ _. Keeps-bind _ _ (Keeps-log env _ _ _ plain) λ _. Keeps-pure _

  retry_or_fail-Keeps :
      (c : Call) (attempt : ℕ) (status : Option ℕ) (transport_error : Bool) (e : JibitError)
      (again : M S RawResponse)
      → Keeps I again
      → Keeps I (retry_or_fail env engine c attempt status transport_error e again)
  unfolding retry_or_fail log_retry
  retry_or_fail-Keeps c attempt status transport_error e again h =
      Keeps-bind _ _ (decide-Keeps _ _ _ _ _) λ d.
        Keeps-if d.should_retry _ _
          (Keeps-bind _ _ (Keeps-log env _ _ _ plain)
            λ _. Keeps-bind _ _ (Keeps-act _ (plain (slept d.delay) refl)) λ _. h)
          (fail-Keeps c e)

  react-Keeps :
      (c : Call) (attempt : ℕ) (again : M S RawResponse) (reply : Reply)
      → Keeps I again
      → Keeps I (react env engine c attempt again reply)
  unfolding react
  react-Keeps c attempt again (responded r) h =
      Keeps-if (is_success r.status_code) _ _ (succeed-Keeps c attempt r)
        (retry_or_fail-Keeps c attempt _ _ _ again h)
  react-Keeps c attempt again timed_out h = retry_or_fail-Keeps c attempt _ _ _ again h
  react-Keeps c attempt again network_failed h = retry_or_fail-Keeps c attempt _ _ _ again h
  react-Keeps c attempt again crashed h = Keeps-raise _

  attempt_loop-Keeps :
      (c : Call) (sends : (es : List Event) → I es → I (sent c.request ∷ es)) (steps attempt : ℕ)
      → Keeps I (attempt_loop {S = S} env engine c steps attempt)
  unfolding attempt_loop
  attempt_loop-Keeps c sends zero attempt = Keeps-raise _
  attempt_loop-Keeps c sends (suc steps) attempt =
      Keeps-bind _ _ (Keeps-ask _ _ sends)
        λ reply. react-Keeps c attempt _ reply (attempt_loop-Keeps c sends steps (attempt + 1))

  correlation-Keeps : (given : Option String) → Keeps {S = S} I (correlation env engine given)
  unfolding correlation
  correlation-Keeps none = Keeps-ask _ _ (plain drew_id refl)
  correlation-Keeps (some s) =
      Keeps-if (is_blank s) _ _ (Keeps-ask _ _ (plain drew_id refl)) (Keeps-pure _)

  -- On a run in which the correlation id is known, only the request with that id counts.
  pub execute_preserved :
      (o : RequestOptions) (w : World S) (id : String)
      → (correlation env engine o.correlation_id w).0 ≡ ok id
      → ((es : List Event) → I es → I (sent (transport_request engine o id) ∷ es))
      → I w.trace
      → I (execute env engine o w).1.trace
  unfolding execute validated_endpoint
  execute_preserved o w id e sends i =
      preserved-known _ _ w id e (correlation-Keeps o.correlation_id)
        (Keeps-bind _ _ (Keeps-if (endpoint_ok o.path) _ _ (Keeps-pure tt) (Keeps-raise _)) λ _.
          Keeps-bind _ _ (Keeps-ask _ _ (plain read_monotonic refl)) λ started.
            Keeps-bind _ _ (Keeps-log env _ _ _ plain)
              λ _. attempt_loop-Keeps _ sends (fuel engine) 1)
        i

  -- A property of the history that survives the request of the options and every event that is
  -- neither a request nor about a lock survives `execute`.
  pub execute-Keeps :
      (o : RequestOptions)
      → ((id : String) (es : List Event) → I es → I (sent (transport_request engine o id) ∷ es))
      → Keeps {S = S} I (execute env engine o)
  unfolding execute validated_endpoint
  execute-Keeps o sends = Keeps-bind _ _ (correlation-Keeps o.correlation_id) λ id.
      Keeps-bind _ _ (Keeps-if (endpoint_ok o.path) _ _ (Keeps-pure tt) (Keeps-raise _)) λ _.
        Keeps-bind _ _ (Keeps-ask _ _ (plain read_monotonic refl)) λ started.
          Keeps-bind _ _ (Keeps-log env _ _ _ plain)
            λ _. attempt_loop-Keeps _ (sends id) (fuel engine) 1

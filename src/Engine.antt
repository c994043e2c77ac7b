-- ===== src/Engine.antt =====
-- engine.py: `RequestEngine`, the loop over attempts.
pub mod Options
pub mod Errors
pub mod Sending
pub mod Attempts
pub mod Repeats
pub mod Results
pub mod Recovery
pub mod Keeps
pub mod Agreement
pub use Options.{RequestOptions}
unfoldable pub use Options.{build_url, request_headers, validated_endpoint}
unfoldable pub use Errors.{map_error, context_of}
use jibit_ir_sdk.Prelude.{
  ℕ, zero, suc, ◌+◌, ◌-◌, ◌*◌, String, Bool, true, false, ◌&&◌, Option, none, some, List, [], ◌∷◌,
  ◌++◌, leb, ltb, pos, is_some, if◌then◌else◌,
}
use jibit_ir_sdk.Prelude.Text.{is_blank, upper}
use jibit_ir_sdk.Prelude.Dict.{Dict, erase}
use jibit_ir_sdk.Types.{value}
use jibit_ir_sdk.Json.{Json, int, float, str, or_null}
use jibit_ir_sdk.Config.{JibitConfig, RetryConfig}
use jibit_ir_sdk.Exceptions.{
  ErrorType, timeout, network, error_name, JibitError, jibit, other_error, out_of_fuel, safe_dict,
}
use jibit_ir_sdk.Logging.{
  info, warning, error, request_started, request_completed, request_failed, retry_scheduled,
}
use jibit_ir_sdk.Transport.{
  TransportRequest, TransportResponse, Reply, responded, timed_out, network_failed, crashed,
}
use jibit_ir_sdk.Effects.{
  Environment, drew_id, read_monotonic, sent, slept, Outcome, M, pure, raise, ask, act, log, ◌>>=◌,
  ◌>>◌,
}
use jibit_ir_sdk.Response.{RawResponse}
use jibit_ir_sdk.Retry.{RetryDecision, decide}
use jibit_ir_sdk.Engine.Options.{upstream_request_id}

pub record RequestEngine : Type 0 where
  pub config : JibitConfig
  pub retry_policy : RetryConfig

-- The variables of `execute` that its loop reads and never changes.
pub record Call : Type 0 where
  pub options : RequestOptions
  pub correlation_id : String
  pub started : ℕ
  pub request : TransportRequest

abbrev pub is_success : ℕ → Bool
is_success s = leb 200 s && ltb s 300

-- round((now - started) * 1000, 3): milliseconds with three decimals are whole microseconds.
abbrev duration_ms : ℕ → ℕ → Json
duration_ms started now = float (pos ((now - started) * 1000))

unfoldable pub transport_failure : Call → ErrorType → JibitError
transport_failure c type = record { type = type; context = context_of c.options c.correlation_id }

unfoldable pub transport_request : RequestEngine → RequestOptions → String → TransportRequest
transport_request engine o id = record {
  method = upper o.method;
  url = build_url engine.config o.service o.path;
  headers = request_headers o id;
  params = o.params;
  json = o.json;
  content = o.content;
  multipart = o.multipart;
  timeout = engine.config.timeout;
}

-- One attempt more than the policy allows is enough fuel.
abbrev fuel : RequestEngine → ℕ
fuel engine = suc engine.retry_policy.max_attempts

module _ {S : Type 0} (env : Environment) (engine : RequestEngine) where
  -- `_log_retry`
  log_retry : Call → ℕ → RetryDecision → M S (Unit {0})
  log_retry c attempt decision = log env warning retry_scheduled (
      ("service", str (value c.options.service))
      ∷ ("operation", str c.options.operation)
      ∷ ("correlation_id", str c.correlation_id)
      ∷ ("attempt", int (pos attempt))
      ∷ ("reason", str decision.reason)
      ∷ ("delay_seconds", float (pos decision.delay))
      ∷ [])

  -- `_log_failure`, and the raise that follows it.
  fail : Call → JibitError → M S RawResponse
  fail c e = do
    now ← ask read_monotonic env.monotonic
    log env error request_failed (
        erase "upstream_message" (safe_dict env.unicode e.context)
        ++ ("error_type", str (error_name e.type))
          ∷ ("duration_ms", duration_ms c.started now)
          ∷ [])
    raise (jibit e)

  -- The branch of a 2xx response.
  succeed : Call → ℕ → TransportResponse → M S RawResponse
  succeed c attempt r = do
    now ← ask read_monotonic env.monotonic
    log env info request_completed (
        ("service", str (value c.options.service))
        ∷ ("operation", str c.options.operation)
        ∷ ("method", str (upper c.options.method))
        ∷ ("endpoint", str c.options.path)
        ∷ ("status_code", int (pos r.status_code))
        ∷ ("duration_ms", duration_ms c.started now)
        ∷ ("correlation_id", str c.correlation_id)
        ∷ ("upstream_request_id", or_null (upstream_request_id r.headers))
        ∷ ("attempts", int (pos attempt))
        ∷ [])
    pure (record {
      status_code = r.status_code;
      headers = r.headers;
      content = r.content;
      correlation_id = c.correlation_id;
    })

  -- The decision after an attempt that did not succeed: again, or the error.
  retry_or_fail : Call → ℕ → Option ℕ → Bool → JibitError → M S RawResponse → M S RawResponse
  unfolding log_retry fail
  retry_or_fail c attempt status transport_error e again = do
    decision ←
        decide env engine.retry_policy attempt c.options.safety status transport_error
          (is_some c.options.idempotency_key)
    if decision.should_retry
        then (do log_retry c attempt decision; act (slept decision.delay); again)
        else fail c e

  -- What one pass of the loop does with the outcome of `send`.
  react : Call → ℕ → M S RawResponse → Reply → M S RawResponse
  unfolding retry_or_fail succeed transport_failure
  react c attempt again (responded r) =
      if is_success r.status_code
      then succeed c attempt r
      else retry_or_fail c attempt (some r.status_code) false
          (map_error env c.options c.correlation_id r) again
  react c attempt again timed_out =
      retry_or_fail c attempt none true (transport_failure c timeout) again
  react c attempt again network_failed =
      retry_or_fail c attempt none true (transport_failure c network) again
  react c attempt again crashed = raise other_error

  -- `while True`
  pub attempt_loop : Call → ℕ → ℕ → M S RawResponse
  unfolding react
  attempt_loop c zero attempt w = raise out_of_fuel w
  attempt_loop c (suc fuel) attempt w =
      (do
        reply ← ask (sent c.request) (λ history. env.send history c.request)
        react c attempt (attempt_loop c fuel (attempt + 1)) reply)
        w

  -- options.correlation_id or self._correlation_id_factory()
  pub correlation : Option String → M S String
  correlation none = ask drew_id env.new_id
  correlation (some given) = if is_blank given then ask drew_id env.new_id else pure given

  unfoldable pub execute : RequestOptions → M S RawResponse
  unfolding attempt_loop correlation transport_request
  execute o = do
    id ← correlation o.correlation_id
    validated_endpoint env o.path
    started ← ask read_monotonic env.monotonic
    log env info request_started (
        ("service", str (value o.service))
        ∷ ("operation", str o.operation)
        ∷ ("method", str (upper o.method))
        ∷ ("endpoint", str o.path)
        ∷ ("correlation_id", str id)
        ∷ [])
    attempt_loop
        (record {
          options = o;
          correlation_id = id;
          started = started;
          request = transport_request engine o id;
        })
        (fuel engine) 1

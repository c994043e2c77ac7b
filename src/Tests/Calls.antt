-- ===== src/Tests/Calls.antt =====
-- The engine and its retry policy at concrete requests.
use jibit_ir_sdk.Prelude.{ltb, ◌≤◌, ◌≡◌, ◌↔◌, ◌*◌, refl, arith, String, true, false, some, is_some}
use jibit_ir_sdk.Types.{read_only}
use jibit_ir_sdk.Config.Credentials.{OneMethod, credentials_ok-OneMethod}
use jibit_ir_sdk.Effects.{ask, log, ◌>>=◌, ok}
use jibit_ir_sdk.Effects.Counts.{Adds, count}
use jibit_ir_sdk.Retry.{RetryDecision, decide, backoff, delay_of}
use jibit_ir_sdk.Config.{retry_ok, credentials_ok}
use jibit_ir_sdk.Retry.Bounds.{Decides, decide-Decides, may_repeat, delay_of_bounds}
use jibit_ir_sdk.Engine.{execute, transport_request}
use jibit_ir_sdk.Engine.Options.{endpoint_ok, validated_endpoint}
use jibit_ir_sdk.Engine.Errors.{is_retryable}
use jibit_ir_sdk.Engine.Agreement.{decide-is_retryable}
use jibit_ir_sdk.Engine.Attempts.{is_sent, execute_attempts, execute_once, execute_sends_accepted}
use jibit_ir_sdk.Engine.Repeats.{SendsOnly, execute_sends_one_request}
use jibit_ir_sdk.Engine.Results.{CallExplained, execute_explained}
use jibit_ir_sdk.Tests.Fixtures.{
  env, retry_config, engine, lookup_request, payment_request, foreign_request, no_store, service,
}

execute_once_example : Adds {S = Unit {0}} is_sent 1 1 (execute env engine payment_request)
unfolding endpoint_ok
execute_once_example = execute_once env engine payment_request refl refl

execute_attempts_example : Adds {S = Unit {0}} is_sent 1 3 (execute env engine lookup_request)
unfolding endpoint_ok
execute_attempts_example = execute_attempts env engine lookup_request refl (omega arith)

execute_explained_example :
    CallExplained env engine lookup_request (execute env engine lookup_request no_store).0
unfolding endpoint_ok
execute_explained_example = execute_explained env engine lookup_request refl no_store

execute_sends_one_request_example :
    (id : String) × SendsOnly
      (transport_request engine lookup_request id)
      no_store.trace
      (execute env engine lookup_request no_store).1.trace
execute_sends_one_request_example = execute_sends_one_request env engine lookup_request no_store

execute_sends_accepted_example :
    ltb
      (count is_sent no_store.trace)
      (count is_sent (execute env engine foreign_request no_store).1.trace)
    ≡ endpoint_ok foreign_request.path
execute_sends_accepted_example = execute_sends_accepted env engine foreign_request no_store

-- A service that is down gets the three attempts that the policy allows, and the payment one.
attempts_test :
    (count is_sent (execute env engine lookup_request no_store).1.trace ≡ 3)
    × (count is_sent (execute env engine payment_request no_store).1.trace ≡ 1)
unfolding execute ◌>>=◌ ask validated_endpoint log decide
attempts_test = (refl, refl)

decide-Decides_example :
    Decides {S = Unit {0}} retry_config 1
      (may_repeat retry_config 1 read_only (some 503) false false)
      (decide env retry_config 1 read_only (some 503) false false)
decide-Decides_example = decide-Decides env retry_config 1 read_only (some 503) false false

decide-is_retryable_example :
    (d : RetryDecision) × ((decide {S = Unit {0}} env retry_config 1 lookup_request.safety
        (some 503)
        false
        (is_some lookup_request.idempotency_key)
        no_store).0
      ≡ ok d)
    × (d.should_retry ≡ is_retryable lookup_request 503)
decide-is_retryable_example =
    decide-is_retryable env retry_config 1 lookup_request 503 no_store (omega arith)

delay_of_bounds_example :
    (backoff retry_config 2 ≤ delay_of retry_config 2 500000)
    × (delay_of retry_config 2 500000 ≤ 2 * backoff retry_config 2)
    × (delay_of retry_config 2 500000 ≤ retry_config.max_delay)
unfolding retry_ok
delay_of_bounds_example = delay_of_bounds retry_config 2 500000 refl (omega arith)

credentials_ok-OneMethod_example :
    (credentials_ok service.credentials ≡ true) ↔ OneMethod service.credentials
credentials_ok-OneMethod_example = credentials_ok-OneMethod service.credentials

-- ===== src/Tests/Recovery.antt =====
-- A transport that is down for two requests.
use jibit_ir_sdk.Prelude.{◌≡◌, refl, arith, true, ltb, List, [], if◌then◌else◌}
use jibit_ir_sdk.Transport.{TransportRequest, Reply, responded, timed_out}
use jibit_ir_sdk.Effects.{Environment, Event}
use jibit_ir_sdk.Effects.Counts.{count}
use jibit_ir_sdk.Engine.{execute}
use jibit_ir_sdk.Engine.Options.{endpoint_ok}
use jibit_ir_sdk.Engine.Attempts.{is_sent}
use jibit_ir_sdk.Engine.Recovery.{answers_as, is_ok, execute_recovers}
use jibit_ir_sdk.Tests.Fixtures.{env, engine, lookup_request, no_store}

abbrev answer : List Event → TransportRequest → Reply
answer history request =
    if ltb (count is_sent history) 2
    then timed_out
    else responded (record { status_code = 200; headers = []; content = [] })

abbrev recovering : Environment
recovering = record env { send = answer }

recovering_answers :
    (history : List Event) (request : TransportRequest)
    → answers_as 2 (count is_sent history) (answer history request) ≡ true
recovering_answers history request = ground arith

execute_recovers_example : is_ok (execute recovering engine lookup_request no_store).0 ≡ true
unfolding endpoint_ok
execute_recovers_example =
    execute_recovers recovering engine lookup_request 2 no_store refl refl recovering_answers
      (omega arith)

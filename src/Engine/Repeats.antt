-- ===== src/Engine/Repeats.antt =====
-- engine.py: what the attempts of one call of `execute` send.
use jibit_ir_sdk.Prelude.{◌≡◌, String, true, List, ◌∷◌}
use jibit_ir_sdk.Transport.{TransportRequest}
use jibit_ir_sdk.Effects.{Environment, Event, sent, World}
use jibit_ir_sdk.Effects.Keeps.{is_plain}
use jibit_ir_sdk.Engine.{RequestEngine, RequestOptions, execute, transport_request}
use jibit_ir_sdk.Engine.Sending.{correlation-Returns}
use jibit_ir_sdk.Engine.Keeps.{execute_preserved}

-- The history grew from `old`, and every request that was added is `r`.
pub data SendsOnly (r : TransportRequest) (old : List Event) : List Event → Type 0 where
  nothing : SendsOnly r old old
  request : {es : List Event} → SendsOnly r old es → SendsOnly r old (sent r ∷ es)
  plain :
      {es : List Event} (e : Event)
      → is_plain e ≡ true
      → SendsOnly r old es
      → SendsOnly r old (e ∷ es)

-- All attempts of a call send one and the same request, its correlation id included.
pub execute_sends_one_request :
    {S : Type 0} (env : Environment) (engine : RequestEngine) (o : RequestOptions) (w : World S)
    → (id : String) × SendsOnly
        (transport_request engine o id)
        w.trace
        (execute env engine o w).1.trace
execute_sends_one_request env engine o w =
    let (id, e) = (correlation-Returns env engine (λ _. true) o.correlation_id).answer w in
    (
      id,
      execute_preserved env engine (SendsOnly (transport_request engine o id) w.trace)
          (λ e p es i. plain e p i) o w id e (λ es i. request i) nothing,
    )

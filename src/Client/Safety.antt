-- ===== src/Client/Safety.antt =====
-- client.py: an operation of any facade of the client, down to the requests that are sent.
use jibit_ir_sdk.Prelude.{String, Option, none, some}
use jibit_ir_sdk.Effects.{Environment, M}
use jibit_ir_sdk.Response.{RawResponse}
use jibit_ir_sdk.Engine.{RequestEngine, RequestOptions}
use jibit_ir_sdk.Auth.Store.{TokenStore}
use jibit_ir_sdk.Auth.Provider.Locking.{is_authorized}
use jibit_ir_sdk.Services.Careful.{IsCareful, AtMostOnce}
use jibit_ir_sdk.Services.Careful.Executors.{
  static_execute-IsCareful, authenticated_execute-IsCareful, audited_execute-IsCareful,
}
use jibit_ir_sdk.Services.Safety.{Codecs, Unrepeatable, unrepeatable_once}
use jibit_ir_sdk.Client.{
  Access, authenticated, static_token, Facade, JibitClient, access_execute, audited_as,
  facade_execute,
}

module _ {S : Type 0} (env : Environment) (store : TokenStore S) where
  access_execute-IsCareful :
      (engine : RequestEngine) (access : Access)
      → IsCareful is_authorized (access_execute env store engine access)
  unfolding access_execute
  access_execute-IsCareful engine (authenticated a) = record {
    once = (authenticated_execute-IsCareful env store a).once;
  }
  access_execute-IsCareful engine (static_token token) = record {
    once = (static_execute-IsCareful env engine token is_authorized).once;
  }

  audited_as-IsCareful :
      (name : Option String) (executor : RequestOptions → M S RawResponse)
      → IsCareful is_authorized executor
      → IsCareful is_authorized (audited_as env store name executor)
  unfolding audited_as
  audited_as-IsCareful none executor careful = record { once = careful.once }
  audited_as-IsCareful (some name) executor careful = record {
    once = (audited_execute-IsCareful env name careful).once;
  }

  -- The executor of every facade is careful.
  pub facade_execute-IsCareful :
      (c : JibitClient) (f : Facade) → IsCareful is_authorized (facade_execute env store c f)
  unfolding facade_execute
  facade_execute-IsCareful c f =
      audited_as-IsCareful f.event_name _ (access_execute-IsCareful c.engine f.access)

  -- Called on any facade of a client, an operation that the services mark as unsafe sends at most one
  -- request with a token, audits, retries and rejected tokens included: whatever its arguments, the token
  -- store, the other workers, the transport and the retry policy.
  pub operation_once :
      (codecs : Codecs) (c : JibitClient) (f : Facade) {A : Type 0} (m : M S A)
      → Unrepeatable env codecs (facade_execute env store c f) A m
      → AtMostOnce is_authorized m
  operation_once codecs c f m call =
      unrepeatable_once env codecs (facade_execute-IsCareful c f) m call

-- ===== src/Services/Careful/Executors.antt =====
-- engine.py, auth/authenticated.py, auth/static.py and services/base.py: the executors that the client hands
-- to its services are careful.
use jibit_ir_sdk.Prelude.{refl, arith, String, Bool}
use native.Mathlib.Nat.{le_refl}
use jibit_ir_sdk.Transport.{TransportRequest}
use jibit_ir_sdk.Effects.{Environment, M}
use jibit_ir_sdk.Effects.Counts.{
  Adds-pure, Adds-raise, Adds-weaken, Adds-skip, Adds-bind, Adds-catch,
}
use jibit_ir_sdk.Response.{RawResponse}
use jibit_ir_sdk.Engine.{RequestEngine, RequestOptions, execute}
use jibit_ir_sdk.Engine.Attempts.{execute_counted_once}
use jibit_ir_sdk.Auth.Store.{TokenStore}
use jibit_ir_sdk.Auth.Provider.{ServiceAuthenticator}
use jibit_ir_sdk.Auth.Provider.Locking.{is_authorized}
use jibit_ir_sdk.Auth.Authenticated.{authenticated_execute, static_execute}
use jibit_ir_sdk.Auth.Authenticated.Replay.{authenticated_execute_once}
use jibit_ir_sdk.Services.Base.{audited_execute}
use jibit_ir_sdk.Services.Base.Audit.{emit_quiet, audit_error_quiet}
use jibit_ir_sdk.Services.Careful.{IsCareful}

module _ {S : Type 0} (env : Environment) where
  -- The request engine is careful.
  pub execute-IsCareful :
      (engine : RequestEngine) (q : TransportRequest → Bool)
      → IsCareful {S = S} q (execute env engine)
  execute-IsCareful engine q = record { once = λ o h. execute_counted_once env engine o q h }

  -- The engine with a static token is careful.
  pub static_execute-IsCareful :
      (engine : RequestEngine) (token : String) (q : TransportRequest → Bool)
      → IsCareful {S = S} q (static_execute env engine token)
  unfolding static_execute
  static_execute-IsCareful engine token q = record {
    once = λ o h. execute_counted_once env engine _ q h;
  }

  -- The authenticated engine is careful with the requests that carry a token.
  pub authenticated_execute-IsCareful :
      (store : TokenStore S) (a : ServiceAuthenticator)
      → IsCareful is_authorized (authenticated_execute env store a)
  authenticated_execute-IsCareful store a = record { once = authenticated_execute_once env store a }

  -- Auditing keeps an executor careful.
  pub audited_execute-IsCareful :
      {q : TransportRequest → Bool} (event_name : String)
      {executor : RequestOptions → M S RawResponse}
      → IsCareful q executor
      → IsCareful q (audited_execute env event_name executor)
  unfolding audited_execute
  audited_execute-IsCareful event_name careful = record {
    once = λ o h. Adds-weaken _ (le_refl _) (omega arith) (
        Adds-bind _ _
          (Adds-catch _ _ (careful.once o h) λ e.
            Adds-skip _ _ (audit_error_quiet env (λ _ _ _. refl) (λ _. refl) _ _ _ _)
              λ _. Adds-raise _)
          λ raw.
            Adds-skip _ _ (emit_quiet env (λ _ _ _. refl) (λ _. refl) _ _ _ _ _ _)
              λ _. Adds-pure _);
  }

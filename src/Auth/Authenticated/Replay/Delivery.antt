-- ===== src/Auth/Authenticated/Replay/Delivery.antt =====
-- auth/authenticated.py: an authenticated call that returns has sent the request with a token.
use jibit_ir_sdk.Prelude.{◌≡◌, true, arith}
use native.Mathlib.Nat.{le_refl}
use jibit_ir_sdk.Effects.{Environment}
use jibit_ir_sdk.Effects.Counts.{Adds-bind, Adds-weaken}
use jibit_ir_sdk.Effects.Delivers.{Delivers, Delivers-always, Delivers-rest}
use jibit_ir_sdk.Engine.{RequestOptions}
use jibit_ir_sdk.Engine.Options.{endpoint_ok}
use jibit_ir_sdk.Engine.Attempts.{sent_if, attempted-Adds}
use jibit_ir_sdk.Auth.Store.{TokenStore}
use jibit_ir_sdk.Auth.Tokens.{TokenState}
use jibit_ir_sdk.Auth.Provider.{ServiceAuthenticator}
use jibit_ir_sdk.Auth.Provider.Locking.{is_authorized, get_token-Quiet}
use jibit_ir_sdk.Auth.Authenticated.{authorize, authenticated_execute}
use jibit_ir_sdk.Auth.Authenticated.Guard.{authorized}
use jibit_ir_sdk.Auth.Authenticated.Replay.{first_try-Adds, answer-Adds}

pub authenticated_execute-Delivers :
    {S : Type 0} (env : Environment) (store : TokenStore S) (a : ServiceAuthenticator)
    (o : RequestOptions)
    → endpoint_ok o.path ≡ true
    → Delivers (sent_if is_authorized) (authenticated_execute env store a o)
unfolding authenticated_execute authorize
authenticated_execute-Delivers {S} env store a o h =
    let sends = λ (t : TokenState).
      attempted-Adds {S = S} env a.engine (authorize o t) is_authorized h
        (authorized a.engine o t) in
    Delivers-rest _ _ (get_token-Quiet env store a) λ token. Delivers-always _ (
      Adds-bind _ _ (first_try-Adds env store a o sends token)
        (answer-Adds env store a o (λ t. Adds-weaken _ (omega arith) (le_refl _) (sends t)) token))

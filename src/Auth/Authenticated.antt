-- ===== src/Auth/Authenticated.antt =====
-- auth/authenticated.py and auth/static.py: engines that attach a token to each request.
pub mod Replay
pub mod Guard
use jibit_ir_sdk.Prelude.{
  ℕ, String, ◌<>◌, Bool, true, false, not, ◌||◌, ◌&&◌, Option, none, some, is_some, if◌then◌else◌,
}
use jibit_ir_sdk.Prelude.Dict.{insert}
use jibit_ir_sdk.Types.{ServiceName, OperationSafety, is_repeatable, is_protected}
use jibit_ir_sdk.Config.{JibitConfig, ServiceConfig, configuration_error}
use jibit_ir_sdk.Exceptions.{ErrorType, authentication, Raised, jibit}
use jibit_ir_sdk.Effects.{Environment, Outcome, ok, raised, M, pure, raise, catch, ◌>>=◌, ◌>>◌}
use jibit_ir_sdk.Response.{RawResponse}
use jibit_ir_sdk.Engine.{RequestEngine, RequestOptions, execute}
use jibit_ir_sdk.Auth.Tokens.{TokenState}
use jibit_ir_sdk.Auth.Store.{TokenStore}
use jibit_ir_sdk.Auth.Provider.{
  ServiceAuthenticator, get_token, recover_from_unauthorized, invalidate,
}

-- except JibitAuthenticationError
abbrev pub is_authentication : Raised → Bool
is_authentication (jibit e) = elim e.type [ authentication ↦ true | _ ↦ false ]
is_authentication _ = false

-- `_can_replay`
unfoldable pub can_replay : RequestOptions → Bool
can_replay o =
    if is_repeatable o.safety then true else is_protected o.safety && is_some o.idempotency_key

-- `_authorize`
unfoldable pub authorize : RequestOptions → TokenState → RequestOptions
authorize o t = record o {
  headers = insert "Authorization" (t.token_type <> " " <> t.access_token) o.headers;
}

module _ {S : Type 0} (env : Environment) (store : TokenStore S) (a : ServiceAuthenticator) where
  -- The second attempt, with another token.
  replay : RequestOptions → TokenState → M S RawResponse
  replay o token = do
    replacement ← recover_from_unauthorized env store a token.access_token
    catch (execute env a.engine (authorize o replacement))
        λ e. if is_authentication e then invalidate env store a >> raise e else raise e

  -- What the first `try` yields: `none` if the request was rejected and may be replayed.
  first_try : RequestOptions → TokenState → M S (Option RawResponse)
  first_try o token =
      catch (do raw ← execute env a.engine (authorize o token); pure (some raw))
        λ e.
          if is_authentication e
          then (if can_replay o then pure none else invalidate env store a >> raise e)
          else raise e

  answer_or_replay : RequestOptions → TokenState → Option RawResponse → M S RawResponse
  answer_or_replay o token none = replay o token
  answer_or_replay o token (some raw) = pure raw

  -- `AuthenticatedRequestEngine.execute`
  unfoldable pub authenticated_execute : RequestOptions → M S RawResponse
  unfolding first_try answer_or_replay replay
  authenticated_execute o = do
    token ← get_token env store a
    answer ← first_try o token
    answer_or_replay o token answer

-- `JibitConfig.service`: an enabled configuration, or an error.
abbrev if_enabled : Option ServiceConfig → Outcome ServiceConfig
if_enabled none = raised configuration_error
if_enabled (some c) = if not c.enabled then raised configuration_error else ok c

unfoldable pub service_config : JibitConfig → ServiceName → Outcome ServiceConfig
service_config config name = if_enabled (config.services name)

abbrev static_token : Outcome ServiceConfig → Outcome String
static_token (raised e) = raised e
static_token (ok c) = elim c.credentials.access_token [
  | none ↦ raised configuration_error
  | some token ↦ ok token
]

-- `StaticBearerRequestEngine.__init__`, which keeps the configured token.
unfoldable pub static_bearer : JibitConfig → ServiceName → Outcome String
unfolding service_config
static_bearer config service = static_token (service_config config service)

-- `StaticBearerRequestEngine.execute`
unfoldable pub static_execute :
    {S : Type 0} → Environment → RequestEngine → String → RequestOptions → M S RawResponse
static_execute env engine token o =
    execute env engine
      (record o { headers = insert "Authorization" ("Bearer " <> token) o.headers })

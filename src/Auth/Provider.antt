-- ===== src/Auth/Provider.antt =====
-- auth/provider.py: `ServiceAuthenticator`, the life of a token.
pub mod Parsing
pub mod Locking
pub mod Guard
pub mod Cached
pub mod Stored
use jibit_ir_sdk.Prelude.{
  ℕ, String, ◌=ₛ◌, Bool, true, false, not, ◌&&◌, Option, none, some, List, [], ◌∷◌, if◌then◌else◌,
}
use jibit_ir_sdk.Types.{ServiceName, value, idempotent}
use jibit_ir_sdk.Json.{Json, null, str, obj, Fields}
use jibit_ir_sdk.Config.{JibitConfig, ServiceConfig, configuration_error}
use jibit_ir_sdk.Exceptions.{
  ErrorType, authentication, validation, response, empty_context, JibitError, Raised, jibit,
  value_error, type_error,
}
use jibit_ir_sdk.Logging.{
  Level, info, warning, token_acquired, token_refreshed, token_refresh_failed,
}
use jibit_ir_sdk.Effects.{
  Environment, read_clock, Outcome, ok, raised, M, pure, raise, catch, with_lock, lift, ask, log,
  ◌>>=◌, ◌>>◌,
}
use jibit_ir_sdk.Response.{RawResponse, json}
use jibit_ir_sdk.Engine.{RequestEngine, RequestOptions, execute}
use jibit_ir_sdk.Auth.Tokens.{TokenState, refresh_value, is_access_valid, is_refresh_valid}
use jibit_ir_sdk.Auth.Store.{TokenStore, store_get, store_set, store_delete}
use jibit_ir_sdk.Auth.Specs.{AuthSpec}
use jibit_ir_sdk.Auth.Provider.Parsing.{
  generation_body, refresh_body, access_token_of, token_state, response_error, authentication_error,
  Scope,
}

-- The fields that the methods read. `engine` is the shared request engine.
pub record ServiceAuthenticator : Type 0 where
  pub scope : Scope
  pub engine : RequestEngine
  pub cache_key : String

abbrev object_or_error : Json → Outcome Fields
object_or_error (obj fs) = ok fs
object_or_error _ = raised response_error

-- except (JibitAuthenticationError, JibitValidationError)
abbrev pub is_refresh_rejection : Raised → Bool
is_refresh_rejection (jibit e) = elim e.type [
  | authentication ↦ true
  | validation ↦ true
  | _ ↦ false
]
is_refresh_rejection _ = false

-- except (TypeError, ValueError)
abbrev is_bad_state : Raised → Bool
is_bad_state value_error = true
is_bad_state type_error = true
is_bad_state _ = false

module _ {S : Type 0} (env : Environment) (store : TokenStore S) (a : ServiceAuthenticator) where
  token_request : String → String → Fields → RequestOptions
  token_request operation path body = record {
    service = a.scope.service;
    operation = operation;
    method = "POST";
    path = path;
    safety = idempotent;
    headers = [];
    params = null;
    json = obj body;
    content = none;
    multipart = none;
    idempotency_key = none;
    correlation_id = none;
  }

  -- The request, the decoding and the parse that both kinds of token request share.
  exchange : String → String → Fields → Option TokenState → M S TokenState
  unfolding token_request
  exchange operation path body previous = do
    raw ← execute env a.engine (token_request operation path body)
    parsed ← lift (json env raw)
    fields ← lift (object_or_error parsed)
    access ← lift (access_token_of env a.scope fields)
    now ← ask read_clock env.clock
    lift (token_state env a.scope access fields previous now)

  -- `_request_token`
  unfoldable pub request_token : Option TokenState → M S TokenState
  unfolding exchange
  request_token none = do
    body ← lift (generation_body a.scope)
    exchange "generate_token" a.scope.spec.generate_path body none
  request_token (some refresh) = elim (refresh_value refresh) [
    | none ↦ raise authentication_error
    | some token ↦
        exchange "refresh_token" a.scope.spec.refresh_path (refresh_body a.scope.spec token refresh)
          (some refresh)
  ]

  -- `_safe_get`: a state that cannot be read is deleted.
  unfoldable pub safe_get : M S (Option TokenState)
  safe_get =
      catch (store_get store a.cache_key)
        λ e. if is_bad_state e then store_delete store a.cache_key >> pure none else raise e

  acquire : M S TokenState
  acquire = do
    token ← request_token none
    store_set store a.cache_key token
    log env info token_acquired
        (("service", str (value a.scope.service)) ∷ ("source", str "credentials") ∷ [])
    pure token

  -- What the `try` around the refresh yields: `none` if the refresh was rejected.
  attempt_refresh : TokenState → M S (Option TokenState)
  attempt_refresh cached =
      catch (do token ← request_token (some cached); pure (some token))
        λ e.
          if is_refresh_rejection e
          then log env warning token_refresh_failed
              (("service", str (value a.scope.service)) ∷ ("reason", str "refresh_rejected") ∷ [])
            >> pure none
          else raise e

  keep_refreshed : TokenState → M S TokenState
  keep_refreshed token = do
    store_set store a.cache_key token
    log env info token_refreshed
        (("service", str (value a.scope.service)) ∷ ("source", str "refresh_token") ∷ [])
    pure token

  refresh_then : Option TokenState → M S TokenState
  unfolding acquire keep_refreshed
  refresh_then none = acquire
  refresh_then (some token) = keep_refreshed token

  -- `_refresh_or_acquire`
  unfoldable pub refresh_or_acquire : Option TokenState → ℕ → M S TokenState
  unfolding acquire attempt_refresh refresh_then
  refresh_or_acquire none now = acquire
  refresh_or_acquire (some cached) now =
      if is_refresh_valid cached now a.scope.leeway
      then (do refreshed ← attempt_refresh cached; refresh_then refreshed)
      else acquire

  abbrev pub is_usable : Option TokenState → ℕ → Bool
  is_usable none now = false
  is_usable (some t) now = is_access_valid t now a.scope.leeway

  -- The token of a state that is usable, and otherwise `m`.
  or_else : Option TokenState → Bool → M S TokenState → M S TokenState
  or_else (some t) true m = pure t
  or_else _ _ m = m

  locked_get : M S TokenState
  unfolding or_else
  locked_get = do
    now ← ask read_clock env.clock
    cached ← safe_get
    or_else cached (is_usable cached now) (refresh_or_acquire cached now)

  unfoldable pub get_token : M S TokenState
  unfolding safe_get or_else locked_get
  get_token = do
    now ← ask read_clock env.clock
    cached ← safe_get
    or_else cached (is_usable cached now) (with_lock env a.cache_key locked_get)

  abbrev is_other : Option TokenState → String → Bool
  is_other none rejected = false
  is_other (some t) rejected = not (t.access_token =ₛ rejected)

  unfoldable pub recover_from_unauthorized : String → M S TokenState
  unfolding safe_get or_else
  recover_from_unauthorized rejected = with_lock env a.cache_key (do
    cached ← safe_get
    now ← ask read_clock env.clock
    or_else cached (is_other cached rejected && is_usable cached now)
        (refresh_or_acquire cached now))

  unfoldable pub invalidate : M S (Unit {0})
  invalidate = store_delete store a.cache_key

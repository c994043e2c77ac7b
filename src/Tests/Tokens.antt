-- ===== src/Tests/Tokens.antt =====
-- Tokens and authenticated requests at concrete stores.
use jibit_ir_sdk.Prelude.{String, ◌≡◌, refl, arith, true, none, List, [], ◌∷◌, ◌*◌}
use jibit_ir_sdk.Prelude.Dict.{Dict, lookup}
use jibit_ir_sdk.Json.{str}
use jibit_ir_sdk.Auth.Tokens.{to_cache_data, from_cache_data, refresh_value}
use jibit_ir_sdk.Auth.Tokens.Cache.{from_cache_data-to_cache_data}
use jibit_ir_sdk.Effects.{Event, read_clock, store_read, locked, unlocked, ok}
use jibit_ir_sdk.Effects.Counts.{Adds}
use jibit_ir_sdk.Engine.Attempts.{sent_if}
use jibit_ir_sdk.Auth.Tokens.{TokenState, is_access_valid}
use jibit_ir_sdk.Auth.Store.{TokenStore, memory_store}
use jibit_ir_sdk.Auth.Provider.{get_token}
use jibit_ir_sdk.Auth.Provider.Locking.{is_authorized}
use jibit_ir_sdk.Auth.Provider.Cached.{get_token_waits}
use jibit_ir_sdk.Auth.Authenticated.{authenticated_execute}
use jibit_ir_sdk.Auth.Provider.Guard.{is_guarded}
use jibit_ir_sdk.Auth.Authenticated.Guard.{authenticated_execute_guarded}
use jibit_ir_sdk.Auth.Authenticated.Replay.{
  authenticated_execute_once, authenticated_execute_attempts,
}
use jibit_ir_sdk.Tests.Fixtures.{
  env, engine, lookup_request, payment_request, store, token, authenticator, with_token,
  without_token,
}

-- Another worker, which stores a token while this one waits for the lock.
abbrev other_worker : List Event → Dict TokenState → Dict TokenState
other_worker (read_clock ∷ locked key ∷ es) d = ("jibit:token:1", token) ∷ []
other_worker _ d = d

abbrev shared_store : TokenStore (Dict TokenState)
shared_store = memory_store other_worker

authenticated_execute_once_example :
    Adds (sent_if is_authorized) 0 1 (authenticated_execute env store authenticator payment_request)
authenticated_execute_once_example =
    authenticated_execute_once env store authenticator payment_request refl

authenticated_execute_attempts_example :
    Adds
      (sent_if is_authorized)
      0
      (2 * engine.retry_policy.max_attempts)
      (authenticated_execute env store authenticator lookup_request)
authenticated_execute_attempts_example =
    authenticated_execute_attempts env store authenticator lookup_request (omega arith)

authenticated_execute_guarded_example :
    is_guarded "jibit:token:1"
      (authenticated_execute env store authenticator payment_request with_token).1.trace
    ≡ true
authenticated_execute_guarded_example =
    authenticated_execute_guarded env store authenticator payment_request with_token refl

same_text : (s : String) → env.py_str (str s) ≡ s
same_text s = refl

from_cache_data-to_cache_data_example :
    from_cache_data env (to_cache_data token)
    ≡ ok (record token { refresh_token = refresh_value token })
from_cache_data-to_cache_data_example = from_cache_data-to_cache_data env same_text token refl refl

get_token_waits_example : get_token env shared_store authenticator without_token ≡ (
  ok token,
  record {
    trace =
        unlocked "jibit:token:1"
        ∷ store_read "jibit:token:1"
        ∷ read_clock
        ∷ locked "jibit:token:1"
        ∷ store_read "jibit:token:1"
        ∷ read_clock
        ∷ [];
    store = with_token.store;
  },
)
unfolding memory_store lookup is_access_valid
get_token_waits_example =
    get_token_waits env shared_store authenticator without_token token none refl refl refl refl refl
      refl

-- ===== src/Auth/Provider/Cached.antt =====
-- auth/provider.py: a token that another worker stored meanwhile.
use jibit_ir_sdk.Prelude.{◌≡◌, refl, ◌∷◌, true, false, Option, none, some}
use jibit_ir_sdk.Effects.{
  Environment, read_clock, store_read, locked, unlocked, World, ok, pure, ask, catch, with_lock,
  ◌>>=◌,
}
use jibit_ir_sdk.Auth.Tokens.{TokenState, is_access_valid}
use jibit_ir_sdk.Auth.Store.{TokenStore, store_get}
use jibit_ir_sdk.Auth.Provider.{
  ServiceAuthenticator, safe_get, is_usable, or_else, locked_get, get_token,
}

module _ {S : Type 0} (env : Environment) (store : TokenStore S) (a : ServiceAuthenticator)
    (w : World S) (t : TokenState) where
  -- A worker that finds no usable token waits for the lock, and if another worker has stored a valid
  -- one by then, and the lock is taken and released without an error, it returns that one: nothing is
  -- sent and nothing is written.
  pub get_token_waits :
      (before : Option TokenState)
      → store.get a.cache_key (store.others (read_clock ∷ w.trace) w.store) ≡ ok before
      → is_usable env store a before (env.clock w.trace) ≡ false
      → let waiting = locked a.cache_key ∷ store_read a.cache_key ∷ read_clock ∷ w.trace in
        let seen =
          store.others (read_clock ∷ waiting) (store.others (read_clock ∷ w.trace) w.store) in
        store.get a.cache_key seen ≡ ok (some t)
        → is_access_valid t (env.clock waiting) a.scope.leeway ≡ true
        → env.lock_error waiting ≡ none
        → env.lock_error (unlocked a.cache_key ∷ store_read a.cache_key ∷ read_clock ∷ waiting)
          ≡ none
        → get_token env store a w ≡ (
          ok t,
          record {
            trace = unlocked a.cache_key ∷ store_read a.cache_key ∷ read_clock ∷ waiting;
            store = seen;
          },
        )
  unfolding get_token locked_get safe_get store_get catch ◌>>=◌ ask or_else pure with_lock
  get_token_waits none h k same valid enters leaves = rw (h, enters, same, valid, leaves) refl
  get_token_waits (some b) h k same valid enters leaves =
      rw (h, k, enters, same, valid, leaves) refl

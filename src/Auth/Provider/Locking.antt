-- ===== src/Auth/Provider/Locking.antt =====
-- auth/provider.py: how often token requests are counted.
use jibit_ir_sdk.Prelude.{ℕ, ◌≡◌, refl, String, Bool, true, false, Option, none, some, is_some}
use jibit_ir_sdk.Prelude.Dict.{lookup, set_default}
use jibit_ir_sdk.Json.{Fields}
use jibit_ir_sdk.Transport.{TransportRequest}
use jibit_ir_sdk.Effects.{Environment, M}
use jibit_ir_sdk.Effects.Counts.{
  Adds, Adds-pure, Adds-raise, Adds-if, Adds-skip, Adds-ask_off, Adds-log, Adds-catch, Adds-lift,
  Adds-with_lock, Adds-quiet_call,
}
use jibit_ir_sdk.Engine.{transport_request, request_headers}
use jibit_ir_sdk.Engine.Attempts.{sent_if, execute_uncounted}
use jibit_ir_sdk.Auth.Tokens.{TokenState, is_refresh_valid, refresh_value}
use jibit_ir_sdk.Auth.Store.{TokenStore, store_get, store_set, store_delete}
use jibit_ir_sdk.Auth.Provider.{
  ServiceAuthenticator, is_bad_state, is_refresh_rejection, token_request, exchange, request_token,
  safe_get, acquire, attempt_refresh, keep_refreshed, refresh_then, refresh_or_acquire, or_else,
  locked_get, get_token, recover_from_unauthorized, invalidate,
}

-- Requests that carry a token.
abbrev pub is_authorized : TransportRequest → Bool
is_authorized r = is_some (lookup "Authorization" r.headers)

module _ {S : Type 0} (env : Environment) (store : TokenStore S) (a : ServiceAuthenticator) where
  abbrev Quiet : {A : Type 0} → M S A → Type 0
  Quiet = Adds (sent_if is_authorized) 0 0

  exchange-Quiet :
      (operation path : String) (body : Fields) (previous : Option TokenState)
      → Quiet (exchange env store a operation path body previous)
  unfolding exchange token_request transport_request request_headers lookup set_default
  exchange-Quiet operation path body previous =
      Adds-skip _ _
        (execute_uncounted env a.engine (token_request env store a operation path body)
          is_authorized (λ id. refl))
        λ raw. Adds-skip _ _ (Adds-lift _) λ parsed. Adds-skip _ _ (Adds-lift _) λ fields.
          Adds-skip _ _ (Adds-lift _)
            λ access. Adds-skip _ _ (Adds-ask_off _ _ refl) λ now. Adds-lift _

  refresh-Quiet :
      (refresh : TokenState) (value : Option String)
      → refresh_value refresh ≡ value
      → Quiet (request_token env store a (some refresh))
  unfolding request_token
  refresh-Quiet refresh none e = rw (e, request_token) (Adds-raise _)
  refresh-Quiet refresh (some token) e = rw (e, request_token) (exchange-Quiet _ _ _ _)

  request_token-Quiet : (refresh : Option TokenState) → Quiet (request_token env store a refresh)
  unfolding request_token
  request_token-Quiet none = Adds-skip _ _ (Adds-lift _) λ body. exchange-Quiet _ _ _ _
  request_token-Quiet (some refresh) = refresh-Quiet refresh (refresh_value refresh) refl

  safe_get-Quiet : Quiet (safe_get env store a)
  unfolding safe_get store_get store_delete
  safe_get-Quiet = Adds-catch _ _ (Adds-quiet_call _ (λ w. refl)) λ e.
      Adds-if (is_bad_state e) _ _
        (λ _. Adds-skip _ _ (Adds-quiet_call _ (λ w. refl)) λ _. Adds-pure _) (λ _. Adds-raise _)

  keep-Quiet : (token : TokenState) → Quiet (keep_refreshed env store a token)
  unfolding keep_refreshed store_set
  keep-Quiet token =
      Adds-skip _ _ (Adds-quiet_call _ (λ w. refl))
        λ _. Adds-skip _ _ (Adds-log env _ _ _ (λ _. refl)) λ _. Adds-pure _

  acquire-Quiet : Quiet (acquire env store a)
  unfolding acquire store_set
  acquire-Quiet = Adds-skip _ _ (request_token-Quiet none) λ token.
      Adds-skip _ _ (Adds-quiet_call _ (λ w. refl))
        λ _. Adds-skip _ _ (Adds-log env _ _ _ (λ _. refl)) λ _. Adds-pure _

  attempt_refresh-Quiet : (cached : TokenState) → Quiet (attempt_refresh env store a cached)
  unfolding attempt_refresh
  attempt_refresh-Quiet cached =
      Adds-catch _ _ (Adds-skip _ _ (request_token-Quiet _) λ _. Adds-pure _) λ e.
        Adds-if (is_refresh_rejection e) _ _
          (λ _. Adds-skip _ _ (Adds-log env _ _ _ (λ _. refl)) λ _. Adds-pure _) (λ _. Adds-raise _)

  refresh_then-Quiet : (refreshed : Option TokenState) → Quiet (refresh_then env store a refreshed)
  unfolding refresh_then
  refresh_then-Quiet none = acquire-Quiet
  refresh_then-Quiet (some token) = keep-Quiet token

  refresh_or_acquire-Quiet :
      (cached : Option TokenState) (now : ℕ) → Quiet (refresh_or_acquire env store a cached now)
  unfolding refresh_or_acquire
  refresh_or_acquire-Quiet none now = acquire-Quiet
  refresh_or_acquire-Quiet (some cached) now =
      Adds-if (is_refresh_valid cached now a.scope.leeway) _ _
        (λ _. Adds-skip _ _ (attempt_refresh-Quiet cached) refresh_then-Quiet) (λ _. acquire-Quiet)

  or_else-Quiet :
      (cached : Option TokenState) (usable : Bool) (m : M S TokenState)
      → Quiet m
      → Quiet (or_else env store a cached usable m)
  unfolding or_else
  or_else-Quiet none usable m h = h
  or_else-Quiet (some t) true m h = Adds-pure t
  or_else-Quiet (some t) false m h = h

  -- Getting a token sends no request with an Authorization header.
  pub get_token-Quiet : Quiet (get_token env store a)
  unfolding get_token locked_get
  get_token-Quiet = Adds-skip _ _ (Adds-ask_off _ _ refl) λ now.
      Adds-skip _ _ safe_get-Quiet λ cached. or_else-Quiet cached _ _ (
        Adds-with_lock env _ _ refl refl (
          Adds-skip _ _ (Adds-ask_off _ _ refl) λ later.
            Adds-skip _ _ safe_get-Quiet
              λ again. or_else-Quiet again _ _ (refresh_or_acquire-Quiet again later)))

  pub recover-Quiet : (rejected : String) → Quiet (recover_from_unauthorized env store a rejected)
  unfolding recover_from_unauthorized
  recover-Quiet rejected = Adds-with_lock env _ _ refl refl (
      Adds-skip _ _ safe_get-Quiet λ cached.
        Adds-skip _ _ (Adds-ask_off _ _ refl)
          λ now. or_else-Quiet cached _ _ (refresh_or_acquire-Quiet cached now))

  pub invalidate-Quiet : Quiet (invalidate env store a)
  unfolding invalidate store_delete
  invalidate-Quiet = Adds-quiet_call _ (λ w. refl)

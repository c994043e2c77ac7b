-- ===== src/Auth/Provider/Guard.antt =====
-- auth/provider.py and auth/authenticated.py: requests without a token are sent under the lock.
use jibit_ir_sdk.Prelude.{
  ℕ, ◌≡◌, refl, arith, String, ◌=ₛ◌, eq_iff, Bool, true, false, ◌&&◌, ◌||◌, Option, none, some,
  List, [], ◌∷◌, if◌then◌else◌,
}
use jibit_ir_sdk.Json.{Fields}
use jibit_ir_sdk.Effects.{
  Environment, Event, sent, locked, unlocked, read_clock, store_read, store_written, store_deleted,
  M, with_lock, entered,
}
use jibit_ir_sdk.Exceptions.{Raised}
use jibit_ir_sdk.Effects.Keeps.{
  Keeps, is_plain, Keeps-pure, Keeps-raise, Keeps-lift, Keeps-if, Keeps-catch, Keeps-ask,
  Keeps-bind, Keeps-log,
}
use jibit_ir_sdk.Engine.Keeps.{execute-Keeps}
use jibit_ir_sdk.Auth.Tokens.{TokenState, refresh_value, is_refresh_valid}
use jibit_ir_sdk.Auth.Store.{TokenStore, store_get, store_set, store_delete}
use jibit_ir_sdk.Auth.Provider.{
  ServiceAuthenticator, exchange, request_token, safe_get, acquire, attempt_refresh, keep_refreshed,
  refresh_then, refresh_or_acquire, or_else, locked_get, get_token, recover_from_unauthorized,
  invalidate, is_bad_state, is_refresh_rejection, token_request,
}
use jibit_ir_sdk.Auth.Provider.Locking.{is_authorized}

-- Whether the lock of the key is held at the end of a history, which stands newest first.
abbrev pub is_held : String → List Event → Bool
is_held key [] = false
is_held key (locked k ∷ es) = if k =ₛ key then true else is_held key es
is_held key (unlocked k ∷ es) = if k =ₛ key then false else is_held key es
is_held key (_ ∷ es) = is_held key es

-- Whether every request without a token was sent while the lock of the key was held.
abbrev pub is_guarded : String → List Event → Bool
is_guarded key [] = true
is_guarded key (sent r ∷ es) = (is_authorized r || is_held key es) && is_guarded key es
is_guarded key (_ ∷ es) = is_guarded key es

abbrev pub Guarded : String → List Event → Type 0
Guarded key es = is_guarded key es ≡ true

abbrev Held : String → List Event → Type 0
Held key es = (is_guarded key es && is_held key es) ≡ true

pub plain-Guarded :
    (key : String) (e : Event)
    → is_plain e ≡ true
    → (es : List Event) → Guarded key es
    → Guarded key (e ∷ es)
plain-Guarded key e p es i = ground arith

plain-Held :
    (key : String) (e : Event)
    → is_plain e ≡ true
    → (es : List Event) → Held key es
    → Held key (e ∷ es)
plain-Held key e p es i = ground arith

module _ {S : Type 0} where
  entered-Keeps :
      {A : Type 0} (env : Environment) (key : String) (m : M S A) (failure : Option Raised)
      → Keeps (Held key) m
      → Keeps (Guarded key) (entered env key m failure)
  entered-Keeps env key m (some e) h = record { preserved = λ w i. i }
  entered-Keeps env key m none h = record {
    preserved = λ w i.
        let inner =
          h.preserved (record w { trace = locked key ∷ w.trace })
            (ground (arith, i, eq_iff key key)) in
        ground (arith, inner);
  }

  -- What runs under the lock may rely on it.
  with_lock-Keeps :
      {A : Type 0} (env : Environment) (key : String) (m : M S A)
      → Keeps (Held key) m
      → Keeps (Guarded key) (with_lock env key m)
  unfolding with_lock
  with_lock-Keeps env key m h = record {
    preserved =
        λ w i. (entered-Keeps env key m (env.lock_error (locked key ∷ w.trace)) h).preserved w i;
  }

module _ {S : Type 0} (env : Environment) (store : TokenStore S) (a : ServiceAuthenticator) where
  module _ (I : List Event → Type 0)
      (plain : (e : Event) → is_plain e ≡ true → (es : List Event) → I es → I (e ∷ es)) where
    store_get-Keeps : Keeps I (store_get store a.cache_key)
    unfolding store_get
    store_get-Keeps = record { preserved = λ w i. plain (store_read a.cache_key) refl w.trace i }

    pub store_delete-Keeps : Keeps I (store_delete store a.cache_key)
    unfolding store_delete
    store_delete-Keeps = record {
      preserved = λ w i. plain (store_deleted a.cache_key) refl w.trace i;
    }

    store_set-Keeps : (token : TokenState) → Keeps I (store_set store a.cache_key token)
    unfolding store_set
    store_set-Keeps token = record {
      preserved = λ w i. plain (store_written a.cache_key) refl w.trace i;
    }

    safe_get-Keeps : Keeps I (safe_get env store a)
    unfolding safe_get
    safe_get-Keeps = Keeps-catch _ _ store_get-Keeps λ e.
        Keeps-if (is_bad_state e) _ _ (Keeps-bind _ _ store_delete-Keeps λ _. Keeps-pure _)
          (Keeps-raise _)

    or_else-Keeps :
        (cached : Option TokenState) (usable : Bool) (m : M S TokenState)
        → Keeps I m
        → Keeps I (or_else env store a cached usable m)
    unfolding or_else
    or_else-Keeps none usable m h = h
    or_else-Keeps (some t) true m h = Keeps-pure t
    or_else-Keeps (some t) false m h = h

  abbrev Inside : {A : Type 0} → M S A → Type 0
  Inside = Keeps (Held a.cache_key)

  abbrev inside :
      (e : Event)
      → is_plain e ≡ true
      → (es : List Event) → Held a.cache_key es
      → Held a.cache_key (e ∷ es)
  inside = plain-Held a.cache_key

  exchange-Inside :
      (operation path : String) (body : Fields) (previous : Option TokenState)
      → Inside (exchange env store a operation path body previous)
  unfolding exchange
  exchange-Inside operation path body previous =
      Keeps-bind _ _
        (execute-Keeps env a.engine (Held a.cache_key) inside
          (token_request env store a operation path body) (λ id es i. ground (arith, i)))
        λ raw. Keeps-bind _ _ (Keeps-lift _) λ parsed. Keeps-bind _ _ (Keeps-lift _) λ fields.
          Keeps-bind _ _ (Keeps-lift _)
            λ access. Keeps-bind _ _ (Keeps-ask _ _ (inside read_clock refl)) λ now. Keeps-lift _

  refresh-Inside :
      (refresh : TokenState) (value : Option String)
      → refresh_value refresh ≡ value
      → Inside (request_token env store a (some refresh))
  unfolding request_token
  refresh-Inside refresh none e = rw (e, request_token) (Keeps-raise _)
  refresh-Inside refresh (some token) e = rw (e, request_token) (exchange-Inside _ _ _ _)

  request_token-Inside : (refresh : Option TokenState) → Inside (request_token env store a refresh)
  unfolding request_token
  request_token-Inside none = Keeps-bind _ _ (Keeps-lift _) λ body. exchange-Inside _ _ _ _
  request_token-Inside (some refresh) = refresh-Inside refresh (refresh_value refresh) refl

  kept-Inside : (token : TokenState) → Inside (keep_refreshed env store a token)
  unfolding keep_refreshed
  kept-Inside token =
      Keeps-bind _ _ (store_set-Keeps _ inside token)
        λ _. Keeps-bind _ _ (Keeps-log env _ _ _ inside) λ _. Keeps-pure _

  acquire-Inside : Inside (acquire env store a)
  unfolding acquire
  acquire-Inside = Keeps-bind _ _ (request_token-Inside none) λ token.
      Keeps-bind _ _ (store_set-Keeps _ inside token)
        λ _. Keeps-bind _ _ (Keeps-log env _ _ _ inside) λ _. Keeps-pure _

  attempt_refresh-Inside : (cached : TokenState) → Inside (attempt_refresh env store a cached)
  unfolding attempt_refresh
  attempt_refresh-Inside cached =
      Keeps-catch _ _ (Keeps-bind _ _ (request_token-Inside _) λ _. Keeps-pure _) λ e.
        Keeps-if (is_refresh_rejection e) _ _
          (Keeps-bind _ _ (Keeps-log env _ _ _ inside) λ _. Keeps-pure _) (Keeps-raise _)

  refresh_then-Inside :
      (refreshed : Option TokenState) → Inside (refresh_then env store a refreshed)
  unfolding refresh_then
  refresh_then-Inside none = acquire-Inside
  refresh_then-Inside (some token) = kept-Inside token

  refresh_or_acquire-Inside :
      (cached : Option TokenState) (now : ℕ) → Inside (refresh_or_acquire env store a cached now)
  unfolding refresh_or_acquire
  refresh_or_acquire-Inside none now = acquire-Inside
  refresh_or_acquire-Inside (some cached) now =
      Keeps-if (is_refresh_valid cached now a.scope.leeway) _ _
        (Keeps-bind _ _ (attempt_refresh-Inside cached) refresh_then-Inside) acquire-Inside

  abbrev outside :
      (e : Event)
      → is_plain e ≡ true
      → (es : List Event) → Guarded a.cache_key es
      → Guarded a.cache_key (e ∷ es)
  outside = plain-Guarded a.cache_key

  pub get_token-Keeps : Keeps (Guarded a.cache_key) (get_token env store a)
  unfolding get_token locked_get
  get_token-Keeps = Keeps-bind _ _ (Keeps-ask _ _ (outside read_clock refl)) λ now.
      Keeps-bind _ _ (safe_get-Keeps _ outside) λ cached. or_else-Keeps _ outside cached _ _ (
        with_lock-Keeps env a.cache_key _ (
          Keeps-bind _ _ (Keeps-ask _ _ (inside read_clock refl)) λ later.
            Keeps-bind _ _ (safe_get-Keeps _ inside)
              λ again. or_else-Keeps _ inside again _ _ (refresh_or_acquire-Inside again later)))

  pub recover-Keeps :
      (rejected : String)
      → Keeps (Guarded a.cache_key) (recover_from_unauthorized env store a rejected)
  unfolding recover_from_unauthorized
  recover-Keeps rejected = with_lock-Keeps env a.cache_key _ (
      Keeps-bind _ _ (safe_get-Keeps _ inside) λ cached.
        Keeps-bind _ _ (Keeps-ask _ _ (inside read_clock refl))
          λ now. or_else-Keeps _ inside cached _ _ (refresh_or_acquire-Inside cached now))

  pub invalidate-Keeps : Keeps (Guarded a.cache_key) (invalidate env store a)
  unfolding invalidate
  invalidate-Keeps = store_delete-Keeps _ outside

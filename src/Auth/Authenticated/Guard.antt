-- ===== src/Auth/Authenticated/Guard.antt =====
-- auth/authenticated.py: when requests without a token are sent.
use jibit_ir_sdk.Prelude.{◌≡◌, ap, arith, String, true, Option, none, some, is_some, List, ◌∷◌}
use jibit_ir_sdk.Prelude.Dict.{Dict, lookup, set_default, lookup-set_default, lookup-insert_self}
use jibit_ir_sdk.Effects.{Environment, Event, World}
use jibit_ir_sdk.Effects.Keeps.{
  Keeps, is_plain, Keeps-pure, Keeps-raise, Keeps-if, Keeps-catch, Keeps-bind,
}
use jibit_ir_sdk.Response.{RawResponse}
use jibit_ir_sdk.Engine.{RequestEngine, RequestOptions, execute, transport_request, request_headers}
use jibit_ir_sdk.Engine.Options.{with_key}
use jibit_ir_sdk.Engine.Keeps.{execute-Keeps}
use jibit_ir_sdk.Auth.Tokens.{TokenState}
use jibit_ir_sdk.Auth.Store.{TokenStore}
use jibit_ir_sdk.Auth.Provider.{ServiceAuthenticator}
use jibit_ir_sdk.Auth.Provider.Locking.{is_authorized}
use jibit_ir_sdk.Auth.Provider.Guard.{
  is_guarded, Guarded, plain-Guarded, get_token-Keeps, recover-Keeps, invalidate-Keeps,
}
use jibit_ir_sdk.Auth.Authenticated.{
  can_replay, is_authentication, authorize, replay, first_try, answer_or_replay,
  authenticated_execute,
}

-- A header that is set stays set when defaults are added for others.
stays :
    (k : String) (v : String) (d : Dict String)
    → is_some (lookup "Authorization" d) ≡ true
    → is_some (lookup "Authorization" (set_default k v d)) ≡ true
stays k v d h = rw (lookup-set_default k "Authorization" v d) (ground arith)

keyed :
    (key : Option String) (d : Dict String)
    → is_some (lookup "Authorization" d) ≡ true
    → is_some (lookup "Authorization" (with_key key d)) ≡ true
keyed none d h = h
keyed (some key) d h = stays "Idempotency-Key" key d h

-- A request with a token carries it on the wire.
pub authorized :
    (engine : RequestEngine) (o : RequestOptions) (t : TokenState) (id : String)
    → is_authorized (transport_request engine (authorize o t) id) ≡ true
unfolding transport_request request_headers authorize
authorized engine o t id = keyed o.idempotency_key _ (
    stays "X-Correlation-ID" id _ (
      stays "Accept" "application/json" _
        (ap is_some (lookup-insert_self "Authorization" _ o.headers))))

module _ {S : Type 0} (env : Environment) (store : TokenStore S) (a : ServiceAuthenticator) where
  abbrev outside :
      (e : Event)
      → is_plain e ≡ true
      → (es : List Event) → Guarded a.cache_key es
      → Guarded a.cache_key (e ∷ es)
  outside = plain-Guarded a.cache_key

  sends-Keeps :
      (o : RequestOptions) (t : TokenState)
      → Keeps {S = S} (Guarded a.cache_key) (execute env a.engine (authorize o t))
  sends-Keeps o t =
      execute-Keeps env a.engine (Guarded a.cache_key) outside (authorize o t)
        λ id es i. let carried = authorized a.engine o t id in ground (arith, i, carried)

  replay-Keeps :
      (o : RequestOptions) (token : TokenState)
      → Keeps (Guarded a.cache_key) (replay env store a o token)
  unfolding replay
  replay-Keeps o token = Keeps-bind _ _ (recover-Keeps env store a _) λ replacement.
      Keeps-catch _ _ (sends-Keeps o replacement) λ e.
        Keeps-if (is_authentication e) _ _
          (Keeps-bind _ _ (invalidate-Keeps env store a) λ _. Keeps-raise _) (Keeps-raise _)

  first_try-Keeps :
      (o : RequestOptions) (token : TokenState)
      → Keeps (Guarded a.cache_key) (first_try env store a o token)
  unfolding first_try
  first_try-Keeps o token =
      Keeps-catch _ _ (Keeps-bind _ _ (sends-Keeps o token) λ raw. Keeps-pure _) λ e.
        Keeps-if (is_authentication e) _ _
          (Keeps-if (can_replay o) _ _ (Keeps-pure _)
            (Keeps-bind _ _ (invalidate-Keeps env store a) λ _. Keeps-raise _))
          (Keeps-raise _)

  answer-Keeps :
      (o : RequestOptions) (token : TokenState) (answer : Option RawResponse)
      → Keeps (Guarded a.cache_key) (answer_or_replay env store a o token answer)
  unfolding answer_or_replay
  answer-Keeps o token none = replay-Keeps o token
  answer-Keeps o token (some raw) = Keeps-pure raw

  -- In every history that an authenticated call leaves, the requests without a token, which are the
  -- requests for tokens, were sent while the lock of the authenticator's key was held, if that was so
  -- in the history that it found: whatever the store, the transport and the other workers do, and on
  -- every way out.
  pub authenticated_execute_guarded :
      (o : RequestOptions) (w : World S)
      → is_guarded a.cache_key w.trace ≡ true
      → is_guarded a.cache_key (authenticated_execute env store a o w).1.trace ≡ true
  unfolding authenticated_execute
  authenticated_execute_guarded o w i =
      (Keeps-bind _ _ (get_token-Keeps env store a)
          (λ token. Keeps-bind _ _ (first_try-Keeps o token) (answer-Keeps o token))).preserved
        w i

-- ===== src/Client/Caches.antt =====
-- client.py: what the client keeps between two calls never changes what it hands out.
use jibit_ir_sdk.Prelude.{
  ◌≡◌, refl, sym, ◌∙◌, ap, Bool, true, false, Option, none, some, List, [], ◌∷◌, if◌then◌else◌,
  ◌=ₛ◌, inl, inr, Bool-cases, eq_iff, suc,
}
use jibit_ir_sdk.Prelude.Dict.{Dict, lookup, insert, lookup-insert}
use jibit_ir_sdk.Types.Names.{value-injective}
use jibit_ir_sdk.Types.{
  ServiceName, value, payment_gateway, transfers, cobank, identicator, kyc, direct_debit, sms,
  contracts,
}
use jibit_ir_sdk.Config.{RetryConfig, JibitConfig}
use jibit_ir_sdk.Effects.{Environment, Outcome, ok, raised}
use jibit_ir_sdk.Engine.{RequestEngine}
use jibit_ir_sdk.Auth.Provider.{ServiceAuthenticator}
use jibit_ir_sdk.Auth.Authenticated.{static_bearer}
use jibit_ir_sdk.Client.{
  Access, authenticated, static_token, Facade, JibitClient, new_client, new_authenticator,
  access_to, facade_with, engine_or_new, authenticated_engine, access, facade_or_new, facade, close,
  Use, ask_engine, ask_facade, call_close, use_client, use_all, keep_engine, keep_facade,
}

-- The engine and the facade that a client without caches would build at each call.
abbrev pub fresh_access : Environment → JibitConfig → RequestEngine → ServiceName → Outcome Access
fresh_access env config engine kyc = access_to static_token (static_bearer config kyc)
fresh_access env config engine service =
    access_to authenticated (new_authenticator env config engine service)

abbrev pub fresh_facade : Environment → JibitConfig → RequestEngine → ServiceName → Outcome Facade
fresh_facade env config engine service =
    facade_with service (fresh_access env config engine service)

-- The client still has its configuration and its engine, and what it keeps for a service is what it
-- would build for that service.
pub record IsCoherent (env : Environment) (config : JibitConfig) (engine : RequestEngine)
    (c : JibitClient) : Type 0 where
  pub same_config : c.config ≡ config
  pub same_engine : c.engine ≡ engine
  pub engines :
      (s : ServiceName) (a : ServiceAuthenticator)
      → lookup (value s) c.authenticated_engines ≡ some a
      → new_authenticator env config engine s ≡ ok a
  pub built :
      (s : ServiceName) (f : Facade)
      → lookup (value s) c.facades ≡ some f
      → fresh_facade env config engine s ≡ ok f

-- What is looked up after an insertion is either the new value, at its own service, or an old one.
kept-insert :
    {V : Type 0} (make : ServiceName → Outcome V) (service : ServiceName) (v : V) (d : Dict V)
    → make service ≡ ok v
    → ((s : ServiceName) (w : V) → lookup (value s) d ≡ some w → make s ≡ ok w)
    → (s : ServiceName) (w : V) → lookup (value s) (insert (value service) v d) ≡ some w
    → make s ≡ ok w
kept-insert make service v d h old s w e = elim (Bool-cases (value service =ₛ value s)) [
  | inl same ↦
      let same_service = value-injective service s ((eq_iff (value service) (value s)).0 same) in
      let found = rw (lookup-insert, same) at e in cc
  | inr other ↦ old s w (sym (lookup-insert (value service) (value s) v d ∙ rw other refl) ∙ e)
]

module _ (env : Environment) (config : JibitConfig) (engine : RequestEngine) where
  new_client-IsCoherent :
      (retry_policy : Option RetryConfig) (transport_given : Bool)
      → (new_client config retry_policy transport_given).engine ≡ engine
      → IsCoherent env config engine (new_client config retry_policy transport_given)
  unfolding new_client lookup
  new_client-IsCoherent retry_policy transport_given h = record {
    same_config = refl;
    same_engine = h;
    engines = λ s a e. absurd cc;
    built = λ s f e. absurd cc;
  }

  -- What asking a coherent client yields: an outcome, and again a coherent client.
  Yields : {A : Type 0} → Outcome A → Outcome A × JibitClient → Type 0
  Yields r given = (given.0 ≡ r) × IsCoherent env config engine given.1

  keep_engine-Yields :
      (service : ServiceName) (c : JibitClient) (r : Outcome ServiceAuthenticator)
      → IsCoherent env config engine c
      → r ≡ new_authenticator env config engine service
      → Yields (new_authenticator env config engine service) (keep_engine service c r)
  unfolding Yields
  keep_engine-Yields service c (raised e) i h = (h, i)
  keep_engine-Yields service c (ok a) i h = (
    h,
    record {
      same_config = i.same_config;
      same_engine = i.same_engine;
      engines =
          kept-insert (new_authenticator env config engine) service a c.authenticated_engines
            (sym h) i.engines;
      built = i.built;
    },
  )

  keep_facade-Yields :
      (service : ServiceName) (c : JibitClient) (r : Outcome Facade)
      → IsCoherent env config engine c
      → r ≡ fresh_facade env config engine service
      → Yields (fresh_facade env config engine service) (keep_facade service c r)
  unfolding Yields
  keep_facade-Yields service c (raised e) i h = (h, i)
  keep_facade-Yields service c (ok f) i h = (
    h,
    record {
      same_config = i.same_config;
      same_engine = i.same_engine;
      engines = i.engines;
      built = kept-insert (fresh_facade env config engine) service f c.facades (sym h) i.built;
    },
  )

  authenticated_engine-Yields :
      (service : ServiceName) (c : JibitClient) (kept : Option ServiceAuthenticator)
      → IsCoherent env config engine c
      → lookup (value service) c.authenticated_engines ≡ kept
      → Yields (new_authenticator env config engine service) (engine_or_new env service c kept)
  unfolding Yields engine_or_new
  authenticated_engine-Yields service c (some a) i h = (sym (i.engines service a h), i)
  authenticated_engine-Yields service c none i h = keep_engine-Yields service c _ i (
      ap (λ k. new_authenticator env k c.engine service) i.same_config
      ∙ ap (λ g. new_authenticator env config g service) i.same_engine)

  -- With its engine, which is kept as well.
  engine_access-Yields :
      (service : ServiceName) (c : JibitClient)
      → IsCoherent env config engine c
      → Yields (access_to authenticated (new_authenticator env config engine service)) (
        access_to authenticated (authenticated_engine env service c).0,
        (authenticated_engine env service c).1,
      )
  unfolding Yields authenticated_engine
  engine_access-Yields service c i =
      let (given, i') = authenticated_engine-Yields service c _ i refl in
      (ap (access_to authenticated) given, i')

  access-Yields :
      (service : ServiceName) (c : JibitClient)
      → IsCoherent env config engine c
      → Yields (fresh_access env config engine service) (access env service c)
  unfolding Yields access
  access-Yields payment_gateway c i = engine_access-Yields payment_gateway c i
  access-Yields transfers c i = engine_access-Yields transfers c i
  access-Yields cobank c i = engine_access-Yields cobank c i
  access-Yields identicator c i = engine_access-Yields identicator c i
  access-Yields kyc c i = (ap (λ k. access_to static_token (static_bearer k kyc)) i.same_config, i)
  access-Yields direct_debit c i = engine_access-Yields direct_debit c i
  access-Yields sms c i = engine_access-Yields sms c i
  access-Yields contracts c i = engine_access-Yields contracts c i

  facade_or_new-Yields :
      (service : ServiceName) (c : JibitClient) (kept : Option Facade)
      → IsCoherent env config engine c
      → lookup (value service) c.facades ≡ kept
      → Yields (fresh_facade env config engine service) (facade_or_new env service c kept)
  unfolding Yields facade_or_new
  facade_or_new-Yields service c (some f) i h = (sym (i.built service f h), i)
  facade_or_new-Yields service c none i h =
      let (given, i') = access-Yields service c i in
      keep_facade-Yields service (access env service c).1 _ i' (ap (facade_with service) given)

  facade-Yields :
      (service : ServiceName) (c : JibitClient)
      → IsCoherent env config engine c
      → Yields (fresh_facade env config engine service) (facade env service c)
  unfolding facade
  facade-Yields service c i =
      facade_or_new-Yields service c (lookup (value service) c.facades) i refl

  close-IsCoherent :
      (c : JibitClient) → IsCoherent env config engine c → IsCoherent env config engine (close c)
  unfolding close
  close-IsCoherent c i =
      elim c.closed
        as (λ b. IsCoherent env config engine (
          if b then c else record c {
            closed = true;
            transport_closes =
                if c.owns_transport then suc c.transport_closes else c.transport_closes;
          })) [
            | true ↦ i
            | false ↦ record {
              same_config = i.same_config;
              same_engine = i.same_engine;
              engines = i.engines;
              built = i.built;
            }
          ]

  use_client-IsCoherent :
      (u : Use) (c : JibitClient)
      → IsCoherent env config engine c
      → IsCoherent env config engine (use_client env u c)
  unfolding use_client authenticated_engine Yields
  use_client-IsCoherent (ask_engine service) c i =
      (authenticated_engine-Yields service c _ i refl).1
  use_client-IsCoherent (ask_facade service) c i = (facade-Yields service c i).1
  use_client-IsCoherent call_close c i = close-IsCoherent c i

  -- Whatever the application does with a client, what the client keeps stays coherent.
  pub use_all-IsCoherent :
      (us : List Use) (c : JibitClient)
      → IsCoherent env config engine c
      → IsCoherent env config engine (use_all env us c)
  unfolding use_all
  use_all-IsCoherent [] c i = i
  use_all-IsCoherent (u ∷ us) c i =
      use_all-IsCoherent us (use_client env u c) (use_client-IsCoherent u c i)

-- After any use of a new client, the facade that it hands out for a service is the one that it would
-- build afresh from its configuration: keeping engines and facades changes no answer.
pub facade-after_use :
    (env : Environment) (config : JibitConfig) (retry_policy : Option RetryConfig)
    (transport_given : Bool) (us : List Use) (service : ServiceName)
    → (facade env service (use_all env us (new_client config retry_policy transport_given))).0
      ≡ fresh_facade env config (new_client config retry_policy transport_given).engine service
unfolding Yields
facade-after_use env config retry_policy transport_given us service =
    let c = new_client config retry_policy transport_given in
    (facade-Yields env config c.engine service _ (
      use_all-IsCoherent env config c.engine us c
        (new_client-IsCoherent env config c.engine retry_policy transport_given refl))).0

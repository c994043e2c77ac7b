-- ===== src/Client.antt =====
-- client.py: `JibitClient`, which builds an engine and a facade for a service when they are first asked
-- for. `_token_store`, `_lock_provider`, `_logger` and `audit_sink` are never changed: they are the
-- environment and the store that the engines take.
pub mod Caches
pub mod Lifecycle
pub mod Safety
use jibit_ir_sdk.Prelude.{
  ℕ, suc, String, Bool, true, false, not, Option, none, some, List, [], ◌∷◌, if◌then◌else◌,
}
use jibit_ir_sdk.Prelude.Dict.{Dict, lookup, insert}
use jibit_ir_sdk.Types.{
  ServiceName, value, payment_gateway, transfers, cobank, identicator, kyc, direct_debit, sms,
  contracts,
}
use jibit_ir_sdk.Config.{RetryConfig, ServiceConfig, JibitConfig, configuration_error}
use jibit_ir_sdk.Effects.{Environment, Outcome, ok, raised, M}
use jibit_ir_sdk.Response.{RawResponse}
use jibit_ir_sdk.Engine.{RequestEngine, RequestOptions}
use jibit_ir_sdk.Auth.Store.{TokenStore}
use jibit_ir_sdk.Auth.Specs.{AuthSpec, auth_spec}
use jibit_ir_sdk.Auth.Provider.{ServiceAuthenticator}
use jibit_ir_sdk.Auth.Provider.Parsing.{build_cache_key}
use jibit_ir_sdk.Auth.Authenticated.{
  service_config, static_bearer, authenticated_execute, static_execute,
}
use jibit_ir_sdk.Services.Base.{audited_execute}

-- How the executor of a facade authenticates.
pub data Access : Type 0 where
  authenticated : ServiceAuthenticator → Access
  static_token : String → Access

-- What a facade is built with: its engine, and the name under which `AuditedRequestExecutor` audits
-- its calls; the payment gateway audits by itself.
pub record Facade : Type 0 where
  pub access : Access
  pub event_name : Option String

-- `authenticated_engines` and `facades` stand for `_authenticated_engines` and for the attributes
-- `_payment_gateway` to `_kyc`, by the value of the service. `transport_closes` counts the calls of
-- `self._transport.close()`.
pub record JibitClient : Type 0 where
  pub config : JibitConfig
  pub engine : RequestEngine
  pub owns_transport : Bool
  pub authenticated_engines : Dict ServiceAuthenticator
  pub facades : Dict Facade
  pub closed : Bool
  pub transport_closes : ℕ

abbrev policy_or : Option RetryConfig → RetryConfig → RetryConfig
policy_or none r = r
policy_or (some given) r = given

-- `JibitClient.__init__`; `transport_given` is `transport is not None`.
unfoldable pub new_client : JibitConfig → Option RetryConfig → Bool → JibitClient
new_client config retry_policy transport_given = record {
  config = config;
  engine = record { config = config; retry_policy = policy_or retry_policy config.retry };
  owns_transport = not transport_given;
  authenticated_engines = [];
  facades = [];
  closed = false;
  transport_closes = 0;
}

abbrev keyed_authenticator :
    JibitConfig
    → RequestEngine
    → ServiceName
    → AuthSpec
    → ServiceConfig
    → Outcome String
    → Outcome ServiceAuthenticator
keyed_authenticator config engine service spec c (raised e) = raised e
keyed_authenticator config engine service spec c (ok key) = ok (record {
  scope = record {
    service = service;
    spec = spec;
    config = c;
    leeway = config.auth.expiry_leeway_seconds;
    unknown_ttl = config.auth.unknown_access_token_ttl_seconds;
  };
  engine = engine;
  cache_key = key;
})

abbrev configured_authenticator :
    Environment
    → JibitConfig
    → RequestEngine
    → ServiceName
    → AuthSpec
    → Outcome ServiceConfig
    → Outcome ServiceAuthenticator
configured_authenticator env config engine service spec (raised e) = raised e
configured_authenticator env config engine service spec (ok c) =
    keyed_authenticator config engine service spec c (build_cache_key env config service c)

abbrev specified_authenticator :
    Environment
    → JibitConfig
    → RequestEngine
    → ServiceName
    → Option AuthSpec
    → Outcome ServiceAuthenticator
specified_authenticator env config engine service none = raised configuration_error
specified_authenticator env config engine service (some spec) =
    configured_authenticator env config engine service spec (service_config config service)

-- `ServiceAuthenticator.__init__`
unfoldable pub new_authenticator :
    Environment → JibitConfig → RequestEngine → ServiceName → Outcome ServiceAuthenticator
new_authenticator env config engine service =
    specified_authenticator env config engine service (auth_spec service)

-- The audit event of each service's executor.
unfoldable pub event_name : ServiceName → Option String
event_name payment_gateway = none
event_name transfers = some "jibit.transfer.operation"
event_name cobank = some "jibit.cobank.operation"
event_name direct_debit = some "jibit.direct_debit.operation"
event_name sms = some "jibit.sms.operation"
event_name contracts = some "jibit.contract.operation"
event_name identicator = some "jibit.identicator.operation"
event_name kyc = some "jibit.kyc.operation"

abbrev keep_engine :
    ServiceName
    → JibitClient
    → Outcome ServiceAuthenticator
    → Outcome ServiceAuthenticator × JibitClient
keep_engine service c (raised e) = (raised e, c)
keep_engine service c (ok a) =
    (ok a, record c { authenticated_engines = insert (value service) a c.authenticated_engines })

abbrev pub access_to : {A : Type 0} → (A → Access) → Outcome A → Outcome Access
access_to f (raised e) = raised e
access_to f (ok a) = ok (f a)

abbrev pub facade_with : ServiceName → Outcome Access → Outcome Facade
facade_with service (raised e) = raised e
facade_with service (ok access) = ok (record { access = access; event_name = event_name service })

abbrev keep_facade : ServiceName → JibitClient → Outcome Facade → Outcome Facade × JibitClient
keep_facade service c (raised e) = (raised e, c)
keep_facade service c (ok f) = (ok f, record c { facades = insert (value service) f c.facades })

module _ (env : Environment) where
  engine_or_new :
      ServiceName
      → JibitClient
      → Option ServiceAuthenticator
      → Outcome ServiceAuthenticator × JibitClient
  engine_or_new service c (some a) = (ok a, c)
  engine_or_new service c none =
      keep_engine service c (new_authenticator env c.config c.engine service)

  -- `authenticated_engine`
  unfoldable pub authenticated_engine :
      ServiceName → JibitClient → Outcome ServiceAuthenticator × JibitClient
  unfolding engine_or_new
  authenticated_engine service c =
      engine_or_new service c (lookup (value service) c.authenticated_engines)

  -- The engine that a property hands to its facade: the static one for the KYC service.
  access : ServiceName → JibitClient → Outcome Access × JibitClient
  unfolding authenticated_engine
  access kyc c = (access_to static_token (static_bearer c.config kyc), c)
  access service c = let (r, c') = authenticated_engine service c in (access_to authenticated r, c')

  facade_or_new : ServiceName → JibitClient → Option Facade → Outcome Facade × JibitClient
  unfolding access
  facade_or_new service c (some f) = (ok f, c)
  facade_or_new service c none =
      let (r, c') = access service c in keep_facade service c' (facade_with service r)

  -- The properties `payment_gateway`, `transfers`, …, `kyc`.
  unfoldable pub facade : ServiceName → JibitClient → Outcome Facade × JibitClient
  unfolding facade_or_new
  facade service c = facade_or_new service c (lookup (value service) c.facades)

-- `close`
unfoldable pub close : JibitClient → JibitClient
close c = if c.closed then c else record c {
  closed = true;
  transport_closes = if c.owns_transport then suc c.transport_closes else c.transport_closes;
}

module _ {S : Type 0} (env : Environment) (store : TokenStore S) where
  access_execute : RequestEngine → Access → RequestOptions → M S RawResponse
  access_execute engine (authenticated a) o = authenticated_execute env store a o
  access_execute engine (static_token token) o = static_execute env engine token o

  audited_as : Option String → (RequestOptions → M S RawResponse) → RequestOptions → M S RawResponse
  audited_as none executor o = executor o
  audited_as (some name) executor o = audited_execute env name executor o

  -- The executor of a facade of the client.
  unfoldable pub facade_execute : JibitClient → Facade → RequestOptions → M S RawResponse
  unfolding access_execute audited_as
  facade_execute c f = audited_as f.event_name (access_execute c.engine f.access)

-- What an application does with a client.
pub data Use : Type 0 where
  ask_engine ask_facade : ServiceName → Use
  call_close : Use

unfoldable pub use_client : Environment → Use → JibitClient → JibitClient
use_client env (ask_engine service) c = (authenticated_engine env service c).1
use_client env (ask_facade service) c = (facade env service c).1
use_client env call_close c = close c

-- One use after the other, the first one first.
unfoldable pub use_all : Environment → List Use → JibitClient → JibitClient
unfolding use_client
use_all env [] c = c
use_all env (u ∷ us) c = use_all env us (use_client env u c)

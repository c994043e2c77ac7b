-- ===== src/Tests/Fixtures.antt =====
-- A concrete environment, engine and requests for the tests.
use jibit_ir_sdk.Prelude.{String, true, false, none, some, List, [], ◌∷◌}
use jibit_ir_sdk.Types.{payment_gateway, read_only, unsafe}
use jibit_ir_sdk.Json.{Json, str, null}
use jibit_ir_sdk.Config.{RetryConfig, ServiceConfig, JibitConfig}
use jibit_ir_sdk.Transport.{TransportRequest, Reply, responded}
use jibit_ir_sdk.Effects.{Environment, Event, World}
use jibit_ir_sdk.Engine.{RequestEngine, RequestOptions}
use jibit_ir_sdk.Auth.Tokens.{TokenState}
use jibit_ir_sdk.Auth.Store.{TokenStore, memory_store}
use jibit_ir_sdk.Auth.Specs.{AuthSpec}
use jibit_ir_sdk.Auth.Provider.{ServiceAuthenticator}
use jibit_ir_sdk.Prelude.Dict.{Dict}
use jibit_ir_sdk.Tests.Redaction.{ascii}

abbrev pub always_down : List Event → TransportRequest → Reply
always_down history request = responded (record { status_code = 503; headers = []; content = [] })

abbrev text_of_value : Json → String
text_of_value (str s) = s
text_of_value v = ""

abbrev pub env : Environment
env = record {
  unicode = ascii;
  new_id = λ history. "id-1";
  monotonic = λ history. 0;
  clock = λ history. 1000;
  random = λ history. 500000;
  send = always_down;
  logging_enabled = true;
  sink_error = λ history event. none;
  lock_error = λ history. none;
  loads = λ content. none;
  py_str = text_of_value;
  b64decode = λ s. none;
  float_of_text = λ s. none;
  urlsplit_error = λ path. false;
  iso_instant = λ t. "";
  sha256_hex = λ s. s;
}

abbrev pub retry_config : RetryConfig
retry_config = record {
  max_attempts = 3;
  base_delay = 250000;
  max_delay = 2000000;
  jitter_ratio = 200000;
}

abbrev pub service : ServiceConfig
service = record {
  credentials = record {
    api_key = some "key";
    secret_key = some "secret";
    username = none;
    password = none;
    access_token = none;
  };
  base_url = none;
  enabled = true;
  scopes = [];
}

abbrev pub config : JibitConfig
config = record {
  base_url = "https://napi.jibit.ir";
  timeout = record { connect = 5; read = 30; write = 30; pool = 5 };
  retry = retry_config;
  auth = record {
    expiry_leeway_seconds = 30;
    unknown_access_token_ttl_seconds = none;
    cache_key_prefix = "jibit:token";
  };
  services = λ name. some service;
}

abbrev pub engine : RequestEngine
engine = record { config = config; retry_policy = retry_config }

abbrev pub lookup_request : RequestOptions
lookup_request = record {
  service = payment_gateway;
  operation = "get_balances";
  method = "GET";
  path = "/ppg/v3/balances";
  safety = read_only;
  headers = [];
  params = null;
  json = null;
  content = none;
  multipart = none;
  idempotency_key = none;
  correlation_id = none;
}

abbrev pub payment_request : RequestOptions
payment_request = record lookup_request {
  operation = "create_purchase";
  method = "POST";
  path = "/ppg/v3/purchases";
  safety = unsafe;
}

abbrev pub foreign_request : RequestOptions
foreign_request = record lookup_request { path = "//elsewhere.example/" }

abbrev pub no_store : World (Unit {0})
no_store = record { trace = []; store = tt }

abbrev pub nobody : List Event → Dict TokenState → Dict TokenState
nobody history d = d

abbrev pub store : TokenStore (Dict TokenState)
store = memory_store nobody

abbrev pub token : TokenState
token = record {
  access_token = "abc";
  refresh_token = none;
  expires_at = none;
  refresh_expires_at = none;
  token_type = "Bearer";
  scopes = [];
}

abbrev pub spec : AuthSpec
spec = record {
  service = payment_gateway;
  generate_path = "/ppg/v3/tokens";
  refresh_path = "/ppg/v3/tokens/refresh";
  api_key_field = "apiKey";
  secret_key_field = "secretKey";
  access_response_field = "accessToken";
  refresh_response_field = "refreshToken";
  refresh_token_field = "refreshToken";
  refresh_access_token_field = none;
  scopes_field = none;
  expires_in_field = none;
  refresh_expires_in_field = none;
  documented_access_ttl_seconds = some 86400;
  documented_refresh_ttl_seconds = some 172800;
}

abbrev pub authenticator : ServiceAuthenticator
authenticator = record {
  scope = record {
    service = payment_gateway;
    spec = spec;
    config = service;
    leeway = 30;
    unknown_ttl = none;
  };
  engine = engine;
  cache_key = "jibit:token:1";
}

abbrev pub with_token : World (Dict TokenState)
with_token = record { trace = []; store = ("jibit:token:1", token) ∷ [] }

abbrev pub without_token : World (Dict TokenState)
without_token = record { trace = []; store = [] }

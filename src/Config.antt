-- ===== src/Config.antt =====
-- config.py: the validated configuration. Durations are whole microseconds and ratios whole
-- millionths; a text that pydantic keeps secret is a plain text here.
pub mod Credentials
pub mod Mapping
use jibit_ir_sdk.Prelude.{
  ℕ, ◌+◌, String, Bool, true, false, not, ◌&&◌, ◌||◌, Option, List, leb, ltb, is_some,
  if◌then◌else◌,
}
use jibit_ir_sdk.Types.{ServiceName}
use jibit_ir_sdk.Exceptions.{configuration, empty_context, Raised, jibit}

-- One second, and the whole of a ratio.
abbrev pub million : ℕ
million = 1000000

pub record TimeoutConfig : Type 0 where
  pub connect : ℕ
  pub read : ℕ
  pub write : ℕ
  pub pool : ℕ

unfoldable pub timeout_ok : TimeoutConfig → Bool
timeout_ok t = ltb 0 t.connect && ltb 0 t.read && ltb 0 t.write && ltb 0 t.pool

pub record RetryConfig : Type 0 where
  pub max_attempts : ℕ
  pub base_delay : ℕ
  pub max_delay : ℕ
  pub jitter_ratio : ℕ

-- The field bounds and `validate_delay_bounds`.
unfoldable pub retry_ok : RetryConfig → Bool
retry_ok r =
    leb 1 r.max_attempts
    && leb r.max_attempts 10
    && leb r.jitter_ratio million
    && not (ltb r.max_delay r.base_delay)

pub record AuthConfig : Type 0 where
  pub expiry_leeway_seconds : ℕ
  pub unknown_access_token_ttl_seconds : Option ℕ
  pub cache_key_prefix : String

pub record ServiceCredentials : Type 0 where
  pub api_key : Option String
  pub secret_key : Option String
  pub username : Option String
  pub password : Option String
  pub access_token : Option String

abbrev one : Bool → ℕ
one true = 1
one false = 0

-- `require_a_complete_credential_pair`; false stands for its ValueError.
unfoldable pub credentials_ok : ServiceCredentials → Bool
credentials_ok c =
    let api_pair = is_some c.api_key || is_some c.secret_key in
    let user_pair = is_some c.username || is_some c.password in
    let token = is_some c.access_token in
    if api_pair && (not (is_some c.api_key) || not (is_some c.secret_key))
    then false
    else if user_pair && (not (is_some c.username) || not (is_some c.password))
    then false
    else if ltb 1 (one api_pair + one user_pair + one token)
    then false
    else if not api_pair && not user_pair && not token
    then false
    else true

pub record ServiceConfig : Type 0 where
  pub credentials : ServiceCredentials
  pub base_url : Option String
  pub enabled : Bool
  pub scopes : List String

pub record JibitConfig : Type 0 where
  pub base_url : String
  pub timeout : TimeoutConfig
  pub retry : RetryConfig
  pub auth : AuthConfig
  pub services : ServiceName → Option ServiceConfig

abbrev pub configuration_error : Raised
configuration_error = jibit (record { type = configuration; context = empty_context })

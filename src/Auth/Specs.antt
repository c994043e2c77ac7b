-- ===== src/Auth/Specs.antt =====
-- auth/specs.py: the token contract of each service.
use jibit_ir_sdk.Prelude.{ℕ, String, Option, none, some}
use jibit_ir_sdk.Types.{
  ServiceName, payment_gateway, transfers, cobank, identicator, kyc, direct_debit, sms, contracts,
}

pub record AuthSpec : Type 0 where
  pub service : ServiceName
  pub generate_path : String
  pub refresh_path : String
  pub api_key_field : String
  pub secret_key_field : String
  pub access_response_field : String
  pub refresh_response_field : String
  pub refresh_token_field : String
  pub refresh_access_token_field : Option String
  pub scopes_field : Option String
  pub expires_in_field : Option String
  pub refresh_expires_in_field : Option String
  pub documented_access_ttl_seconds : Option ℕ
  pub documented_refresh_ttl_seconds : Option ℕ

-- `AUTH_SPECS`; the KYC service has no entry.
unfoldable pub auth_spec : ServiceName → Option AuthSpec
auth_spec payment_gateway = some (record {
  service = payment_gateway;
  generate_path = "/ppg/v3/tokens";
  refresh_path = "/ppg/v3/tokens/refresh";
  api_key_field = "apiKey";
  secret_key_field = "secretKey";
  access_response_field = "accessToken";
  refresh_response_field = "refreshToken";
  refresh_token_field = "refreshToken";
  refresh_access_token_field = none;
  scopes_field = none;
  expires_in_field = none;
  refresh_expires_in_field = none;
  documented_access_ttl_seconds = some 86400;
  documented_refresh_ttl_seconds = some 172800;
})
auth_spec transfers = some (record {
  service = transfers;
  generate_path = "/trf/v2/tokens/generate";
  refresh_path = "/trf/v2/tokens/refresh";
  api_key_field = "apiKey";
  secret_key_field = "secretKey";
  access_response_field = "accessToken";
  refresh_response_field = "refreshToken";
  refresh_token_field = "refreshToken";
  refresh_access_token_field = some "accessToken";
  scopes_field = none;
  expires_in_field = none;
  refresh_expires_in_field = none;
  documented_access_ttl_seconds = some 86400;
  documented_refresh_ttl_seconds = some 172800;
})
auth_spec cobank = some (record {
  service = cobank;
  generate_path = "/cobank/v1/tokens/generate";
  refresh_path = "/cobank/v1/tokens/refresh";
  api_key_field = "apiKey";
  secret_key_field = "secretKey";
  access_response_field = "accessToken";
  refresh_response_field = "refreshToken";
  refresh_token_field = "refreshToken";
  refresh_access_token_field = some "accessToken";
  scopes_field = some "scopes";
  expires_in_field = none;
  refresh_expires_in_field = none;
  documented_access_ttl_seconds = none;
  documented_refresh_ttl_seconds = none;
})
auth_spec identicator = some (record {
  service = identicator;
  generate_path = "/ide/v1/tokens/generate";
  refresh_path = "/ide/v1/tokens/refresh";
  api_key_field = "apiKey";
  secret_key_field = "secretKey";
  access_response_field = "accessToken";
  refresh_response_field = "refreshToken";
  refresh_token_field = "refreshToken";
  refresh_access_token_field = some "accessToken";
  scopes_field = none;
  expires_in_field = none;
  refresh_expires_in_field = none;
  documented_access_ttl_seconds = some 86400;
  documented_refresh_ttl_seconds = some 172800;
})
auth_spec direct_debit = some (record {
  service = direct_debit;
  generate_path = "/directdebit/api/v1/auth/authenticate";
  refresh_path = "/directdebit/api/v1/auth/refresh-token";
  api_key_field = "api_key";
  secret_key_field = "secret_key";
  access_response_field = "access_token";
  refresh_response_field = "refresh_token";
  refresh_token_field = "refresh_token";
  refresh_access_token_field = some "access_token";
  scopes_field = none;
  expires_in_field = none;
  refresh_expires_in_field = none;
  documented_access_ttl_seconds = none;
  documented_refresh_ttl_seconds = none;
})
auth_spec sms = some (record {
  service = sms;
  generate_path = "/pulse/api/v1/auth/authenticate";
  refresh_path = "/pulse/api/v1/auth/refresh-token";
  api_key_field = "api_key";
  secret_key_field = "secret_key";
  access_response_field = "access_token";
  refresh_response_field = "refresh_token";
  refresh_token_field = "refresh_token";
  refresh_access_token_field = some "access_token";
  scopes_field = none;
  expires_in_field = none;
  refresh_expires_in_field = none;
  documented_access_ttl_seconds = none;
  documented_refresh_ttl_seconds = none;
})
auth_spec contracts = some (record {
  service = contracts;
  generate_path = "/mzahub/v1/auth/login";
  refresh_path = "/mzahub/v1/auth/refresh";
  api_key_field = "apiKey";
  secret_key_field = "secretKey";
  access_response_field = "accessToken";
  refresh_response_field = "refreshToken";
  refresh_token_field = "refreshToken";
  refresh_access_token_field = none;
  scopes_field = none;
  expires_in_field = some "expiresIn";
  refresh_expires_in_field = some "refreshTokenExpiresIn";
  documented_access_ttl_seconds = none;
  documented_refresh_ttl_seconds = none;
})
auth_spec kyc = none

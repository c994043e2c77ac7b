-- ===== src/Tests/Settings.antt =====
-- Settings with a service at the top level.
use jibit_ir_sdk.Prelude.{◌≡◌, refl}
use jibit_ir_sdk.Json.{Json, str, obj, Fields, end, field}
use jibit_ir_sdk.Types.{value}
use jibit_ir_sdk.Effects.{ok}
use jibit_ir_sdk.Config.Mapping.{
  find, remove, put, gather, split_credentials, nested, nest_all, from_mapping,
}

abbrev short : Fields
short = field "base_url" (str "https://napi.jibit.ir") (
    field "kyc" (obj (field "access_token" (str "T") end))
      (field "sms" (obj (field "api_key" (str "K") (field "secret_key" (str "S") end))) end))

abbrev long : Json
long = obj (
    field "base_url" (str "https://napi.jibit.ir") (
      field "services"
        (obj (
          field "kyc" (obj (field "credentials" (obj (field "access_token" (str "T") end)) end)) (
            field "sms"
              (obj (
                field "credentials"
                  (obj (field "api_key" (str "K") (field "secret_key" (str "S") end))) end))
              end)))
        end))

from_mapping_test : from_mapping short ≡ ok long
unfolding from_mapping find remove put gather split_credentials nested nest_all value
from_mapping_test = refl

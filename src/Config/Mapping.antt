-- ===== src/Config/Mapping.antt =====
-- config.py: `JibitConfig.from_mapping`, up to the validation. A member of `ServiceName` is equal to its
-- value, so that a mapping has texts as keys.
use jibit_ir_sdk.Prelude.{
  String, ◌=ₛ◌, Bool, true, false, Option, none, some, List, [], ◌∷◌, if◌then◌else◌,
}
use jibit_ir_sdk.Types.{
  ServiceName, value, payment_gateway, transfers, cobank, identicator, kyc, direct_debit, sms,
  contracts,
}
use jibit_ir_sdk.Json.{Json, obj, Fields, end, field}
use jibit_ir_sdk.Exceptions.{type_error}
use jibit_ir_sdk.Effects.{Outcome, ok, raised}

-- key in mapping, mapping[key], mapping.pop(key) and mapping[key] = v
unfoldable pub find : String → Fields → Option Json
find k end = none
find k (field j v fs) = if j =ₛ k then some v else find k fs

unfoldable pub remove : String → Fields → Fields
remove k end = end
remove k (field j v fs) = let rest = remove k fs in if j =ₛ k then rest else field j v rest

unfoldable pub put : String → Json → Fields → Fields
put k v end = field k v end
put k v (field j w fs) = let rest = put k v fs in if j =ₛ k then field j v fs else field j w rest

-- dict(value) of a mapping; the sequences of pairs that it takes too are left out.
abbrev as_dict : Option Json → Outcome Fields
as_dict none = ok end
as_dict (some (obj fs)) = ok fs
as_dict (some _) = raised type_error

-- The members of `ServiceName`, in their order.
abbrev service_names : List ServiceName
service_names =
    payment_gateway ∷ transfers ∷ cobank ∷ identicator ∷ kyc ∷ direct_debit ∷ sms ∷ contracts ∷ []

abbrev credential_keys : List String
credential_keys = "api_key" ∷ "secret_key" ∷ "username" ∷ "password" ∷ "access_token" ∷ []

abbrev moved : String → Option Json → Fields → Fields
moved k none target = target
moved k (some v) target = put k v target

-- The first loop: the services at the top level, taken out of `raw`.
unfoldable pub gather : List ServiceName → Fields → Fields → Fields × Fields
unfolding find remove put
gather [] raw services = (raw, services)
gather (s ∷ names) raw services =
    gather names (remove (value s) raw) (moved (value s) (find (value s) raw) services)

-- The credentials that stand in a service itself, and what is left of it.
unfoldable pub split_credentials : List String → Fields → Fields → Fields × Fields
unfolding find remove put
split_credentials [] raw credentials = (raw, credentials)
split_credentials (k ∷ keys) raw credentials =
    split_credentials keys (remove k raw) (moved k (find k raw) credentials)

abbrev with_credentials : Fields × Fields → Json
with_credentials (raw, end) = obj raw
with_credentials (raw, field k v fs) = obj (put "credentials" (obj (field k v fs)) raw)

abbrev has_credentials : Option Json → Bool
has_credentials none = false
has_credentials (some v) = true

-- One pass of the second loop.
unfoldable pub nested : Json → Json
unfolding split_credentials
nested (obj raw) =
    if has_credentials (find "credentials" raw)
    then obj raw
    else with_credentials (split_credentials credential_keys raw end)
nested v = v

unfoldable pub nest_all : Fields → Fields
unfolding nested
nest_all end = end
nest_all (field k v fs) = field k (nested v) (nest_all fs)

abbrev gathered : Fields → Outcome Fields → Outcome Json
gathered raw (raised e) = raised e
gathered raw (ok services) =
    let (rest, all) = gather service_names raw services in
    ok (obj (put "services" (obj (nest_all all)) rest))

-- What `from_mapping` hands to the validation.
unfoldable pub from_mapping : Fields → Outcome Json
unfolding gather nest_all
from_mapping value = gathered (remove "services" value) (as_dict (find "services" value))

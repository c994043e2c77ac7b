-- ===== src/Types/Names.antt =====
-- types.py: the values of the services tell them apart.
use jibit_ir_sdk.Prelude.{◌≡◌, refl, ap, String, ◌=ₛ◌, Option, none, some, if◌then◌else◌}
use jibit_ir_sdk.Types.{
  ServiceName, value, payment_gateway, transfers, cobank, identicator, kyc, direct_debit, sms,
  contracts,
}

-- ServiceName(text)
abbrev service_of : String → Option ServiceName
service_of s =
    if s =ₛ "payment_gateway"
    then some payment_gateway
    else if s =ₛ "transfers"
    then some transfers
    else if s =ₛ "cobank"
    then some cobank
    else if s =ₛ "identicator"
    then some identicator
    else if s =ₛ "kyc"
    then some kyc
    else if s =ₛ "direct_debit"
    then some direct_debit
    else if s =ₛ "sms"
    then some sms
    else if s =ₛ "contracts"
    then some contracts
    else none

service_of-value : (s : ServiceName) → service_of (value s) ≡ some s
unfolding value
service_of-value payment_gateway = refl
service_of-value transfers = refl
service_of-value cobank = refl
service_of-value identicator = refl
service_of-value kyc = refl
service_of-value direct_debit = refl
service_of-value sms = refl
service_of-value contracts = refl

pub value-injective : (s t : ServiceName) → value s ≡ value t → s ≡ t
value-injective s t h =
    let a = service_of-value s in let b = service_of-value t in let e = ap service_of h in cc

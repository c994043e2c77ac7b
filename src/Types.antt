-- ===== src/Types.antt =====
-- types.py, and `OperationSafety` of retry.py: the enumerations that the SDK shares.
pub mod Names
use jibit_ir_sdk.Prelude.{ℕ, String, Option, List, Bool, true, false}

pub data ServiceName : Type 0 where
  payment_gateway transfers cobank identicator kyc direct_debit sms contracts : ServiceName

-- service.value
unfoldable pub value : ServiceName → String
value payment_gateway = "payment_gateway"
value transfers = "transfers"
value cobank = "cobank"
value identicator = "identicator"
value kyc = "kyc"
value direct_debit = "direct_debit"
value sms = "sms"
value contracts = "contracts"

pub ServiceName-discrete : Discrete ServiceName
ServiceName-discrete = hlevel

pub data ContentPartType : Type 0 where
  form_field file : ContentPartType

pub record MultipartPart : Type 0 where
  pub name : String
  pub kind : ContentPartType
  pub value : List ℕ
  pub filename : Option String
  pub content_type : Option String

pub data OperationSafety : Type 0 where
  read_only idempotent idempotency_protected unsafe : OperationSafety

-- safety in {READ_ONLY, IDEMPOTENT}
abbrev pub is_repeatable : OperationSafety → Bool
is_repeatable read_only = true
is_repeatable idempotent = true
is_repeatable _ = false

-- safety is UNSAFE
abbrev pub is_unsafe : OperationSafety → Bool
is_unsafe unsafe = true
is_unsafe _ = false

-- safety is IDEMPOTENCY_PROTECTED
abbrev pub is_protected : OperationSafety → Bool
is_protected idempotency_protected = true
is_protected _ = false

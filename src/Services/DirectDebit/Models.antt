-- ===== src/Services/DirectDebit/Models.antt =====
-- services/direct_debit/models.py: the request models. Days are the texts that the pattern admits.
use Prim.Native.Nat.{Ordering}
use Prim.Native.String.{compare}
use jibit_ir_sdk.Prelude.{
  ℕ, ℤ, String, ◌=ₛ◌, Bool, true, false, not, ◌&&◌, Option, none, some, [], ◌∷◌, pos, leb,
  if◌then◌else◌,
}
use jibit_ir_sdk.Prelude.Text.{count_chars}
use jibit_ir_sdk.Json.{Json, null, int, str, Fields, or_null}
use jibit_ir_sdk.Unicode.{Unicode}
use jibit_ir_sdk.Services.Fields.{bounded, text_between, payload, number, flag}
use jibit_ir_sdk.Services.Patterns.{is_iban, is_digits, is_date}

pub data PeriodUnit : Type 0 where
  day week month year : PeriodUnit

abbrev pub period_unit : PeriodUnit → String
period_unit day = "DAY"
period_unit week = "WEEK"
period_unit month = "MONTH"
period_unit year = "YEAR"

pub data MandateType : Type 0 where
  time_frame subscription one_tap : MandateType

abbrev pub mandate_type : MandateType → String
mandate_type time_frame = "time-frame"
mandate_type subscription = "subscription"
mandate_type one_tap = "one-tap"

-- MandateType(value); `none` stands for its ValueError.
unfoldable pub parse_mandate_type : String → Option MandateType
parse_mandate_type s =
    if s =ₛ "time-frame"
    then some time_frame
    else if s =ₛ "subscription"
    then some subscription
    else if s =ₛ "one-tap"
    then some one_tap
    else none

pub record CreateMandateRequest : Type 0 where
  pub creditor_mandate_reference : String
  pub debtor_bank : String
  pub maximum_amount : ℕ
  pub period : ℕ
  pub unit : PeriodUnit
  pub start_date : String
  pub expire_date : String
  pub mandate_reason : Option String
  pub debtor_firstname : Option String
  pub debtor_lastname : Option String
  pub debtor_national_code : Option String
  pub debtor_id_number : Option String
  pub debtor_mobile_number : Option String
  pub debtor_postal_code : Option String
  pub debtor_birthdate : Option String
  pub debtor_deposit_number : Option String
  pub debtor_iban : Option String
  pub otp_requirement_status : Option String
  pub otp_condition : Option String
  pub frequency : Option ℕ
  pub retry : Option Bool

-- a < b on texts, by code points
abbrev is_less : Ordering → Bool
is_less Ordering.lt = true
is_less _ = false

-- The bounds and `validate_date_range`.
unfoldable pub create_mandate_ok : Unicode → CreateMandateRequest → Bool
create_mandate_ok u r =
    text_between 10 50 r.creditor_mandate_reference
    && leb 1 (count_chars r.debtor_bank)
    && leb 1 r.maximum_amount
    && leb 1 r.period
    && is_date u r.start_date
    && is_date u r.expire_date
    && bounded (is_digits u 10) r.debtor_national_code
    && bounded (is_iban u) r.debtor_iban
    && bounded (leb 1) r.frequency
    && not (is_less (compare r.expire_date r.start_date))

unfoldable pub create_mandate_payload : CreateMandateRequest → Fields
create_mandate_payload r = payload (
    ("creditor_mandate_reference", str r.creditor_mandate_reference)
    ∷ ("debtor_bank", str r.debtor_bank)
    ∷ ("maximum_amount", int (pos r.maximum_amount))
    ∷ ("period", int (pos r.period))
    ∷ ("period_unit", str (period_unit r.unit))
    ∷ ("start_date", str r.start_date)
    ∷ ("expire_date", str r.expire_date)
    ∷ ("mandate_reason", or_null r.mandate_reason)
    ∷ ("debtor_firstname", or_null r.debtor_firstname)
    ∷ ("debtor_lastname", or_null r.debtor_lastname)
    ∷ ("debtor_national_code", or_null r.debtor_national_code)
    ∷ ("debtor_id_number", or_null r.debtor_id_number)
    ∷ ("debtor_mobile_number", or_null r.debtor_mobile_number)
    ∷ ("debtor_postal_code", or_null r.debtor_postal_code)
    ∷ ("debtor_birthdate", or_null r.debtor_birthdate)
    ∷ ("debtor_deposit_number", or_null r.debtor_deposit_number)
    ∷ ("debtor_iban", or_null r.debtor_iban)
    ∷ ("otp_requirement_status", or_null r.otp_requirement_status)
    ∷ ("otp_condition", or_null r.otp_condition)
    ∷ ("frequency", number r.frequency)
    ∷ ("retry", flag r.retry)
    ∷ [])

pub record CollectRequest : Type 0 where
  pub creditor_transaction_no : String
  pub mandate_reference : String
  pub amount : ℕ
  pub otp : Option String

unfoldable pub collect_ok : CollectRequest → Bool
collect_ok r =
    text_between 1 100 r.creditor_transaction_no
    && text_between 10 50 r.mandate_reference
    && leb 1 r.amount
    && bounded (λ s. leb 1 (count_chars s)) r.otp

unfoldable pub collect_payload : CollectRequest → Fields
collect_payload r = payload (
    ("creditor_transaction_no", str r.creditor_transaction_no)
    ∷ ("mandate_reference", str r.mandate_reference)
    ∷ ("amount", int (pos r.amount))
    ∷ ("otp", or_null r.otp)
    ∷ [])

pub record BlueBankCallback : Type 0 where
  pub request_id : String
  pub additional_information : String
  pub event_type : String
  pub mandate_number : String
  pub mandate_status : String
  pub event_category : String
  pub transaction_status : Option String
  pub amount : Option ℤ
  pub core_reference_no : Option String
  pub core_transaction_time : Option String

abbrev signed : Option ℤ → Json
signed none = null
signed (some z) = int z

unfoldable pub blue_bank_payload : BlueBankCallback → Fields
blue_bank_payload r = payload (
    ("requestId", str r.request_id)
    ∷ ("additionalInformation", str r.additional_information)
    ∷ ("eventType", str r.event_type)
    ∷ ("mandateNumber", str r.mandate_number)
    ∷ ("mandateStatus", str r.mandate_status)
    ∷ ("eventCategory", str r.event_category)
    ∷ ("transactionStatus", or_null r.transaction_status)
    ∷ ("amount", signed r.amount)
    ∷ ("coreReferenceNo", or_null r.core_reference_no)
    ∷ ("coreTransactionTime", or_null r.core_transaction_time)
    ∷ [])

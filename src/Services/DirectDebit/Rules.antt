-- ===== src/Services/DirectDebit/Rules.antt =====
-- services/direct_debit/service.py: which optional fields the request for a mandate has on the wire.
use jibit_ir_sdk.Prelude.{
  ℕ, String, ◌=ₛ◌, ◌≡◌, refl, ap, ◌∙◌, arith, Bool, true, false, not, ◌&&◌, ◌||◌, Option, none,
  some, List, is_some, any, if◌then◌else◌, eq_iff,
}
use jibit_ir_sdk.Json.{
  Json, null, bool, int, float, str, bytes, arr, obj, Fields, end, field, or_null,
}
use jibit_ir_sdk.Services.Base.{compact_values}
use jibit_ir_sdk.Services.Fields.{number, flag}
use jibit_ir_sdk.Services.DirectDebit.{
  without, incompatible_fields, needs_frequency, needs_retry, needs_otp, workflow_ok,
}
use jibit_ir_sdk.Services.DirectDebit.Models.{
  MandateType, time_frame, subscription, one_tap, CreateMandateRequest, create_mandate_payload,
}

-- key in payload
abbrev pub has : String → Fields → Bool
has k end = false
has k (field j v fs) = (j =ₛ k) || has k fs

abbrev is_present : Json → Bool
is_present null = false
is_present _ = true

-- Whether a field is there with a value.
abbrev has_value : String → Fields → Bool
has_value k end = false
has_value k (field j v fs) = ((j =ₛ k) && is_present v) || has_value k fs

-- Null values are what `compact_values` leaves out.
has-compact_values : (k : String) (fs : Fields) → has k (compact_values fs) ≡ has_value k fs
unfolding compact_values
has-compact_values k end = refl
has-compact_values k (field j null fs) = ground (arith, has-compact_values k fs)
has-compact_values k (field j (bool b) fs) = ground (arith, has-compact_values k fs)
has-compact_values k (field j (int n) fs) = ground (arith, has-compact_values k fs)
has-compact_values k (field j (float n) fs) = ground (arith, has-compact_values k fs)
has-compact_values k (field j (str s) fs) = ground (arith, has-compact_values k fs)
has-compact_values k (field j (bytes n) fs) = ground (arith, has-compact_values k fs)
has-compact_values k (field j (arr vs) fs) = ground (arith, has-compact_values k fs)
has-compact_values k (field j (obj gs) fs) = ground (arith, has-compact_values k fs)

listed : List String → String → Bool
listed names k = any (λ n. n =ₛ k) names

has-pick :
    (b : Bool) (k j : String) (v : Json) (rest : Fields)
    → has k (if b then rest else field j v rest) ≡ ((not b && (j =ₛ k)) || has k rest)
has-pick true k j v rest = refl
has-pick false k j v rest = refl

-- A key that is taken out is not there, and every other key is there as before.
has-without :
    (names : List String) (k : String) (fs : Fields)
    → has k (without names fs) ≡ (not (listed names k) && has k fs)
unfolding without listed
has-without names k end = ground arith
has-without names k (field j v fs) =
    let same = λ (e : j ≡ k). ap (listed names) e in
    has-pick (listed names j) k j v (without names fs)
    ∙ ground (arith, has-without names k fs, eq_iff j k, same)

-- The fields that depend on the workflow are on the wire exactly for the types that need them, and the
-- condition of a one-time password where it is given and not refused.
pub record MandateRules (type : MandateType) (r : CreateMandateRequest) (body : Fields)
    : Type 0 where
  pub frequency : has "frequency" body ≡ needs_frequency type
  pub retry : has "retry" body ≡ needs_retry type
  pub otp_requirement_status : has "otp_requirement_status" body ≡ needs_otp type
  pub otp_condition : has "otp_condition" body ≡ (needs_otp type && is_some r.otp_condition)

number_present : (n : Option ℕ) → (is_present (number n) || false) ≡ is_some n
number_present none = refl
number_present (some n) = refl

flag_present : (b : Option Bool) → (is_present (flag b) || false) ≡ is_some b
flag_present none = refl
flag_present (some b) = refl

text_present : (s : Option String) → (is_present (or_null s) || false) ≡ is_some s
text_present none = refl
text_present (some s) = refl

module _ (r : CreateMandateRequest) where
  has-frequency : has "frequency" (create_mandate_payload r) ≡ is_some r.frequency
  unfolding create_mandate_payload
  has-frequency = has-compact_values "frequency" _ ∙ number_present r.frequency

  has-retry : has "retry" (create_mandate_payload r) ≡ is_some r.retry
  unfolding create_mandate_payload
  has-retry = has-compact_values "retry" _ ∙ flag_present r.retry

  has-otp :
      has "otp_requirement_status" (create_mandate_payload r) ≡ is_some r.otp_requirement_status
  unfolding create_mandate_payload
  has-otp = has-compact_values "otp_requirement_status" _ ∙ text_present r.otp_requirement_status

  has-otp_condition : has "otp_condition" (create_mandate_payload r) ≡ is_some r.otp_condition
  unfolding create_mandate_payload
  has-otp_condition = has-compact_values "otp_condition" _ ∙ text_present r.otp_condition

  -- A request that passes the checks of its workflow leaves with the fields that depend on the
  -- workflow exactly where the type of the mandate needs them, whatever the caller gave: `frequency`
  -- for one-tap mandates, `retry` for subscriptions and `otp_requirement_status` for the others, and
  -- `otp_condition` for those others where it was given.
  pub create_mandate_payload-MandateRules :
      (type : MandateType)
      → workflow_ok type r ≡ true
      → MandateRules type r (without (incompatible_fields type) (create_mandate_payload r))
  unfolding workflow_ok listed
  create_mandate_payload-MandateRules time_frame h =
      let rest =
        λ (k : String). has-without (incompatible_fields time_frame) k (create_mandate_payload r) in
      record {
        frequency = rest "frequency" ∙ ground (arith, h, has-frequency);
        retry = rest "retry" ∙ ground (arith, h, has-retry);
        otp_requirement_status = rest "otp_requirement_status" ∙ ground (arith, h, has-otp);
        otp_condition = rest "otp_condition" ∙ ground (arith, h, has-otp_condition);
      }
  create_mandate_payload-MandateRules subscription h =
      let rest = λ (k : String).
        has-without (incompatible_fields subscription) k (create_mandate_payload r) in
      record {
        frequency = rest "frequency" ∙ ground (arith, h, has-frequency);
        retry = rest "retry" ∙ ground (arith, h, has-retry);
        otp_requirement_status = rest "otp_requirement_status" ∙ ground (arith, h, has-otp);
        otp_condition = rest "otp_condition" ∙ ground (arith, h, has-otp_condition);
      }
  create_mandate_payload-MandateRules one_tap h =
      let rest =
        λ (k : String). has-without (incompatible_fields one_tap) k (create_mandate_payload r) in
      record {
        frequency = rest "frequency" ∙ ground (arith, h, has-frequency);
        retry = rest "retry" ∙ ground (arith, h, has-retry);
        otp_requirement_status = rest "otp_requirement_status" ∙ ground (arith, h, has-otp);
        otp_condition = rest "otp_condition" ∙ ground (arith, h, has-otp_condition);
      }

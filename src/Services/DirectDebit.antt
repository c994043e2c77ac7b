-- ===== src/Services/DirectDebit.antt =====
-- services/direct_debit/service.py: mandates, collections and their inquiry.
pub mod Models
pub mod Once
pub mod Rules
use jibit_ir_sdk.Prelude.{
  ℕ, String, ◌<>◌, ◌=ₛ◌, Bool, true, false, not, ◌&&◌, ◌||◌, Option, none, some, List, [], ◌∷◌,
  is_some, leb, all, any, ◌==◌, if◌then◌else◌,
}
use jibit_ir_sdk.Prelude.Text.{is_blank, codes, count_chars}
use jibit_ir_sdk.Types.{value, OperationSafety, read_only, unsafe, direct_debit}
use jibit_ir_sdk.Json.{Json, null, str, obj, Fields, end, field, or_null}
use jibit_ir_sdk.Unicode.{Unicode}
use jibit_ir_sdk.Exceptions.{Raised}
use jibit_ir_sdk.Effects.{Environment, Outcome, ok, raised, M, pure, raise, lift, ◌>>=◌}
use jibit_ir_sdk.Response.{RawResponse, ApiResponse, StatusResult}
use jibit_ir_sdk.Engine.{RequestOptions}
use jibit_ir_sdk.Services.Base.{Model, typed_request, validate_request, compact_values}
use jibit_ir_sdk.Services.Facade.{options_of, require, invalid, status_request}
use jibit_ir_sdk.Services.DirectDebit.Models.{
  MandateType, time_frame, subscription, one_tap, mandate_type, parse_mandate_type,
  CreateMandateRequest, create_mandate_ok, create_mandate_payload, CollectRequest, collect_ok,
  collect_payload, BlueBankCallback, blue_bank_payload,
}

abbrev prefix : String
prefix = "/directdebit/api/v1"

-- `_invalid`
abbrev pub invalid_debit : String → Raised
invalid_debit operation = invalid direct_debit operation "POST" prefix

abbrev pub mandate_path : MandateType → String
mandate_path type = prefix <> "/mandate/" <> mandate_type type

-- payload.pop(name, None) for each name
unfoldable pub without : List String → Fields → Fields
without names end = end
without names (field k v fs) =
    let rest = without names fs in if any (λ n. n =ₛ k) names then rest else field k v rest

abbrev pub incompatible_fields : MandateType → List String
incompatible_fields time_frame = "frequency" ∷ "retry" ∷ []
incompatible_fields subscription = "frequency" ∷ "otp_requirement_status" ∷ "otp_condition" ∷ []
incompatible_fields one_tap = "retry" ∷ []

abbrev needs_frequency : MandateType → Bool
needs_frequency one_tap = true
needs_frequency _ = false

abbrev needs_retry : MandateType → Bool
needs_retry subscription = true
needs_retry _ = false

abbrev needs_otp : MandateType → Bool
needs_otp subscription = false
needs_otp _ = true

-- The three checks of what the workflow requires.
unfoldable pub workflow_ok : MandateType → CreateMandateRequest → Bool
workflow_ok type r =
    if needs_frequency type && not (is_some r.frequency)
    then false
    else if needs_retry type && not (is_some r.retry)
    then false
    else not (needs_otp type && not (is_some r.otp_requirement_status))

-- `request or self._validate(...)`; without any keyword the required fields are missing.
given_mandate :
    Unicode
    → MandateType
    → Option CreateMandateRequest
    → Option CreateMandateRequest
    → Outcome CreateMandateRequest
unfolding require
given_mandate u type (some given) none = ok given
given_mandate u type (some given) (some r) = raised (invalid_debit "create_mandate")
given_mandate u type none none =
    raised (invalid direct_debit "create_mandate" "POST" (mandate_path type))
given_mandate u type none (some r) =
    require direct_debit (create_mandate_ok u r) r "create_mandate" "POST" (mandate_path type)

workflow_checked : MandateType → CreateMandateRequest → Outcome CreateMandateRequest
unfolding workflow_ok
workflow_checked type r =
    if workflow_ok type r then ok r else raised (invalid_debit "create_mandate")

abbrev typed_mandate : Option MandateType → Outcome MandateType
typed_mandate none = raised (invalid_debit "create_mandate")
typed_mandate (some type) = ok type

-- `_reference`: the characters are letters and digits of any script, and - _ .
abbrev pub is_debit_reference : Unicode → String → Bool
is_debit_reference u s =
    not (is_blank s) && all (λ c. u.is_alnum c || c == b'-' || c == b'_' || c == b'.') (codes s)

debit_reference : Unicode → String → String → Outcome String
debit_reference u given operation =
    if is_debit_reference u given then ok given else raised (invalid_debit operation)

-- A condition that is refused before anything else happens.
refuse_if : Bool → String → Outcome (Unit {0})
refuse_if refused operation = if refused then raised (invalid_debit operation) else ok tt

abbrev too_long : Option String → Bool
too_long none = false
too_long (some s) = not (leb (count_chars s) 500)

module _ {S : Type 0} (env : Environment) (executor : RequestOptions → M S RawResponse) where
  -- `_typed`
  abbrev call :
      {A : Type 0}
      → String
      → String
      → String
      → OperationSafety
      → Json
      → Model A
      → M S (ApiResponse A)
  call operation method path safety json model =
      typed_request env executor (options_of direct_debit operation method path safety null json)
        model

  -- `_status`
  abbrev status : String → String → String → Json → M S (ApiResponse StatusResult)
  status operation method path json =
      status_request executor (options_of direct_debit operation method path unsafe null json)

  unfoldable pub create_mandate :
      {A : Type 0}
      → Model A
      → String
      → Option CreateMandateRequest
      → Option CreateMandateRequest
      → M S (ApiResponse A)
  unfolding given_mandate workflow_checked
  create_mandate model name given values = do
    type ← lift (typed_mandate (parse_mandate_type name))
    request ← lift (given_mandate env.unicode type given values)
    accepted ← lift (workflow_checked type request)
    call "create_mandate" "POST" (mandate_path type) unsafe
        (obj (without (incompatible_fields type) (create_mandate_payload accepted))) model

  unfoldable pub collect : {A : Type 0} → Model A → CollectRequest → M S (ApiResponse A)
  collect model r = do
    request ←
        lift (
          require direct_debit (collect_ok r) r "collect" "POST" (prefix <> "/transaction/collect"))
    call "collect" "POST" (prefix <> "/transaction/collect") unsafe (obj (collect_payload request))
        model

  unfoldable pub revoke_mandate : String → String → Option String → M S (ApiResponse StatusResult)
  unfolding debit_reference refuse_if
  revoke_mandate given revoke_by additional_info = do
    reference ← lift (debit_reference env.unicode given "revoke_mandate")
    checked ← lift (refuse_if (is_blank revoke_by || too_long additional_info) "revoke_mandate")
    status "revoke_mandate" "PUT" (prefix <> "/mandate/revoke") (
        obj (
          compact_values (
            field "mandate_reference" (str reference) (
              field "revoke_by" (str revoke_by)
                (field "additional_info" (or_null additional_info) end)))))

  unfoldable pub enable_mandate : String → String → M S (ApiResponse StatusResult)
  unfolding debit_reference refuse_if
  enable_mandate given enable_by = do
    reference ← lift (debit_reference env.unicode given "enable_mandate")
    checked ← lift (refuse_if (is_blank enable_by) "enable_mandate")
    status "enable_mandate" "PUT" (prefix <> "/mandate/enable") (
        obj (
          compact_values
            (field "mandate_reference" (str reference) (field "enable_by" (str enable_by) end))))

  unfoldable pub disable_mandate : String → String → M S (ApiResponse StatusResult)
  unfolding debit_reference refuse_if
  disable_mandate given disable_by = do
    reference ← lift (debit_reference env.unicode given "disable_mandate")
    checked ← lift (refuse_if (is_blank disable_by) "disable_mandate")
    status "disable_mandate" "PUT" (prefix <> "/mandate/disable") (
        obj (
          compact_values
            (field "mandate_reference" (str reference) (field "disable_by" (str disable_by) end))))

  unfoldable pub send_otp : String → M S (ApiResponse StatusResult)
  unfolding debit_reference
  send_otp given = do
    reference ← lift (debit_reference env.unicode given "send_otp")
    status "send_otp" "POST" (prefix <> "/transaction/otp/" <> reference) null

  -- `none` is a mapping that does not fit the model.
  unfoldable pub accept_blue_bank_callback :
      Option BlueBankCallback → M S (ApiResponse StatusResult)
  unfolding validate_request
  accept_blue_bank_callback payload = do
    callback ← lift (
        validate_request payload (value direct_debit) "accept_blue_bank_callback" "POST"
          (prefix <> "/blue-bank-callback"))
    status "accept_blue_bank_callback" "POST" (prefix <> "/blue-bank-callback")
        (obj (compact_values (blue_bank_payload callback)))

  -- The look-ups by a reference: its check, and a read at the path that it gives.
  look_up : {A : Type 0} → String → String → (String → String) → Model A → M S (ApiResponse A)
  unfolding debit_reference
  look_up given operation path model = do
    reference ← lift (debit_reference env.unicode given operation)
    call operation "GET" (path reference) read_only null model

  unfoldable pub inquire_transaction : {A : Type 0} → Model A → String → M S (ApiResponse A)
  unfolding look_up
  inquire_transaction model given =
      look_up given "inquire_transaction" (λ r. prefix <> "/transaction/" <> r) model

  unfoldable pub list_subscription_transactions :
      {A : Type 0} → Model A → String → M S (ApiResponse A)
  unfolding look_up
  list_subscription_transactions model given =
      look_up given "list_subscription_transactions"
        (λ r. prefix <> "/subscription-mandate/" <> r <> "/transactions") model

  unfoldable pub inquire_mandate : {A : Type 0} → Model A → String → M S (ApiResponse A)
  unfolding look_up
  inquire_mandate model given =
      look_up given "inquire_mandate" (λ r. prefix <> "/mandates/mandate-reference/" <> r) model

  unfoldable pub inquire_creditor_mandate : {A : Type 0} → Model A → String → M S (ApiResponse A)
  unfolding look_up
  inquire_creditor_mandate model given =
      look_up given "inquire_creditor_mandate"
        (λ r. prefix <> "/mandates/creditor-mandate-reference/" <> r) model

  unfoldable pub get_active_banks : {A : Type 0} → Model A → M S (ApiResponse A)
  get_active_banks =
      call "get_active_banks" "GET" (prefix <> "/creditor/active-banks") read_only null

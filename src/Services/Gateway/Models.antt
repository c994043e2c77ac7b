-- ===== src/Services/Gateway/Models.antt =====
-- services/payment_gateway/models.py: the request models. A record holds values of the declared
-- types, numbers that are not negative, and instants in microseconds; `..._ok` is the check that
-- pydantic makes of the declared bounds and the model's validator, and `..._payload` what
-- `to_payload` writes: the aliases of the fields that are set.
pub use jibit_ir_sdk.Services.Fields.{bounded, between, text_between, number, payload}
use jibit_ir_sdk.Prelude.{
  ℕ, ◌*◌, String, ◌=ₛ◌, Bool, false, not, ◌&&◌, ◌||◌, Option, none, some, List, [], ◌∷◌, pos, leb,
  ltb, is_empty, is_some, any, if◌then◌else◌,
}
use jibit_ir_sdk.Prelude.Text.{is_blank, count_chars}
use jibit_ir_sdk.Json.{
  Json, null, bool, int, str, arr, obj, Fields, end, field, or_null, text_items,
}

pub record TerminalSwitching : Type 0 where
  pub terminal_ids : List String
  pub auto_switching : Bool

pub data Currency : Type 0 where
  irr : Currency

-- Currency(value); `none` stands for its ValueError.
unfoldable pub currency_of : String → Option Currency
currency_of s = if s =ₛ "IRR" then some irr else none

-- `currency` is the text that the caller gives.
pub record CreatePurchaseRequest : Type 0 where
  pub amount : ℕ
  pub callback_url : String
  pub client_reference_number : String
  pub wage : ℕ
  pub currency : String
  pub payer_mobile_number : Option String
  pub check_payer_mobile_number : Bool
  pub payer_card_number : Option String
  pub payer_card_numbers : Option (List String)
  pub payer_national_code : Option String
  pub description : Option String
  pub switching : Option TerminalSwitching
  pub additional_data : Option Fields
  pub user_identifier : Option String

abbrev pub is_set : Option String → Bool
is_set none = false
is_set (some s) = not (is_blank s)

abbrev pub is_filled : Option (List String) → Bool
is_filled none = false
is_filled (some xs) = not (is_empty xs)

-- len(set(xs)) != len(xs)
unfoldable pub repeats : List String → Bool
repeats [] = false
repeats (x ∷ xs) = any (λ y. x =ₛ y) xs || repeats xs

abbrev pub numbers_repeat : Option (List String) → Bool
numbers_repeat none = false
numbers_repeat (some xs) = repeats xs

-- `validate_purchase_constraints`; false stands for its ValueError.
unfoldable pub purchase_constraints : CreatePurchaseRequest → Bool
unfolding repeats
purchase_constraints r =
    if ltb (r.amount * 15) (r.wage * 100)
    then false
    else if r.check_payer_mobile_number && not (is_set r.payer_mobile_number)
    then false
    else if is_set r.payer_card_number && is_filled r.payer_card_numbers
    then false
    else not (numbers_repeat r.payer_card_numbers)

unfoldable pub create_purchase_ok : CreatePurchaseRequest → Bool
unfolding purchase_constraints currency_of
create_purchase_ok r =
    leb 5000 r.amount
    && leb (count_chars r.callback_url) 1024
    && text_between 1 50 r.client_reference_number
    && is_some (currency_of r.currency)
    && bounded (λ s. leb (count_chars s) 256) r.description
    && bounded (λ s. not (is_empty s.terminal_ids)) r.switching
    && bounded (λ s. leb (count_chars s) 50) r.user_identifier
    && purchase_constraints r

abbrev switching_json : Option TerminalSwitching → Json
switching_json none = null
switching_json (some s) = obj (
    field "terminalIds" (arr (text_items s.terminal_ids))
      (field "autoSwitching" (bool s.auto_switching) end))

abbrev pub texts_json : Option (List String) → Json
texts_json none = null
texts_json (some xs) = arr (text_items xs)

abbrev object_json : Option Fields → Json
object_json none = null
object_json (some fs) = obj fs

unfoldable pub create_purchase_payload : CreatePurchaseRequest → Fields
create_purchase_payload r = payload (
    ("amount", int (pos r.amount))
    ∷ ("callbackUrl", str r.callback_url)
    ∷ ("clientReferenceNumber", str r.client_reference_number)
    ∷ ("wage", int (pos r.wage))
    ∷ ("currency", str r.currency)
    ∷ ("payerMobileNumber", or_null r.payer_mobile_number)
    ∷ ("checkPayerMobileNumber", bool r.check_payer_mobile_number)
    ∷ ("payerCardNumber", or_null r.payer_card_number)
    ∷ ("payerCardNumbers", texts_json r.payer_card_numbers)
    ∷ ("payerNationalCode", or_null r.payer_national_code)
    ∷ ("description", or_null r.description)
    ∷ ("switching", switching_json r.switching)
    ∷ ("additionalData", object_json r.additional_data)
    ∷ ("userIdentifier", or_null r.user_identifier)
    ∷ [])

-- `_PurchaseIdentifierRequest`, and the fields that refunds add to it
pub record PurchaseReference : Type 0 where
  pub client_reference_number : Option String
  pub purchase_id : Option ℕ

unfoldable pub reference_ok : PurchaseReference → Bool
reference_ok r =
    bounded (text_between 1 50) r.client_reference_number
    && bounded (leb 1) r.purchase_id
    && (is_some r.client_reference_number || is_some r.purchase_id)

unfoldable pub refund_ok : PurchaseReference → Option ℕ → Bool
unfolding reference_ok
refund_ok r amount = reference_ok r && bounded (leb 1) amount

unfoldable pub reverse_payload : PurchaseReference → Fields
reverse_payload r = payload (
    ("clientReferenceNumber", or_null r.client_reference_number)
    ∷ ("purchaseId", number r.purchase_id)
    ∷ [])

unfoldable pub refund_payload : PurchaseReference → Option ℕ → Bool → Fields
refund_payload r amount cancellable = payload (
    ("clientReferenceNumber", or_null r.client_reference_number)
    ∷ ("purchaseId", number r.purchase_id)
    ∷ ("amount", number amount)
    ∷ ("cancellable", bool cancellable)
    ∷ [])

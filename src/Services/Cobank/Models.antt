-- ===== src/Services/Cobank/Models.antt =====
-- services/cobank/models.py, and the checks of service.py: a UUID is its canonical text.
use jibit_ir_sdk.Prelude.{
  ℕ, String, Bool, ◌&&◌, Option, none, some, List, [], ◌∷◌, pos, leb, length, all,
}
use jibit_ir_sdk.Prelude.Text.{codes, count_chars}
use jibit_ir_sdk.Json.{int, str, Fields, or_null}
use jibit_ir_sdk.Unicode.{Unicode}
use jibit_ir_sdk.Services.Fields.{bounded, between, text_between, payload, named}
use jibit_ir_sdk.Services.Patterns.{is_iban, is_number, is_reference_char}

pub data CobankTransferType : Type 0 where
  normal ach rtgs : CobankTransferType

abbrev pub cobank_transfer_type : CobankTransferType → String
cobank_transfer_type normal = "NORMAL"
cobank_transfer_type ach = "ACH"
cobank_transfer_type rtgs = "RTGS"

pub data TransferReason : Type 0 where
  salary debt_payment movable_property immovable_property cash_management : TransferReason
  cash_management_legacy goods_purchase services_purchase : TransferReason

abbrev pub transfer_reason : TransferReason → String
transfer_reason salary = "VARIZ_HOGHOUGH"
transfer_reason debt_payment = "TADIE_DOYOUN"
transfer_reason movable_property = "MOAMELAT_MANGHOUL"
transfer_reason immovable_property = "MOAMELAT_GHEIR_MANGHOUL"
transfer_reason cash_management = "MODIRIAT_NAGHDINEGI"
transfer_reason cash_management_legacy = "MODIRIRAT_NAGHDINEGI"
transfer_reason goods_purchase = "KHARID_KALA"
transfer_reason services_purchase = "KHARID_KHADAMAT"

pub record CreateSettlementRequest : Type 0 where
  pub record_track_id : String
  pub destination_iban : String
  pub amount : ℕ
  pub type : Option CobankTransferType
  pub reason : Option TransferReason
  pub source_iban : Option String
  pub payment_id : Option String
  pub request_description : Option String

unfoldable pub create_settlement_ok : Unicode → CreateSettlementRequest → Bool
create_settlement_ok u r =
    is_iban u r.destination_iban
    && leb 1 r.amount
    && bounded (is_iban u) r.source_iban
    && bounded (λ s. leb (count_chars s) 100 && is_number u s) r.payment_id
    && bounded (λ s. leb (count_chars s) 250) r.request_description

unfoldable pub create_settlement_payload : CreateSettlementRequest → Fields
create_settlement_payload r = payload (
    ("recordTrackId", str r.record_track_id)
    ∷ ("destinationIban", str r.destination_iban)
    ∷ ("amount", int (pos r.amount))
    ∷ ("transferType", named cobank_transfer_type r.type)
    ∷ ("transferReason", named transfer_reason r.reason)
    ∷ ("sourceIban", or_null r.source_iban)
    ∷ ("paymentId", or_null r.payment_id)
    ∷ ("requestDescription", or_null r.request_description)
    ∷ [])

-- `_BatchInquiryRequest`, at the parser of UUIDs: the canonical texts, if all of them parse.
abbrev cons_parsed : Option String → Option (List String) → Option (List String)
cons_parsed (some x) (some xs) = some (x ∷ xs)
cons_parsed _ _ = none

unfoldable pub parse_all : (String → Option String) → List String → Option (List String)
parse_all uuid [] = some []
parse_all uuid (x ∷ xs) = let rest = parse_all uuid xs in cons_parsed (uuid x) rest

abbrev pub batch_size_ok : List String → Bool
batch_size_ok xs = between 1 10000 (length xs)

-- `_Pagination`
pub record Pagination : Type 0 where
  pub page_number : ℕ
  pub page_size : ℕ

unfoldable pub pagination_ok : Pagination → Bool
pagination_ok p = between 1 250 p.page_size

-- `_Reference`
unfoldable pub reference_value_ok : String → Bool
reference_value_ok s = text_between 1 200 s && all is_reference_char (codes s)

pub data ReceiptState : Type 0 where
  active inactive : ReceiptState

abbrev pub receipt_state : ReceiptState → String
receipt_state active = "ACTIVE"
receipt_state inactive = "INACTIVE"

-- ===== src/Services/Sms/Models.antt =====
-- services/sms/models.py, and `_Page` of service.py: the request models.
use jibit_ir_sdk.Prelude.{
  ℕ, String, Bool, true, false, not, ◌&&◌, Option, List, [], ◌∷◌, pos, leb, ltb, length, is_some,
}
use jibit_ir_sdk.Prelude.Text.{count_chars}
use jibit_ir_sdk.Prelude.Dict.{Dict}
use jibit_ir_sdk.Json.{int, str, arr, obj, Fields, end, field, or_null, text_items}
use jibit_ir_sdk.Services.Fields.{bounded, between, text_between, payload}

pub record SimpleSmsRequest : Type 0 where
  pub receptor : String
  pub message : String
  pub sender : Option String
  pub client_message_id : Option String

unfoldable pub simple_sms_ok : SimpleSmsRequest → Bool
simple_sms_ok r =
    text_between 10 20 r.receptor
    && text_between 1 2000 r.message
    && bounded (text_between 1 50) r.sender
    && bounded (text_between 1 100) r.client_message_id

unfoldable pub simple_sms_payload : SimpleSmsRequest → Fields
simple_sms_payload r = payload (
    ("receptor", str r.receptor)
    ∷ ("message", str r.message)
    ∷ ("sender", or_null r.sender)
    ∷ ("client_message_id", or_null r.client_message_id)
    ∷ [])

pub record PatternSmsRequest : Type 0 where
  pub receptor : String
  pub template : String
  pub params : Dict String
  pub sender : Option String
  pub client_message_id : Option String

unfoldable pub pattern_sms_ok : PatternSmsRequest → Bool
pattern_sms_ok r =
    text_between 10 20 r.receptor
    && text_between 1 100 r.template
    && bounded (text_between 1 50) r.sender
    && bounded (text_between 1 100) r.client_message_id

abbrev texts_of : Dict String → Fields
texts_of [] = end
texts_of ((k, v) ∷ d) = field k (str v) (texts_of d)

unfoldable pub pattern_sms_payload : PatternSmsRequest → Fields
pattern_sms_payload r = payload (
    ("receptor", str r.receptor)
    ∷ ("template", str r.template)
    ∷ ("params", obj (texts_of r.params))
    ∷ ("sender", or_null r.sender)
    ∷ ("client_message_id", or_null r.client_message_id)
    ∷ [])

-- `predefined_message_id` is the canonical text of the UUID.
pub record CreateBulkRequest : Type 0 where
  pub bulk_name : String
  pub sender : String
  pub receptors : List String
  pub message : Option String
  pub predefined_message_id : Option String
  pub client_bulk_reference : Option String

abbrev pub same_truth : Bool → Bool → Bool
same_truth true b = b
same_truth false b = not b

-- The bounds and `require_message_source`.
unfoldable pub create_bulk_ok : CreateBulkRequest → Bool
create_bulk_ok r =
    text_between 1 200 r.bulk_name
    && text_between 1 50 r.sender
    && between 1 1000 (length r.receptors)
    && bounded (λ s. leb (count_chars s) 2000) r.message
    && bounded (λ s. leb (count_chars s) 100) r.client_bulk_reference
    && not (same_truth (is_some r.message) (is_some r.predefined_message_id))

unfoldable pub create_bulk_payload : CreateBulkRequest → Fields
create_bulk_payload r = payload (
    ("bulk_name", str r.bulk_name)
    ∷ ("sender", str r.sender)
    ∷ ("receptors", arr (text_items r.receptors))
    ∷ ("message", or_null r.message)
    ∷ ("predefined_message_id", or_null r.predefined_message_id)
    ∷ ("client_bulk_reference", or_null r.client_bulk_reference)
    ∷ [])

pub record Page : Type 0 where
  pub page : ℕ
  pub page_size : ℕ

unfoldable pub page_ok : Page → Bool
page_ok p = between 1 1000 p.page_size

unfoldable pub page_query : Page → Fields
page_query p = field "page" (int (pos p.page)) (field "page_size" (int (pos p.page_size)) end)

pub record InboundQuery : Type 0 where
  pub from_date : ℕ
  pub to_date : ℕ
  pub page : ℕ

unfoldable pub inbound_ok : InboundQuery → Bool
inbound_ok q = not (ltb q.to_date q.from_date)

unfoldable pub inbound_query : (ℕ → String) → InboundQuery → Fields
inbound_query iso q =
    field "from_date" (str (iso q.from_date))
      (field "to_date" (str (iso q.to_date)) (field "page" (int (pos q.page)) end))

-- `redacted_params`, which keeps the names
unfoldable pub redacted_params : Dict String → Dict String
redacted_params [] = []
redacted_params ((k, v) ∷ d) = (k, "[REDACTED]") ∷ redacted_params d

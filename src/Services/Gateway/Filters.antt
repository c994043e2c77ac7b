-- ===== src/Services/Gateway/Filters.antt =====
-- services/payment_gateway/models.py: the criteria of the look-ups, with their checks and queries.
use jibit_ir_sdk.Prelude.{
  ℕ, ◌-◌, String, Bool, true, false, not, ◌&&◌, Option, none, some, List, [], ◌∷◌, leb, is_some,
  if◌then◌else◌,
}
use jibit_ir_sdk.Json.{Json, null, str, Fields, or_null}
use jibit_ir_sdk.Services.Gateway.Models.{bounded, between, number, payload, is_filled, texts_json}

-- A range of instants that is in order when both of its ends are given.
abbrev pub in_order : Option ℕ → Option ℕ → Bool
in_order (some a) (some b) = not (leb b a)
in_order _ _ = true

pub record PurchaseFilter : Type 0 where
  pub purchase_id : Option ℕ
  pub status : Option String
  pub client_reference_number : Option String
  pub psp_reference_number : Option String
  pub psp_rrn : Option String
  pub psp_trace_number : Option String
  pub user_identifier : Option String
  pub from_time : Option ℕ
  pub to_time : Option ℕ
  pub page : Option ℕ
  pub size : Option ℕ

unfoldable pub purchase_filter_ok : PurchaseFilter → Bool
purchase_filter_ok f =
    bounded (leb 1) f.purchase_id
    && bounded (between 1 20) f.page
    && bounded (between 1 250) f.size
    && in_order f.from_time f.to_time

abbrev pub three_hours : ℕ
three_hours = 10800000000

pub record PurchaseHistoryFilter : Type 0 where
  pub from_time : Option ℕ
  pub to_time : Option ℕ
  pub purchase_id : Option ℕ
  pub statuses : Option (List String)
  pub next_page_id : Option ℕ
  pub page : Option ℕ
  pub size : Option ℕ

abbrev pub range_ok : Option ℕ → Option ℕ → Bool
range_ok none none = true
range_ok (some a) (some b) = if leb b a then false else not (leb three_hours (b - a))
range_ok _ _ = false

-- `validate_history_criteria`; false stands for its ValueErrors.
unfoldable pub history_criteria : PurchaseHistoryFilter → Bool
history_criteria f =
    if not (range_ok f.from_time f.to_time)
    then false
    else if not (is_some f.purchase_id) && not (is_some f.statuses) && not (is_some f.from_time)
    then false
    else not (is_some f.statuses && not (is_filled f.statuses))

unfoldable pub history_filter_ok : PurchaseHistoryFilter → Bool
unfolding history_criteria
history_filter_ok f =
    bounded (leb 1) f.purchase_id
    && bounded (leb 1) f.next_page_id
    && bounded (between 1 10) f.page
    && bounded (between 1 20000) f.size
    && history_criteria f

pub record SettlementFilter : Type 0 where
  pub settlement_id : Option ℕ
  pub page : Option ℕ
  pub size : Option ℕ

unfoldable pub settlement_filter_ok : SettlementFilter → Bool
settlement_filter_ok f =
    bounded (leb 1) f.settlement_id
    && bounded (between 1 20) f.page
    && bounded (between 1 250) f.size

-- The empty criteria, which `PurchaseFilter()` builds.
abbrev pub any_purchase : PurchaseFilter
any_purchase = record {
  purchase_id = none;
  status = none;
  client_reference_number = none;
  psp_reference_number = none;
  psp_rrn = none;
  psp_trace_number = none;
  user_identifier = none;
  from_time = none;
  to_time = none;
  page = none;
  size = none;
}

-- The empty criteria, which `SettlementFilter()` builds.
abbrev pub any_settlement : SettlementFilter
any_settlement = record { settlement_id = none; page = none; size = none }

unfoldable pub settlement_filter_query : SettlementFilter → Fields
settlement_filter_query f = payload (
    ("settlementId", number f.settlement_id)
    ∷ ("page", number f.page)
    ∷ ("size", number f.size)
    ∷ [])

module _ (iso_instant : ℕ → String) where
  abbrev pub instant : Option ℕ → Json
  instant none = null
  instant (some t) = str (iso_instant t)

  unfoldable pub purchase_filter_query : PurchaseFilter → Fields
  purchase_filter_query f = payload (
      ("purchaseId", number f.purchase_id)
      ∷ ("status", or_null f.status)
      ∷ ("clientReferenceNumber", or_null f.client_reference_number)
      ∷ ("pspReferenceNumber", or_null f.psp_reference_number)
      ∷ ("pspRrn", or_null f.psp_rrn)
      ∷ ("pspTraceNumber", or_null f.psp_trace_number)
      ∷ ("userIdentifier", or_null f.user_identifier)
      ∷ ("from", instant f.from_time)
      ∷ ("to", instant f.to_time)
      ∷ ("page", number f.page)
      ∷ ("size", number f.size)
      ∷ [])

  unfoldable pub history_filter_query : PurchaseHistoryFilter → Fields
  history_filter_query f = payload (
      ("from", instant f.from_time)
      ∷ ("to", instant f.to_time)
      ∷ ("purchaseId", number f.purchase_id)
      ∷ ("statuses", texts_json f.statuses)
      ∷ ("nextPageId", number f.next_page_id)
      ∷ ("page", number f.page)
      ∷ ("size", number f.size)
      ∷ [])

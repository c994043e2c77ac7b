-- ===== src/Tests/Requests.antt =====
-- What the services send at concrete arguments.
use jibit_ir_sdk.Prelude.{◌≡◌, refl, String, true, false, none, some, List, [], ◌∷◌, map}
use jibit_ir_sdk.Json.{Json, null, str, obj, end, field}
use jibit_ir_sdk.Effects.{World, ok, M, lift, raise, ◌>>=◌}
use jibit_ir_sdk.Engine.{RequestOptions}
use jibit_ir_sdk.Response.{RawResponse}
use jibit_ir_sdk.Services.Base.{Model, typed_request, validate_request, compact_values}
use jibit_ir_sdk.Services.Facade.{require, status_request}
use jibit_ir_sdk.Services.Cobank.{set_record_receipt}
use jibit_ir_sdk.Services.Cobank.Models.{reference_value_ok}
use jibit_ir_sdk.Services.Transfer.{retry_failed}
use jibit_ir_sdk.Services.Transfer.Models.{transfer_selector_ok, transfer_selector_payload}
use jibit_ir_sdk.Services.Identicator.{inquire_card}
use jibit_ir_sdk.Tests.Fixtures.{env}

-- An executor that keeps the requests that it is given.
abbrev recorder : RequestOptions → M (List RequestOptions) RawResponse
recorder o w = (
  ok (record { status_code = 200; headers = []; content = []; correlation_id = "id-1" }),
  record w { store = o ∷ w.store },
)

abbrev nothing_yet : World (List RequestOptions)
nothing_yet = record { trace = []; store = [] }

abbrev anything : Model String
anything v = some "read"

-- The method, the path, the query and the body of a request.
abbrev line : RequestOptions → String × String × Json × Json
line o = (o.method, o.path, o.params, o.json)

abbrev sent_lines : {A : Type 0} → M (List RequestOptions) A → List (String × String × Json × Json)
sent_lines m = map line (m nothing_yet).1.store

record_receipt_test :
    sent_lines (set_record_receipt env (λ s. some s) recorder anything "order-1" "item-1" false)
    ≡ (
      "PUT",
      "/cobank/v2/orders/settlement/order-1/records/item-1/receipt-link",
      null,
      obj (field "state" (str "INACTIVE") end),
    )
      ∷ []
unfolding set_record_receipt require reference_value_ok validate_request typed_request lift ◌>>=◌
record_receipt_test = refl

-- A dot segment passes the check of a reference.
dot_segment_test :
    sent_lines (set_record_receipt env (λ s. some s) recorder anything ".." "item-1" true)
    ≡ (
      "PUT",
      "/cobank/v2/orders/settlement/../records/item-1/receipt-link",
      null,
      obj (field "state" (str "ACTIVE") end),
    )
      ∷ []
unfolding set_record_receipt require reference_value_ok validate_request typed_request lift ◌>>=◌
dot_segment_test = refl

refused_reference_test :
    sent_lines (set_record_receipt env (λ s. some s) recorder anything "order/1" "item-1" true) ≡ []
unfolding set_record_receipt require reference_value_ok validate_request typed_request lift ◌>>=◌
refused_reference_test = refl

retry_failed_test :
    sent_lines (retry_failed env recorder (record { batch_id = none; transfer_id = some "T-1" }))
    ≡ (
      "PATCH",
      "/trf/v2/transfers",
      obj (field "transferID" (str "T-1") end),
      obj (field "state" (str "RETRY") end),
    )
      ∷ []
unfolding retry_failed require transfer_selector_ok transfer_selector_payload validate_request
    status_request compact_values lift ◌>>=◌
retry_failed_test = refl

-- At most one of the three flags of a card inquiry may be set.
inquire_card_test :
    sent_lines (inquire_card env recorder anything "6037991234567890" true true false none) ≡ []
unfolding inquire_card raise
inquire_card_test = refl

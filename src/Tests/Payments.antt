-- ===== src/Tests/Payments.antt =====
-- The payment gateway, audits and redaction at concrete requests.
use jibit_ir_sdk.Prelude.{◌+◌, suc, ◌≡◌, refl, inl, String, true, false, none, some, []}
use jibit_ir_sdk.Prelude.Text.{codes}
use jibit_ir_sdk.Json.{Json, null, str, obj, end, field}
use jibit_ir_sdk.Effects.{Environment, ok, M, pure}
use jibit_ir_sdk.Effects.Counts.{Adds, Adds-pure, count}
use jibit_ir_sdk.Redaction.{redact, redact_text, is_sensitive_key}
use jibit_ir_sdk.Redaction.Secrecy.{
  Similar, same, objects, finished, shown, hidden, redact_hides, redact_misses_capital_aliases,
}
use jibit_ir_sdk.Redaction.Words.{is_sensitive_key_of_part}
use jibit_ir_sdk.Engine.{RequestOptions, execute}
use jibit_ir_sdk.Response.{RawResponse}
use jibit_ir_sdk.Engine.Attempts.{sent_if}
use jibit_ir_sdk.Services.Base.{Model, audited_execute}
use jibit_ir_sdk.Services.Base.Audit.{
  is_audit, audits, audited_execute_transparent, audited_execute_once,
}
use jibit_ir_sdk.Services.Gateway.{
  CreatePurchaseResult, RefundPurchaseResult, create_purchase, refund_purchase,
}
use jibit_ir_sdk.Services.Gateway.Models.{
  CreatePurchaseRequest, create_purchase_ok, PurchaseReference, refund_ok,
}
use jibit_ir_sdk.Services.Gateway.Audited.{create_purchase-audits}
use jibit_ir_sdk.Services.Gateway.Safety.{create_purchase_once, refund_purchase_once}
use jibit_ir_sdk.Auth.Provider.Locking.{is_authorized}
use jibit_ir_sdk.Auth.Authenticated.{authenticated_execute}
use jibit_ir_sdk.Transport.{responded}
use jibit_ir_sdk.Prelude.Dict.{lookup}
use jibit_ir_sdk.Effects.{◌>>=◌, lift, catch, ask, log}
use jibit_ir_sdk.Services.Base.{validate_request, parse_model_response, emit}
use jibit_ir_sdk.Response.{json}
use jibit_ir_sdk.Auth.Provider.{get_token}
use jibit_ir_sdk.Auth.Store.{store_get, memory_store}
use jibit_ir_sdk.Auth.Tokens.{is_access_valid}
use jibit_ir_sdk.Auth.Authenticated.{authorize}
use jibit_ir_sdk.Engine.Options.{validated_endpoint}
use jibit_ir_sdk.Tests.Fixtures.{
  env, engine, payment_request, no_store, store, authenticator, with_token,
}
use jibit_ir_sdk.Tests.Redaction.{ascii}

abbrev purchase : CreatePurchaseRequest
purchase = record {
  amount = 100000;
  callback_url = "https://shop.example/callback";
  client_reference_number = "order-1";
  wage = 15000;
  currency = "IRR";
  payer_mobile_number = none;
  check_payer_mobile_number = false;
  payer_card_number = none;
  payer_card_numbers = none;
  payer_national_code = none;
  description = none;
  switching = none;
  additional_data = none;
  user_identifier = none;
}

abbrev reference : PurchaseReference
reference = record { client_reference_number = none; purchase_id = some 7 }

abbrev created : Model CreatePurchaseResult
created v = some (record { purchase_id = 7; client_reference_number = "order-1" })

abbrev submitted : Model RefundPurchaseResult
submitted v = some (record { refund_id = some 3; batch_id = none; transfer_id = none })

-- The service is up, every body decodes to null, and nothing is logged.
abbrev up : Environment
up = record env {
  logging_enabled = false;
  send = λ history request. responded (record { status_code = 200; headers = []; content = [] });
  loads = λ content. some null;
}

abbrev received : RawResponse
received = record { status_code = 200; headers = []; content = []; correlation_id = "id-1" }

create_purchase_once_example :
    count
      (sent_if is_authorized)
      (create_purchase up
        (authenticated_execute up store authenticator)
        created
        purchase
        with_token).1.trace
    ≡ suc (count (sent_if is_authorized) with_token.trace)
unfolding create_purchase ◌>>=◌ lift validate_request create_purchase_ok catch authenticated_execute
    get_token ask store_get memory_store lookup is_access_valid execute authorize validated_endpoint
    log parse_model_response json emit
create_purchase_once_example =
    create_purchase_once up store authenticator with_token created purchase
      (record {
        result = record { purchase_id = 7; client_reference_number = "order-1" };
        raw = received;
      })
      refl

refund_purchase_once_example :
    count
      (sent_if is_authorized)
      (refund_purchase up
        (authenticated_execute up store authenticator)
        submitted
        reference
        (some 5000)
        true
        with_token).1.trace
    ≡ suc (count (sent_if is_authorized) with_token.trace)
unfolding refund_purchase ◌>>=◌ lift validate_request refund_ok catch authenticated_execute
    get_token ask store_get memory_store lookup is_access_valid execute authorize validated_endpoint
    log parse_model_response json emit
refund_purchase_once_example =
    refund_purchase_once up store authenticator with_token submitted reference (some 5000) true
      (record {
        result = record { refund_id = some 3; batch_id = none; transfer_id = none };
        raw = received;
      })
      refl

audited_execute_transparent_example :
    (audited_execute env "jibit.test" (execute env engine) payment_request no_store).0
    ≡ (execute env engine payment_request no_store).0
audited_execute_transparent_example =
    audited_execute_transparent env "jibit.test" (execute env engine) payment_request no_store

abbrev answers : RequestOptions → M (Unit {0}) RawResponse
answers o w =
    (ok (record { status_code = 200; headers = []; content = []; correlation_id = "id-1" }), w)

answers-Adds : Adds is_audit 0 0 (answers payment_request)
unfolding pure
answers-Adds = Adds-pure _

audited_execute_once_example :
    count is_audit (audited_execute env "jibit.test" answers payment_request no_store).1.trace
    ≡ audits (answers payment_request no_store).0 + count is_audit no_store.trace
audited_execute_once_example =
    audited_execute_once env "jibit.test" answers payment_request no_store answers-Adds

all_unaudited : (o : RequestOptions) → Adds is_audit 0 0 (answers o)
unfolding pure
all_unaudited o = Adds-pure _

create_purchase-audits_example :
    count is_audit (create_purchase env answers created purchase no_store).1.trace
    ≡ audits (create_purchase env answers created purchase no_store).0
      + count is_audit no_store.trace
unfolding create_purchase_ok
create_purchase-audits_example =
    create_purchase-audits env answers all_unaudited created purchase no_store refl

abbrev payload_with : String → Json
payload_with s = obj (field "password" (str s) (field "amount" (str "5") end))

passwords-Similar : Similar ascii (payload_with "one") (payload_with "two")
unfolding is_sensitive_key
passwords-Similar = objects (hidden refl (shown same finished))

redact_hides_example : redact ascii (payload_with "one") ≡ redact ascii (payload_with "two")
redact_hides_example =
    redact_hides ascii (payload_with "one") (payload_with "two") passwords-Similar

redact_misses_capital_aliases_example :
    redact ascii (obj (field "batchID" (str "B-1") end))
    ≡ obj (field "batchID" (str (redact_text ascii "B-1")) end)
redact_misses_capital_aliases_example =
    redact_misses_capital_aliases ascii "batchID" "B-1" (inl refl)

is_sensitive_key_of_part_example : is_sensitive_key ascii "old_password_hash" ≡ true
is_sensitive_key_of_part_example =
    is_sensitive_key_of_part ascii "password" "old_password_hash" (codes "old_") (codes "_hash")
      refl refl

-- ===== src/Tests/Callbacks.antt =====
-- Webhook callbacks at concrete settings.
use jibit_ir_sdk.Prelude.{◌≡◌, refl, subst, String, Bool, true, false, Option, none, some, List, []}
use jibit_ir_sdk.Prelude.Dict.{Dict}
use jibit_ir_sdk.Json.{Json, null}
use jibit_ir_sdk.Transport.{Bytes}
use jibit_ir_sdk.Effects.{Event}
use jibit_ir_sdk.Effects.Counts.{Adds}
use jibit_ir_sdk.Effects.Ends.{Either}
use jibit_ir_sdk.Services.Base.{Model}
use jibit_ir_sdk.Webhooks.{TrustSettings, Callback, parse_callback, or_false}
use jibit_ir_sdk.Webhooks.Trust.{Trusted, Rejection, parse_callback-Judged}
use jibit_ir_sdk.Webhooks.Claims.{is_claim, parse_callback_forged}
use jibit_ir_sdk.Tests.Fixtures.{env, no_store}

abbrev any_payload : Model Json
any_payload v = some v

abbrev settings : Bool → TrustSettings Json
settings answer = record {
  verifier = some (λ history body headers. some answer);
  deduplication_store = some (λ history key. some true);
  deduplication_key = some (λ payload. some "key");
}

abbrev callback : Callback
callback = record {
  payload = null;
  service = "payment_gateway";
  raw_body = [];
  headers = [];
  has_logger = true;
  correlation_id = none;
}

parse_callback-Judged_example :
    Either
      (λ r _. Trusted any_payload (settings true) callback r)
      (λ e _. Rejection callback e)
      (parse_callback env any_payload (settings true) callback no_store).0
      (parse_callback env any_payload (settings true) callback no_store).1
parse_callback-Judged_example =
    parse_callback-Judged env any_payload (settings true) callback no_store

abbrev RefusedBy : List Event → Option (List Event → Bytes → Dict String → Option Bool) → Type 0
RefusedBy history none = Unit
RefusedBy history (some v) = or_false (v history callback.raw_body callback.headers) ≡ false

refuses :
    (v : List Event → Bytes → Dict String → Option Bool) (history : List Event)
    → (settings false).verifier ≡ some v
    → or_false (v history callback.raw_body callback.headers) ≡ false
refuses v history e = subst (RefusedBy history) e refl

parse_callback_forged_example :
    Adds {S = Unit {0}} is_claim 0 0 (parse_callback env any_payload (settings false) callback)
parse_callback_forged_example =
    parse_callback_forged env any_payload (settings false) callback refuses

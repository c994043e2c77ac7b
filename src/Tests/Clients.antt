-- ===== src/Tests/Clients.antt =====
-- A client that is used on a concrete configuration.
use jibit_ir_sdk.Prelude.{◌≡◌, String, false, not, ◌&&◌, none, some, List, [], ◌∷◌, if◌then◌else◌}
use jibit_ir_sdk.Types.{transfers, kyc}
use jibit_ir_sdk.Services.Transfer.Models.{ach, transfer, SubmitBatchRequest, rials}
use jibit_ir_sdk.Services.Base.{Model}
use jibit_ir_sdk.Services.Transfer.{submit_batch}
use jibit_ir_sdk.Services.Safety.{Codecs, Unrepeatable}
use jibit_ir_sdk.Services.Careful.{AtMostOnce}
use jibit_ir_sdk.Auth.Provider.Locking.{is_authorized}
use jibit_ir_sdk.Client.{
  authenticated, Facade, JibitClient, new_client, Use, ask_facade, call_close, use_all, facade,
  facade_execute,
}
use jibit_ir_sdk.Client.Caches.{fresh_facade, facade-after_use}
use jibit_ir_sdk.Client.Lifecycle.{closes, transport_closed_once}
use jibit_ir_sdk.Client.Safety.{operation_once}
use jibit_ir_sdk.Tests.Fixtures.{env, config, store, authenticator}

abbrev uses : List Use
uses = ask_facade transfers ∷ call_close ∷ ask_facade kyc ∷ ask_facade transfers ∷ call_close ∷ []

abbrev client : JibitClient
client = new_client config none false

facade-after_use_example :
    (facade env transfers (use_all env uses (new_client config none false))).0
    ≡ fresh_facade env config client.engine transfers
facade-after_use_example = facade-after_use env config none false uses transfers

transport_closed_once_example :
    (use_all env uses (new_client config none false)).transport_closes
    ≡ (if closes uses && not false then 1 else 0)
transport_closed_once_example = transport_closed_once env config none false uses

abbrev codecs : Codecs
codecs = record {
  uuid = λ s. some s;
  ip = λ s. some s;
  b64encode = λ content. "";
  b64decode = λ s. none;
  loads = λ s. none;
}

abbrev transfer_facade : Facade
transfer_facade = record {
  access = authenticated authenticator;
  event_name = some "jibit.transfer.operation";
}

abbrev payout : SubmitBatchRequest
payout = record {
  batch_id = "batch-1";
  mode = transfer;
  transfers =
      (record {
        transfer_id = "transfer-1";
        mode = ach;
        destination = "IR062960000000100324200001";
        destination_first_name = none;
        destination_last_name = none;
        amount = 5000;
        currency = rials;
        description = "salary";
        metadata = none;
        notify_url = none;
        cancellable = false;
        payment_id = none;
      })
      ∷ [];
}

abbrev accepted : Model String
accepted v = some "accepted"

operation_once_example :
    AtMostOnce is_authorized
      (submit_batch env (facade_execute env store client transfer_facade) accepted payout)
operation_once_example =
    operation_once env store codecs client transfer_facade
      (submit_batch env (facade_execute env store client transfer_facade) accepted payout)
      (Unrepeatable.submit_batch accepted payout)

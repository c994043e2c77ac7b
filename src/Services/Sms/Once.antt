-- ===== src/Services/Sms/Once.antt =====
-- services/sms/service.py: every operation that must not be repeated sends at most one request that passes a
-- test, behind an executor that keeps that promise.
use jibit_ir_sdk.Prelude.{String, Option, Bool, refl}
use jibit_ir_sdk.Transport.{TransportRequest}
use jibit_ir_sdk.Effects.{Environment, M}
use jibit_ir_sdk.Effects.Counts.{Adds-skip, Adds-lift}
use jibit_ir_sdk.Response.{RawResponse}
use jibit_ir_sdk.Engine.{RequestOptions}
use jibit_ir_sdk.Services.Base.{Model}
use jibit_ir_sdk.Services.Careful.{IsCareful, AtMostOnce, typed_request-AtMostOnce}
use jibit_ir_sdk.Services.Sms.{send, send_pattern, create_bulk}
use jibit_ir_sdk.Services.Sms.Models.{SimpleSmsRequest, PatternSmsRequest, CreateBulkRequest}

module _ {S : Type 0} (env : Environment) (uuid : String → Option String)
    {q : TransportRequest → Bool} {executor : RequestOptions → M S RawResponse}
    (careful : IsCareful q executor) where
  pub send-AtMostOnce :
      {A : Type 0} (model : Model A) (r : SimpleSmsRequest)
      → AtMostOnce q (send env uuid executor model r)
  unfolding send
  send-AtMostOnce model r =
      Adds-skip _ _ (Adds-lift _) λ _. typed_request-AtMostOnce env careful _ _ refl

  pub send_pattern-AtMostOnce :
      {A : Type 0} (model : Model A) (r : PatternSmsRequest)
      → AtMostOnce q (send_pattern env uuid executor model r)
  unfolding send_pattern
  send_pattern-AtMostOnce model r =
      Adds-skip _ _ (Adds-lift _) λ _. typed_request-AtMostOnce env careful _ _ refl

  pub create_bulk-AtMostOnce :
      {A : Type 0} (model : Model A) (r : CreateBulkRequest)
      → AtMostOnce q (create_bulk env uuid executor model r)
  unfolding create_bulk
  create_bulk-AtMostOnce model r =
      Adds-skip _ _ (Adds-lift _) λ _. typed_request-AtMostOnce env careful _ _ refl

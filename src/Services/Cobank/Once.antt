-- ===== src/Services/Cobank/Once.antt =====
-- services/cobank/service.py: every operation that must not be repeated sends at most one request that passes a
-- test, behind an executor that keeps that promise.
use jibit_ir_sdk.Prelude.{String, Option, Bool, refl}
use jibit_ir_sdk.Transport.{TransportRequest}
use jibit_ir_sdk.Effects.{Environment, M}
use jibit_ir_sdk.Effects.Counts.{Adds-skip, Adds-lift}
use jibit_ir_sdk.Response.{RawResponse}
use jibit_ir_sdk.Engine.{RequestOptions}
use jibit_ir_sdk.Services.Base.{Model}
use jibit_ir_sdk.Services.Careful.{IsCareful, AtMostOnce, typed_request-AtMostOnce}
use jibit_ir_sdk.Services.Cobank.{create_settlement}
use jibit_ir_sdk.Services.Cobank.Models.{CreateSettlementRequest}

module _ {S : Type 0} (env : Environment) (uuid : String → Option String)
    {q : TransportRequest → Bool} {executor : RequestOptions → M S RawResponse}
    (careful : IsCareful q executor) where
  pub create_settlement-AtMostOnce :
      {A : Type 0} (model : Model A) (r : CreateSettlementRequest)
      → AtMostOnce q (create_settlement env uuid executor model r)
  unfolding create_settlement
  create_settlement-AtMostOnce model r =
      Adds-skip _ _ (Adds-lift _) λ _. typed_request-AtMostOnce env careful _ _ refl

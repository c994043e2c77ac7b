-- ===== src/Services/Contracts/Once.antt =====
-- services/contracts/service.py: every operation that must not be repeated sends at most one request that passes a
-- test, behind an executor that keeps that promise.
use jibit_ir_sdk.Prelude.{String, Option, Bool, refl}
use jibit_ir_sdk.Transport.{Bytes, TransportRequest}
use jibit_ir_sdk.Effects.{Environment, M}
use jibit_ir_sdk.Effects.Counts.{Adds-skip, Adds-lift}
use jibit_ir_sdk.Response.{RawResponse}
use jibit_ir_sdk.Engine.{RequestOptions}
use jibit_ir_sdk.Services.Base.{Model}
use jibit_ir_sdk.Services.Careful.{IsCareful, AtMostOnce, typed_request-AtMostOnce}
use jibit_ir_sdk.Services.Contracts.{ContractDraft, checked_track, call_at, initiate, cancel}

module _ {S : Type 0} (env : Environment) (b64encode : Bytes → String)
    (b64decode : String → Option Bytes) (ip : String → Option String) {q : TransportRequest → Bool}
    {executor : RequestOptions → M S RawResponse} (careful : IsCareful q executor) where
  pub initiate-AtMostOnce :
      {A : Type 0} (model : Model A) (draft : ContractDraft) (real_ip : String)
      → AtMostOnce q (initiate env b64encode b64decode ip executor model draft real_ip)
  unfolding initiate call_at
  initiate-AtMostOnce model draft real_ip =
      Adds-skip _ _ (Adds-lift _)
        λ _. Adds-skip _ _ (Adds-lift _) λ _. typed_request-AtMostOnce env careful _ _ refl

  pub cancel-AtMostOnce :
      {A : Type 0} (model : Model A) (given real_ip : String)
      → AtMostOnce q (cancel env b64encode b64decode ip executor model given real_ip)
  unfolding cancel checked_track call_at
  cancel-AtMostOnce model given real_ip =
      Adds-skip _ _ (Adds-lift _)
        λ _. Adds-skip _ _ (Adds-lift _) λ _. typed_request-AtMostOnce env careful _ _ refl

-- ===== src/Services/Transfer/Once.antt =====
-- services/transfer/service.py: every operation that must not be repeated sends at most one request that passes a
-- test, behind an executor that keeps that promise.
use jibit_ir_sdk.Prelude.{Bool, refl}
use jibit_ir_sdk.Transport.{TransportRequest}
use jibit_ir_sdk.Effects.{Environment, M}
use jibit_ir_sdk.Effects.Counts.{Adds-skip, Adds-lift}
use jibit_ir_sdk.Response.{RawResponse}
use jibit_ir_sdk.Engine.{RequestOptions}
use jibit_ir_sdk.Services.Base.{Model}
use jibit_ir_sdk.Services.Careful.{
  IsCareful, AtMostOnce, typed_request-AtMostOnce, status_request-AtMostOnce,
}
use jibit_ir_sdk.Services.Transfer.{select, submit_batch, cancel, retry_failed, set_receipt_enabled}
use jibit_ir_sdk.Services.Transfer.Models.{SubmitBatchRequest, TransferSelector}

module _ {S : Type 0} (env : Environment) {q : TransportRequest → Bool}
    {executor : RequestOptions → M S RawResponse} (careful : IsCareful q executor) where
  pub submit_batch-AtMostOnce :
      {A : Type 0} (model : Model A) (r : SubmitBatchRequest)
      → AtMostOnce q (submit_batch env executor model r)
  unfolding submit_batch
  submit_batch-AtMostOnce model r =
      Adds-skip _ _ (Adds-lift _) λ _. typed_request-AtMostOnce env careful _ _ refl

  pub cancel-AtMostOnce : (r : TransferSelector) → AtMostOnce q (cancel env executor r)
  unfolding cancel select
  cancel-AtMostOnce r =
      Adds-skip _ _ (Adds-lift _) λ _. status_request-AtMostOnce env careful _ refl

  pub retry_failed-AtMostOnce : (r : TransferSelector) → AtMostOnce q (retry_failed env executor r)
  unfolding retry_failed select
  retry_failed-AtMostOnce r =
      Adds-skip _ _ (Adds-lift _) λ _. status_request-AtMostOnce env careful _ refl

  pub set_receipt_enabled-AtMostOnce :
      {A : Type 0} (model : Model A) (enabled : Bool) (r : TransferSelector)
      → AtMostOnce q (set_receipt_enabled env executor model enabled r)
  unfolding set_receipt_enabled select
  set_receipt_enabled-AtMostOnce model enabled r =
      Adds-skip _ _ (Adds-lift _) λ _. typed_request-AtMostOnce env careful _ _ refl

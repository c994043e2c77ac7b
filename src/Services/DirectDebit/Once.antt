-- ===== src/Services/DirectDebit/Once.antt =====
-- services/direct_debit/service.py: every operation that must not be repeated sends at most one request that passes a
-- test, behind an executor that keeps that promise.
use jibit_ir_sdk.Prelude.{String, Option, Bool, refl}
use jibit_ir_sdk.Transport.{TransportRequest}
use jibit_ir_sdk.Effects.{Environment, M}
use jibit_ir_sdk.Effects.Counts.{Adds-skip, Adds-lift}
use jibit_ir_sdk.Response.{RawResponse}
use jibit_ir_sdk.Engine.{RequestOptions}
use jibit_ir_sdk.Services.Base.{Model}
use jibit_ir_sdk.Services.Careful.{
  IsCareful, AtMostOnce, typed_request-AtMostOnce, status_request-AtMostOnce,
}
use jibit_ir_sdk.Services.DirectDebit.{
  given_mandate, workflow_checked, debit_reference, refuse_if, create_mandate, collect,
  revoke_mandate, enable_mandate, disable_mandate, send_otp, accept_blue_bank_callback,
}
use jibit_ir_sdk.Services.DirectDebit.Models.{
  CreateMandateRequest, CollectRequest, BlueBankCallback,
}

module _ {S : Type 0} (env : Environment) {q : TransportRequest → Bool}
    {executor : RequestOptions → M S RawResponse} (careful : IsCareful q executor) where
  pub create_mandate-AtMostOnce :
      {A : Type 0} (model : Model A) (name : String) (given values : Option CreateMandateRequest)
      → AtMostOnce q (create_mandate env executor model name given values)
  unfolding create_mandate given_mandate workflow_checked
  create_mandate-AtMostOnce model name given values = Adds-skip _ _ (Adds-lift _) λ _.
      Adds-skip _ _ (Adds-lift _)
        λ _. Adds-skip _ _ (Adds-lift _) λ _. typed_request-AtMostOnce env careful _ _ refl

  pub collect-AtMostOnce :
      {A : Type 0} (model : Model A) (r : CollectRequest)
      → AtMostOnce q (collect env executor model r)
  unfolding collect
  collect-AtMostOnce model r =
      Adds-skip _ _ (Adds-lift _) λ _. typed_request-AtMostOnce env careful _ _ refl

  pub revoke_mandate-AtMostOnce :
      (given revoke_by : String) (additional_info : Option String)
      → AtMostOnce q (revoke_mandate env executor given revoke_by additional_info)
  unfolding revoke_mandate debit_reference refuse_if
  revoke_mandate-AtMostOnce given revoke_by additional_info =
      Adds-skip _ _ (Adds-lift _)
        λ _. Adds-skip _ _ (Adds-lift _) λ _. status_request-AtMostOnce env careful _ refl

  pub enable_mandate-AtMostOnce :
      (given enable_by : String) → AtMostOnce q (enable_mandate env executor given enable_by)
  unfolding enable_mandate debit_reference refuse_if
  enable_mandate-AtMostOnce given enable_by =
      Adds-skip _ _ (Adds-lift _)
        λ _. Adds-skip _ _ (Adds-lift _) λ _. status_request-AtMostOnce env careful _ refl

  pub disable_mandate-AtMostOnce :
      (given disable_by : String) → AtMostOnce q (disable_mandate env executor given disable_by)
  unfolding disable_mandate debit_reference refuse_if
  disable_mandate-AtMostOnce given disable_by =
      Adds-skip _ _ (Adds-lift _)
        λ _. Adds-skip _ _ (Adds-lift _) λ _. status_request-AtMostOnce env careful _ refl

  pub send_otp-AtMostOnce : (given : String) → AtMostOnce q (send_otp env executor given)
  unfolding send_otp debit_reference
  send_otp-AtMostOnce given =
      Adds-skip _ _ (Adds-lift _) λ _. status_request-AtMostOnce env careful _ refl

  pub accept_blue_bank_callback-AtMostOnce :
      (callback : Option BlueBankCallback)
      → AtMostOnce q (accept_blue_bank_callback env executor callback)
  unfolding accept_blue_bank_callback
  accept_blue_bank_callback-AtMostOnce callback =
      Adds-skip _ _ (Adds-lift _) λ _. status_request-AtMostOnce env careful _ refl

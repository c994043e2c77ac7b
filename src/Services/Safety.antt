-- ===== src/Services/Safety.antt =====
-- The operations of the services that must not be repeated: they move money, send a message, change a
-- mandate or a contract, or are billed.
use jibit_ir_sdk.Prelude.{ℕ, String, Bool, Option}
use jibit_ir_sdk.Json.{Json}
use jibit_ir_sdk.Transport.{Bytes, TransportRequest}
use jibit_ir_sdk.Effects.{Environment, M}
use jibit_ir_sdk.Response.{RawResponse, ApiResponse, StatusResult}
use jibit_ir_sdk.Engine.{RequestOptions}
use jibit_ir_sdk.Services.Base.{Model}
use jibit_ir_sdk.Services.Careful.{IsCareful, AtMostOnce}
use jibit_ir_sdk.Services.Transfer
use jibit_ir_sdk.Services.Transfer.Once as TransferOnce
use jibit_ir_sdk.Services.Transfer.Models.{SubmitBatchRequest, TransferSelector}
use jibit_ir_sdk.Services.Cobank
use jibit_ir_sdk.Services.Cobank.Once as CobankOnce
use jibit_ir_sdk.Services.Cobank.Models.{CreateSettlementRequest}
use jibit_ir_sdk.Services.DirectDebit
use jibit_ir_sdk.Services.DirectDebit.Once as DirectDebitOnce
use jibit_ir_sdk.Services.DirectDebit.Models.{
  CreateMandateRequest, CollectRequest, BlueBankCallback,
}
use jibit_ir_sdk.Services.Sms
use jibit_ir_sdk.Services.Sms.Once as SmsOnce
use jibit_ir_sdk.Services.Sms.Models.{SimpleSmsRequest, PatternSmsRequest, CreateBulkRequest}
use jibit_ir_sdk.Services.Contracts
use jibit_ir_sdk.Services.Contracts.Once as ContractsOnce
use jibit_ir_sdk.Services.Contracts.{ContractDraft}
use jibit_ir_sdk.Services.Kyc
use jibit_ir_sdk.Services.Kyc.Once as KycOnce
use jibit_ir_sdk.Services.Kyc.{VideoCheck, PhotoCheck}
use jibit_ir_sdk.Services.Kyc.Models.{MediaFile}
use jibit_ir_sdk.Services.Gateway
use jibit_ir_sdk.Services.Gateway.Once as GatewayOnce
use jibit_ir_sdk.Services.Gateway.{CreatePurchaseResult, RefundPurchaseResult}
use jibit_ir_sdk.Services.Gateway.Models.{CreatePurchaseRequest, PurchaseReference}

-- The parsers and encoders that the services take.
pub record Codecs : Type 0 where
  pub uuid : String → Option String
  pub ip : String → Option String
  pub b64encode : Bytes → String
  pub b64decode : String → Option Bytes
  pub loads : String → Option Json

-- A call of such an operation, with its arguments: the operations that the services mark as unsafe.
pub data Unrepeatable {S : Type 0} (env : Environment) (codecs : Codecs)
    (executor : RequestOptions → M S RawResponse) : (A : Type 0) → M S A → Type 1 where
  create_purchase :
      (model : Model CreatePurchaseResult) (r : CreatePurchaseRequest)
      → Unrepeatable env codecs executor
          (ApiResponse CreatePurchaseResult)
          (Gateway.create_purchase env executor model r)
  refund_purchase :
      (model : Model RefundPurchaseResult) (r : PurchaseReference) (amount : Option ℕ)
      (cancellable : Bool)
      → Unrepeatable env codecs executor
          (ApiResponse RefundPurchaseResult)
          (Gateway.refund_purchase env executor model r amount cancellable)
  refund_action :
      (operation : String) (refund_id : ℕ) (action : String) (transfer_id : Option String)
      → Unrepeatable env codecs executor
          (ApiResponse StatusResult)
          (Gateway.refund_action env executor operation refund_id action transfer_id)
  submit_batch :
      {A : Type 0} (model : Model A) (r : SubmitBatchRequest)
      → Unrepeatable env codecs executor
          (ApiResponse A)
          (Transfer.submit_batch env executor model r)
  cancel_transfer :
      (r : TransferSelector)
      → Unrepeatable env codecs executor (ApiResponse StatusResult) (Transfer.cancel env executor r)
  retry_failed :
      (r : TransferSelector)
      → Unrepeatable env codecs executor
          (ApiResponse StatusResult)
          (Transfer.retry_failed env executor r)
  set_receipt_enabled :
      {A : Type 0} (model : Model A) (enabled : Bool) (r : TransferSelector)
      → Unrepeatable env codecs executor
          (ApiResponse A)
          (Transfer.set_receipt_enabled env executor model enabled r)
  create_settlement :
      {A : Type 0} (model : Model A) (r : CreateSettlementRequest)
      → Unrepeatable env codecs executor
          (ApiResponse A)
          (Cobank.create_settlement env codecs.uuid executor model r)
  create_mandate :
      {A : Type 0} (model : Model A) (name : String) (given values : Option CreateMandateRequest)
      → Unrepeatable env codecs executor
          (ApiResponse A)
          (DirectDebit.create_mandate env executor model name given values)
  collect :
      {A : Type 0} (model : Model A) (r : CollectRequest)
      → Unrepeatable env codecs executor (ApiResponse A) (DirectDebit.collect env executor model r)
  revoke_mandate :
      (given revoke_by : String) (info : Option String)
      → Unrepeatable env codecs executor
          (ApiResponse StatusResult)
          (DirectDebit.revoke_mandate env executor given revoke_by info)
  enable_mandate :
      (given enable_by : String)
      → Unrepeatable env codecs executor
          (ApiResponse StatusResult)
          (DirectDebit.enable_mandate env executor given enable_by)
  disable_mandate :
      (given disable_by : String)
      → Unrepeatable env codecs executor
          (ApiResponse StatusResult)
          (DirectDebit.disable_mandate env executor given disable_by)
  send_otp :
      (given : String)
      → Unrepeatable env codecs executor
          (ApiResponse StatusResult)
          (DirectDebit.send_otp env executor given)
  blue_bank_callback :
      (callback : Option BlueBankCallback)
      → Unrepeatable env codecs executor
          (ApiResponse StatusResult)
          (DirectDebit.accept_blue_bank_callback env executor callback)
  send :
      {A : Type 0} (model : Model A) (r : SimpleSmsRequest)
      → Unrepeatable env codecs executor (ApiResponse A) (Sms.send env codecs.uuid executor model r)
  send_pattern :
      {A : Type 0} (model : Model A) (r : PatternSmsRequest)
      → Unrepeatable env codecs executor
          (ApiResponse A)
          (Sms.send_pattern env codecs.uuid executor model r)
  create_bulk :
      {A : Type 0} (model : Model A) (r : CreateBulkRequest)
      → Unrepeatable env codecs executor
          (ApiResponse A)
          (Sms.create_bulk env codecs.uuid executor model r)
  initiate_contract :
      {A : Type 0} (model : Model A) (draft : ContractDraft) (real_ip : String)
      → Unrepeatable env codecs executor (ApiResponse A) (
          Contracts.initiate env codecs.b64encode codecs.b64decode codecs.ip executor model draft
            real_ip)
  cancel_contract :
      {A : Type 0} (model : Model A) (given real_ip : String)
      → Unrepeatable env codecs executor (ApiResponse A) (
          Contracts.cancel env codecs.b64encode codecs.b64decode codecs.ip executor model given
            real_ip)
  verify_video :
      {A : Type 0} (model : Model A) (r : VideoCheck)
      → Unrepeatable env codecs executor
          (ApiResponse A)
          (Kyc.verify_video env codecs.loads executor model r)
  verify_photo :
      {A : Type 0} (model : Model A) (r : PhotoCheck)
      → Unrepeatable env codecs executor
          (ApiResponse A)
          (Kyc.verify_photo env codecs.loads executor model r)
  ocr_national_card :
      {A : Type 0} (model : Model A) (image : MediaFile) (is_back try_rotate : Option Bool)
      → Unrepeatable env codecs executor
          (ApiResponse A)
          (Kyc.ocr_national_card env codecs.loads executor model image is_back try_rotate)
  ocr_cheque :
      {A : Type 0} (model : Model A) (image : MediaFile)
      → Unrepeatable env codecs executor
          (ApiResponse A)
          (Kyc.ocr_cheque env codecs.loads executor model image)
  ocr_bank_card :
      {A : Type 0} (model : Model A) (image : MediaFile)
      → Unrepeatable env codecs executor
          (ApiResponse A)
          (Kyc.ocr_bank_card env codecs.loads executor model image)

module _ {S : Type 0} (env : Environment) (codecs : Codecs) {q : TransportRequest → Bool}
    {executor : RequestOptions → M S RawResponse} (careful : IsCareful q executor) where
  -- Behind a careful executor, each operation that the services mark as unsafe sends at most one
  -- request that passes the test, whatever its arguments and however its response reads.
  pub unrepeatable_once :
      {A : Type 0} (m : M S A) → Unrepeatable env codecs executor A m → AtMostOnce q m
  unrepeatable_once m (create_purchase model r) =
      GatewayOnce.create_purchase-AtMostOnce env careful model r
  unrepeatable_once m (refund_purchase model r amount cancellable) =
      GatewayOnce.refund_purchase-AtMostOnce env careful model r amount cancellable
  unrepeatable_once m (refund_action operation refund_id action transfer_id) =
      GatewayOnce.refund_action-AtMostOnce env careful operation refund_id action transfer_id
  unrepeatable_once m (submit_batch model r) =
      TransferOnce.submit_batch-AtMostOnce env careful model r
  unrepeatable_once m (cancel_transfer r) = TransferOnce.cancel-AtMostOnce env careful r
  unrepeatable_once m (retry_failed r) = TransferOnce.retry_failed-AtMostOnce env careful r
  unrepeatable_once m (set_receipt_enabled model enabled r) =
      TransferOnce.set_receipt_enabled-AtMostOnce env careful model enabled r
  unrepeatable_once m (create_settlement model r) =
      CobankOnce.create_settlement-AtMostOnce env codecs.uuid careful model r
  unrepeatable_once m (create_mandate model name given values) =
      DirectDebitOnce.create_mandate-AtMostOnce env careful model name given values
  unrepeatable_once m (collect model r) = DirectDebitOnce.collect-AtMostOnce env careful model r
  unrepeatable_once m (revoke_mandate given revoke_by info) =
      DirectDebitOnce.revoke_mandate-AtMostOnce env careful given revoke_by info
  unrepeatable_once m (enable_mandate given enable_by) =
      DirectDebitOnce.enable_mandate-AtMostOnce env careful given enable_by
  unrepeatable_once m (disable_mandate given disable_by) =
      DirectDebitOnce.disable_mandate-AtMostOnce env careful given disable_by
  unrepeatable_once m (send_otp given) = DirectDebitOnce.send_otp-AtMostOnce env careful given
  unrepeatable_once m (blue_bank_callback callback) =
      DirectDebitOnce.accept_blue_bank_callback-AtMostOnce env careful callback
  unrepeatable_once m (send model r) = SmsOnce.send-AtMostOnce env codecs.uuid careful model r
  unrepeatable_once m (send_pattern model r) =
      SmsOnce.send_pattern-AtMostOnce env codecs.uuid careful model r
  unrepeatable_once m (create_bulk model r) =
      SmsOnce.create_bulk-AtMostOnce env codecs.uuid careful model r
  unrepeatable_once m (initiate_contract model draft real_ip) =
      ContractsOnce.initiate-AtMostOnce env codecs.b64encode codecs.b64decode codecs.ip careful
        model draft real_ip
  unrepeatable_once m (cancel_contract model given real_ip) =
      ContractsOnce.cancel-AtMostOnce env codecs.b64encode codecs.b64decode codecs.ip careful model
        given real_ip
  unrepeatable_once m (verify_video model r) =
      KycOnce.verify_video-AtMostOnce env codecs.loads careful model r
  unrepeatable_once m (verify_photo model r) =
      KycOnce.verify_photo-AtMostOnce env codecs.loads careful model r
  unrepeatable_once m (ocr_national_card model image is_back try_rotate) =
      KycOnce.ocr_national_card-AtMostOnce env codecs.loads careful model image is_back try_rotate
  unrepeatable_once m (ocr_cheque model image) =
      KycOnce.ocr_cheque-AtMostOnce env codecs.loads careful model image
  unrepeatable_once m (ocr_bank_card model image) =
      KycOnce.ocr_bank_card-AtMostOnce env codecs.loads careful model image

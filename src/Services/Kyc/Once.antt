-- ===== src/Services/Kyc/Once.antt =====
-- services/kyc/service.py: every operation that must not be repeated sends at most one request that passes a
-- test, behind an executor that keeps that promise.
use jibit_ir_sdk.Prelude.{String, Option, Bool, refl}
use jibit_ir_sdk.Json.{Json}
use jibit_ir_sdk.Transport.{TransportRequest}
use jibit_ir_sdk.Effects.{Environment, M}
use jibit_ir_sdk.Effects.Counts.{Adds-skip, Adds-lift}
use jibit_ir_sdk.Response.{RawResponse}
use jibit_ir_sdk.Engine.{RequestOptions}
use jibit_ir_sdk.Services.Base.{Model}
use jibit_ir_sdk.Services.Careful.{IsCareful, AtMostOnce, typed_request-AtMostOnce}
use jibit_ir_sdk.Services.Kyc.{
  VideoCheck, PhotoCheck, accept_if, send_parts, post, ocr, verify_video, verify_photo,
  ocr_national_card, ocr_cheque, ocr_bank_card,
}
use jibit_ir_sdk.Services.Kyc.Models.{MediaFile}

module _ {S : Type 0} (env : Environment) (loads : String → Option Json)
    {q : TransportRequest → Bool} {executor : RequestOptions → M S RawResponse}
    (careful : IsCareful q executor) where
  pub verify_video-AtMostOnce :
      {A : Type 0} (model : Model A) (r : VideoCheck)
      → AtMostOnce q (verify_video env loads executor model r)
  unfolding verify_video accept_if post send_parts
  verify_video-AtMostOnce model r =
      Adds-skip _ _ (Adds-lift _) λ _. typed_request-AtMostOnce env careful _ _ refl

  pub verify_photo-AtMostOnce :
      {A : Type 0} (model : Model A) (r : PhotoCheck)
      → AtMostOnce q (verify_photo env loads executor model r)
  unfolding verify_photo accept_if send_parts
  verify_photo-AtMostOnce model r =
      Adds-skip _ _ (Adds-lift _) λ _. typed_request-AtMostOnce env careful _ _ refl

  pub ocr_national_card-AtMostOnce :
      {A : Type 0} (model : Model A) (image : MediaFile) (is_back try_rotate : Option Bool)
      → AtMostOnce q (ocr_national_card env loads executor model image is_back try_rotate)
  unfolding ocr_national_card ocr accept_if post send_parts
  ocr_national_card-AtMostOnce model image is_back try_rotate =
      Adds-skip _ _ (Adds-lift _) λ _. typed_request-AtMostOnce env careful _ _ refl

  pub ocr_cheque-AtMostOnce :
      {A : Type 0} (model : Model A) (image : MediaFile)
      → AtMostOnce q (ocr_cheque env loads executor model image)
  unfolding ocr_cheque ocr accept_if post send_parts
  ocr_cheque-AtMostOnce model image =
      Adds-skip _ _ (Adds-lift _) λ _. typed_request-AtMostOnce env careful _ _ refl

  pub ocr_bank_card-AtMostOnce :
      {A : Type 0} (model : Model A) (image : MediaFile)
      → AtMostOnce q (ocr_bank_card env loads executor model image)
  unfolding ocr_bank_card ocr accept_if post send_parts
  ocr_bank_card-AtMostOnce model image =
      Adds-skip _ _ (Adds-lift _) λ _. typed_request-AtMostOnce env careful _ _ refl

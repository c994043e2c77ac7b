-- ===== src/Services/Transfer/Models.antt =====
-- services/transfer/models.py: the request models. Records hold values of the declared types, whole
-- numbers that are not negative and, for a URL, its text; `..._ok` is the check of the bounds.
use jibit_ir_sdk.Prelude.{
  ℕ, String, Bool, ◌&&◌, ◌||◌, not, Option, List, [], ◌∷◌, pos, leb, is_some, is_empty, all,
}
use jibit_ir_sdk.Prelude.Text.{count_chars}
use jibit_ir_sdk.Json.{Json, bool, int, str, arr, obj, Fields, end, field, or_null}
use jibit_ir_sdk.Unicode.{Unicode}
use jibit_ir_sdk.Services.Fields.{bounded, text_between, payload, objects}
use jibit_ir_sdk.Services.Patterns.{is_iban, is_number}

pub data TransferMode : Type 0 where
  ach normal rtgs : TransferMode

abbrev pub transfer_mode : TransferMode → String
transfer_mode ach = "ACH"
transfer_mode normal = "NORMAL"
transfer_mode rtgs = "RTGS"

pub data SubmissionMode : Type 0 where
  batch transfer : SubmissionMode

abbrev pub submission_mode : SubmissionMode → String
submission_mode batch = "BATCH"
submission_mode transfer = "TRANSFER"

pub data TransferCurrency : Type 0 where
  irr rials toman : TransferCurrency

abbrev pub transfer_currency : TransferCurrency → String
transfer_currency irr = "IRR"
transfer_currency rials = "RIALS"
transfer_currency toman = "TOMAN"

pub data TransferState : Type 0 where
  initialized fee_computed core_submitted on_hold destination_identified cancelling cancelled :
      TransferState
  in_progress transferred failed retrying on_hold_balances_not_enough : TransferState
  on_hold_wait_for_manual_submission on_hold_wait_for_verify manually_failed : TransferState

abbrev pub transfer_state : TransferState → String
transfer_state initialized = "INITIALIZED"
transfer_state fee_computed = "FEE_COMPUTED"
transfer_state core_submitted = "CORE_SUBMITTED"
transfer_state on_hold = "ON_HOLD"
transfer_state destination_identified = "DESTINATION_IDENTIFIED"
transfer_state cancelling = "CANCELLING"
transfer_state cancelled = "CANCELLED"
transfer_state in_progress = "IN_PROGRESS"
transfer_state transferred = "TRANSFERRED"
transfer_state failed = "FAILED"
transfer_state retrying = "RETRYING"
transfer_state on_hold_balances_not_enough = "ON_HOLD_BALANCES_NOT_ENOUGH"
transfer_state on_hold_wait_for_manual_submission = "ON_HOLD_WAIT_FOR_MANUAL_SUBMISSION"
transfer_state on_hold_wait_for_verify = "ON_HOLD_WAIT_FOR_VERIFY"
transfer_state manually_failed = "MANUALLY_FAILED"

pub record TransferItemRequest : Type 0 where
  pub transfer_id : String
  pub mode : TransferMode
  pub destination : String
  pub destination_first_name : Option String
  pub destination_last_name : Option String
  pub amount : ℕ
  pub currency : TransferCurrency
  pub description : String
  pub metadata : Option String
  pub notify_url : Option String
  pub cancellable : Bool
  pub payment_id : Option String

pub record SubmitBatchRequest : Type 0 where
  pub batch_id : String
  pub mode : SubmissionMode
  pub transfers : List TransferItemRequest

pub record BatchGeneratorRequest : Type 0 where
  pub submission : SubmissionMode
  pub mode : TransferMode
  pub destination : String
  pub amount : ℕ
  pub currency : TransferCurrency
  pub description : Option String
  pub metadata : Option String
  pub notify_url : Option String
  pub cancellable : Bool
  pub payment_id : Option String

pub record TransferSelector : Type 0 where
  pub batch_id : Option String
  pub transfer_id : Option String

abbrev pub short : ℕ → String → Bool
short n s = leb (count_chars s) n

module _ (u : Unicode) where
  unfoldable pub transfer_item_ok : TransferItemRequest → Bool
  transfer_item_ok r =
      text_between 1 100 r.transfer_id
      && is_iban u r.destination
      && bounded (short 100) r.destination_first_name
      && bounded (short 100) r.destination_last_name
      && leb 1 r.amount
      && text_between 1 250 r.description
      && bounded (short 2000) r.metadata
      && bounded (is_number u) r.payment_id

  unfoldable pub submit_batch_ok : SubmitBatchRequest → Bool
  unfolding transfer_item_ok
  submit_batch_ok r =
      text_between 1 100 r.batch_id
      && not (is_empty r.transfers)
      && all transfer_item_ok r.transfers

  unfoldable pub batch_generator_ok : BatchGeneratorRequest → Bool
  batch_generator_ok r =
      is_iban u r.destination
      && leb 1 r.amount
      && bounded (short 250) r.description
      && bounded (short 2000) r.metadata
      && bounded (is_number u) r.payment_id

-- The bounds and `require_reference`.
unfoldable pub transfer_selector_ok : TransferSelector → Bool
transfer_selector_ok r =
    bounded (λ s. leb 1 (count_chars s)) r.batch_id
    && bounded (λ s. leb 1 (count_chars s)) r.transfer_id
    && (is_some r.batch_id || is_some r.transfer_id)

unfoldable pub transfer_item_payload : TransferItemRequest → Fields
transfer_item_payload r = payload (
    ("transferID", str r.transfer_id)
    ∷ ("transferMode", str (transfer_mode r.mode))
    ∷ ("destination", str r.destination)
    ∷ ("destinationFirstName", or_null r.destination_first_name)
    ∷ ("destinationLastName", or_null r.destination_last_name)
    ∷ ("amount", int (pos r.amount))
    ∷ ("currency", str (transfer_currency r.currency))
    ∷ ("description", str r.description)
    ∷ ("metadata", or_null r.metadata)
    ∷ ("notifyURL", or_null r.notify_url)
    ∷ ("cancellable", bool r.cancellable)
    ∷ ("paymentID", or_null r.payment_id)
    ∷ [])

unfoldable pub submit_batch_payload : SubmitBatchRequest → Fields
unfolding transfer_item_payload
submit_batch_payload r = payload (
    ("batchID", str r.batch_id)
    ∷ ("submissionMode", str (submission_mode r.mode))
    ∷ ("transfers", arr (objects transfer_item_payload r.transfers))
    ∷ [])

unfoldable pub batch_generator_payload : BatchGeneratorRequest → Fields
batch_generator_payload r = payload (
    ("submissionMode", str (submission_mode r.submission))
    ∷ ("transferMode", str (transfer_mode r.mode))
    ∷ ("destination", str r.destination)
    ∷ ("amount", int (pos r.amount))
    ∷ ("currency", str (transfer_currency r.currency))
    ∷ ("description", or_null r.description)
    ∷ ("metadata", or_null r.metadata)
    ∷ ("notifyURL", or_null r.notify_url)
    ∷ ("cancellable", bool r.cancellable)
    ∷ ("paymentID", or_null r.payment_id)
    ∷ [])

unfoldable pub transfer_selector_payload : TransferSelector → Fields
transfer_selector_payload r =
    payload (("batchID", or_null r.batch_id) ∷ ("transferID", or_null r.transfer_id) ∷ [])

-- `TransferFilterResult.accept_list_response`, before the model reads the value.
abbrev pub accept_list_response : Json → Json
accept_list_response (arr vs) = obj (field "transfers" (arr vs) end)
accept_list_response v = v

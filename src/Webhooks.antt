-- ===== src/Webhooks.antt =====
-- webhooks/base.py: untrusted callbacks. What the application supplies is a parameter; where a
-- callable may raise, `none` stands for its exception.
pub mod Trust
pub mod Claims
use jibit_ir_sdk.Prelude.{
  String, Bool, true, false, not, Option, none, some, List, [], ◌∷◌, if◌then◌else◌,
}
use jibit_ir_sdk.Prelude.Text.{is_blank}
use jibit_ir_sdk.Prelude.Dict.{Dict}
use jibit_ir_sdk.Json.{Json, str}
use jibit_ir_sdk.Exceptions.{webhook_verification, empty_context, Raised, jibit}
use jibit_ir_sdk.Logging.{info, warning, webhook_received, webhook_rejected}
use jibit_ir_sdk.Transport.{Bytes}
use jibit_ir_sdk.Effects.{
  Environment, Event, drew_id, verified, claimed, M, pure, raise, ask, log, ◌>>=◌, ◌>>◌,
}
use jibit_ir_sdk.Services.Base.{Model}

pub record ParsedCallback (P : Type 0) : Type 0 where
  pub payload : P
  pub verified : Bool
  pub duplicate : Bool

-- The arguments of `parse_callback` that concern trust.
pub record TrustSettings (P : Type 0) : Type 0 where
  pub verifier : Option (List Event → Bytes → Dict String → Option Bool)
  -- claim(key)
  pub deduplication_store : Option (List Event → String → Option Bool)
  pub deduplication_key : Option (P → Option String)

pub record Callback : Type 0 where
  pub payload : Json
  pub service : String
  pub raw_body : Bytes
  pub headers : Dict String
  pub has_logger : Bool
  pub correlation_id : Option String

unfoldable pub callback_error : String → String → String → Raised
callback_error service operation id = jibit (record {
  type = webhook_verification;
  context = record empty_context {
    service = some service;
    operation = some operation;
    correlation_id = some id;
  };
})

abbrev pub or_false : Option Bool → Bool
or_false none = false
or_false (some b) = b

abbrev pub accepted : {P : Type 0} → P → Bool → ParsedCallback P
accepted payload duplicate = record { payload = payload; verified = true; duplicate = duplicate }

module _ {S P : Type 0} (env : Environment) (model : Model P) (trust : TrustSettings P)
    (c : Callback) where
  -- `_log_rejection`, and the raise that follows it
  reject : String → String → String → M S (ParsedCallback P)
  reject reason operation id =
      (if c.has_logger
        then log env warning webhook_rejected
            (("service", str c.service) ∷ ("correlation_id", str id) ∷ ("reason", str reason) ∷ [])
        else pure tt)
      >> raise (callback_error c.service operation id)

  -- verifier is not None and verifier(raw_body, headers); an exception counts as a refusal
  verify : Option (List Event → Bytes → Dict String → Option Bool) → M S Bool
  verify none = pure false
  verify (some verifier) =
      ask verified (λ history. or_false (verifier history c.raw_body c.headers))

  claim_result : P → String → Option Bool → M S (ParsedCallback P)
  unfolding reject
  claim_result payload id none = reject "deduplication_failed" "deduplicate_callback" id
  claim_result payload id (some first) = pure (accepted payload (not first))

  claim_key :
      P → String → (List Event → String → Option Bool) → Option String → M S (ParsedCallback P)
  unfolding claim_result reject
  claim_key payload id claim none = reject "deduplication_failed" "deduplicate_callback" id
  claim_key payload id claim (some key) = do
    answer ← ask (claimed key) (λ history. claim history key)
    claim_result payload id answer

  deduplicate :
      P
      → String
      → Option (List Event → String → Option Bool)
      → Option (P → Option String)
      → M S (ParsedCallback P)
  unfolding claim_key
  deduplicate payload id none key_of = pure (accepted payload false)
  deduplicate payload id (some claim) none =
      reject "deduplication_misconfigured" "deduplicate_callback" id
  deduplicate payload id (some claim) (some key_of) = claim_key payload id claim (key_of payload)

  after_verification : P → String → Bool → M S (ParsedCallback P)
  unfolding deduplicate
  after_verification payload id false = reject "authenticity_rejected" "verify_callback" id
  after_verification payload id true =
      deduplicate payload id trust.deduplication_store trust.deduplication_key

  after_validation : String → Option P → M S (ParsedCallback P)
  unfolding after_verification verify
  after_validation id none = reject "invalid_payload" "parse_callback" id
  after_validation id (some payload) = do
    trusted ← verify trust.verifier
    after_verification payload id trusted

  correlate : Option String → M S String
  correlate none = ask drew_id env.new_id
  correlate (some given) = if is_blank given then ask drew_id env.new_id else pure given

  unfoldable pub parse_callback : M S (ParsedCallback P)
  unfolding after_validation correlate
  parse_callback = do
    id ← correlate c.correlation_id
    if c.has_logger
        then log env info webhook_received
            (("service", str c.service) ∷ ("correlation_id", str id) ∷ [])
        else pure tt
    after_validation id (model c.payload)

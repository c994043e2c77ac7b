-- ===== src/Webhooks/Trust.antt =====
-- webhooks/base.py: which callbacks are accepted.
use jibit_ir_sdk.Prelude.{
  ◌≡◌, refl, ◌∙◌, ap, String, Bool, true, false, not, Option, none, some, List,
}
use jibit_ir_sdk.Prelude.Text.{is_blank}
use jibit_ir_sdk.Prelude.Dict.{Dict}
use jibit_ir_sdk.Exceptions.{Raised}
use jibit_ir_sdk.Transport.{Bytes}
use jibit_ir_sdk.Effects.{Environment, Event, World, M, ◌>>=◌}
use jibit_ir_sdk.Effects.Ends.{
  Ends, Either, Ends-pure, Ends-raise, Ends-if, Ends-bind, Ends-ask, Ends-log, Anywhere, anywhere,
  Ends-known,
}
use jibit_ir_sdk.Services.Base.{Model}
use jibit_ir_sdk.Webhooks.{
  ParsedCallback, TrustSettings, Callback, callback_error, or_false, accepted, reject, verify,
  claim_result, claim_key, deduplicate, after_verification, after_validation, correlate,
  parse_callback,
}

-- How an accepted callback was told from a repeated one.
pub data Deduplicated {P : Type 0} (trust : TrustSettings P) (r : ParsedCallback P) : Type 0 where
  not_asked : trust.deduplication_store ≡ none → r.duplicate ≡ false → Deduplicated trust r
  by_key :
      (claim : List Event → String → Option Bool) (key_of : P → Option String)
      (history : List Event) (key : String)
      → trust.deduplication_store ≡ some claim
      → trust.deduplication_key ≡ some key_of
      → key_of r.payload ≡ some key
      → claim history key ≡ some (not r.duplicate)
      → Deduplicated trust r

-- What an accepted callback went through.
pub record Trusted {P : Type 0} (model : Model P) (trust : TrustSettings P) (c : Callback)
    (r : ParsedCallback P) : Type 0 where
  pub valid : model c.payload ≡ some r.payload
  pub verifier : List Event → Bytes → Dict String → Option Bool
  pub configured : trust.verifier ≡ some verifier
  pub history : List Event
  pub authentic : verifier history c.raw_body c.headers ≡ some true
  pub marked : r.verified ≡ true
  pub deduplicated : Deduplicated trust r

-- The errors of this module.
pub record Rejection (c : Callback) (e : Raised) : Type 0 where
  pub operation : String
  pub correlation_id : String
  pub same : e ≡ callback_error c.service operation correlation_id

or_false-true : (b : Option Bool) → or_false b ≡ true → b ≡ some true
or_false-true none h = absurd cc
or_false-true (some b) h = rw h refl

not-not : (b : Bool) → b ≡ not (not b)
not-not true = refl
not-not false = refl

module _ {S P : Type 0} (env : Environment) (model : Model P) (trust : TrustSettings P)
    (c : Callback) where
  abbrev Judged : {A : Type 0} → (A → Type 0) → M S A → Type 0
  Judged R = Ends Anywhere (Either (λ a _. R a) (λ e _. Rejection c e))

  reject-Judged :
      {R : ParsedCallback P → Type 0} (reason operation id : String)
      → Judged R (reject env model trust c reason operation id)
  unfolding reject
  reject-Judged reason operation id =
      Ends-bind {P = λ _ _. Unit} _ _
        (Ends-if c.has_logger _ _ (λ _. Ends-log env _ _ _ anywhere) (λ _. Ends-pure _ (λ _ _. tt)))
        λ _.
          Ends-raise _ (λ _ _. record { operation = operation; correlation_id = id; same = refl })

  claim_result-Judged :
      (payload : P) (id : String) (answer : Option Bool)
      → ((first : Bool)
          → answer ≡ some first
          → Trusted model trust c (accepted payload (not first)))
      → Judged (Trusted model trust c) (claim_result env model trust c payload id answer)
  unfolding claim_result
  claim_result-Judged payload id none h = reject-Judged _ _ _
  claim_result-Judged payload id (some first) h = Ends-pure _ (λ _ _. h first refl)

  claim_key-Judged :
      (payload : P) (id : String) (claim : List Event → String → Option Bool) (key : Option String)
      → ((k : String) (history : List Event) (first : Bool)
          → key ≡ some k
          → claim history k ≡ some first
          → Trusted model trust c (accepted payload (not first)))
      → Judged (Trusted model trust c) (claim_key env model trust c payload id claim key)
  unfolding claim_key
  claim_key-Judged payload id claim none h = reject-Judged _ _ _
  claim_key-Judged payload id claim (some key) h =
      Ends-bind {P = λ answer _. (history : List Event) × (claim history key ≡ answer)} _ _
        (Ends-ask _ _ (λ w _. (w.trace, refl)))
        λ answer. Ends-known _ λ source.
          claim_result-Judged payload id answer λ first e. h key source.0 first refl (source.1 ∙ e)

  deduplicate-Judged :
      (payload : P) (id : String) (store : Option (List Event → String → Option Bool))
      (key : Option (P → Option String))
      → trust.deduplication_store ≡ store
      → trust.deduplication_key ≡ key
      → ((duplicate : Bool)
          → Deduplicated trust (accepted payload duplicate)
          → Trusted model trust c (accepted payload duplicate))
      → Judged (Trusted model trust c) (deduplicate env model trust c payload id store key)
  unfolding deduplicate
  deduplicate-Judged payload id none key e f h = Ends-pure _ (λ _ _. h false (not_asked e refl))
  deduplicate-Judged payload id (some claim) none e f h = reject-Judged _ _ _
  deduplicate-Judged payload id (some claim) (some key_of) e f h =
      claim_key-Judged payload id claim (key_of payload) λ k history first same answer.
        h (not first) (by_key claim key_of history k e f same (answer ∙ ap some (not-not first)))

  after_verification-Judged :
      (payload : P) (id : String) (verifier : List Event → Bytes → Dict String → Option Bool)
      (history : List Event) (trusted : Bool)
      → model c.payload ≡ some payload
      → trust.verifier ≡ some verifier
      → or_false (verifier history c.raw_body c.headers) ≡ trusted
      → Judged (Trusted model trust c) (after_verification env model trust c payload id trusted)
  unfolding after_verification
  after_verification-Judged payload id verifier history false v e t = reject-Judged _ _ _
  after_verification-Judged payload id verifier history true v e t =
      deduplicate-Judged payload id _ _ refl refl λ duplicate d. record {
        valid = v;
        verifier = verifier;
        configured = e;
        history = history;
        authentic = or_false-true _ t;
        marked = refl;
        deduplicated = d;
      }

  verified-Judged :
      (payload : P) (id : String)
      (verifier : Option (List Event → Bytes → Dict String → Option Bool))
      → model c.payload ≡ some payload
      → trust.verifier ≡ verifier
      → Judged
          (Trusted model trust c)
          (verify env model trust c verifier >>= after_verification env model trust c payload id)
  unfolding verify after_verification
  verified-Judged payload id none v e =
      Ends-bind {P = λ trusted _. trusted ≡ false} _ _ (Ends-pure _ (λ _ _. refl))
        λ trusted. Ends-known _ λ off. rw off (reject-Judged _ _ _)
  verified-Judged payload id (some verifier) v e =
      Ends-bind
        {P = λ trusted _.
          (history : List Event) × (or_false (verifier history c.raw_body c.headers) ≡ trusted)}
        _ _ (Ends-ask _ _ (λ w _. (w.trace, refl)))
        λ trusted.
          Ends-known _
            λ source. after_verification-Judged payload id verifier source.0 trusted v e source.1

  after_validation-Judged :
      (id : String) (result : Option P)
      → model c.payload ≡ result
      → Judged (Trusted model trust c) (after_validation env model trust c id result)
  unfolding after_validation
  after_validation-Judged id none v = reject-Judged _ _ _
  after_validation-Judged id (some payload) v = verified-Judged payload id trust.verifier v refl

  correlate-Judged :
      (given : Option String) → Judged (λ _. Unit) (correlate env model trust c given)
  unfolding correlate
  correlate-Judged none = Ends-ask _ _ (λ _ _. tt)
  correlate-Judged (some s) =
      Ends-if (is_blank s) _ _ (λ _. Ends-ask _ _ (λ _ _. tt)) (λ _. Ends-pure _ (λ _ _. tt))

  -- A callback is accepted only if its payload fits the model, a verifier is configured, the
  -- verifier answered that this raw body with these headers is authentic, and the duplicate mark is
  -- what the deduplication store answered for the payload's key. Whatever else happens, the only
  -- exception is a webhook verification error of the callback's service.
  pub parse_callback-Judged :
      (w : World S)
      → let (outcome, left) = parse_callback env model trust c w in
        Either (λ r _. Trusted model trust c r) (λ e _. Rejection c e) outcome left
  unfolding parse_callback
  parse_callback-Judged w =
      (Ends-bind {P = λ _ _. Unit} _ _ (correlate-Judged c.correlation_id) λ id.
          Ends-bind {P = λ _ _. Unit} _ _
            (Ends-if c.has_logger _ _ (λ _. Ends-log env _ _ _ anywhere)
              (λ _. Ends-pure _ (λ _ _. tt)))
            λ _. after_validation-Judged id _ refl).holds
        w tt

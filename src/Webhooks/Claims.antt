-- ===== src/Webhooks/Claims.antt =====
-- webhooks/base.py: when the deduplication store is asked.
use jibit_ir_sdk.Prelude.{ℕ, ◌≡◌, refl, ap, String, Bool, true, false, Option, none, some, List}
use jibit_ir_sdk.Prelude.Text.{is_blank}
use jibit_ir_sdk.Prelude.Dict.{Dict}
use jibit_ir_sdk.Transport.{Bytes}
use jibit_ir_sdk.Effects.{Environment, Event, claimed, ok, pure, ask, ◌>>=◌}
use jibit_ir_sdk.Effects.Counts.{
  Adds, Adds-pure, Adds-raise, Adds-if, Adds-known, Adds-skip, Adds-ask_off, Adds-log,
}
use jibit_ir_sdk.Services.Base.{Model}
use jibit_ir_sdk.Webhooks.{
  TrustSettings, Callback, or_false, reject, verify, after_verification, after_validation,
  correlate, parse_callback,
}

abbrev pub is_claim : Event → Bool
is_claim (claimed key) = true
is_claim _ = false

module _ {S P : Type 0} (env : Environment) (model : Model P) (trust : TrustSettings P)
    (c : Callback) where
  reject-Adds :
      (reason operation id : String)
      → Adds {S = S} is_claim 0 0 (reject env model trust c reason operation id)
  unfolding reject
  reject-Adds reason operation id =
      Adds-skip _ _
        (Adds-if c.has_logger _ _ (λ _. Adds-log env _ _ _ (λ _. refl)) (λ _. Adds-pure _))
        λ _. Adds-raise _

  correlate-Adds :
      (given : Option String) → Adds {S = S} is_claim 0 0 (correlate env model trust c given)
  unfolding correlate
  correlate-Adds none = Adds-ask_off _ _ refl
  correlate-Adds (some s) = Adds-if (is_blank s) _ _ (λ _. Adds-ask_off _ _ refl) (λ _. Adds-pure _)

  parse-Adds :
      {hi : ℕ}
      → ((id : String)
          → Adds {S = S} is_claim 0 hi (after_validation env model trust c id (model c.payload)))
      → Adds {S = S} is_claim 0 hi (parse_callback env model trust c)
  unfolding parse_callback
  parse-Adds h = Adds-skip _ _ (correlate-Adds c.correlation_id) λ id.
      Adds-skip _ _
        (Adds-if c.has_logger _ _ (λ _. Adds-log env _ _ _ (λ _. refl)) (λ _. Adds-pure _))
        λ _. h id

  refused-Adds :
      (payload : P) (id : String)
      (verifier : Option (List Event → Bytes → Dict String → Option Bool))
      → ((v : List Event → Bytes → Dict String → Option Bool) (history : List Event)
          → verifier ≡ some v
          → or_false (v history c.raw_body c.headers) ≡ false)
      → Adds {S = S} is_claim 0 0
          (verify env model trust c verifier >>= after_verification env model trust c payload id)
  unfolding verify after_verification pure ask
  refused-Adds payload id none h =
      Adds-known _ (λ w. false) _ (Adds-pure _) (λ w. refl) (λ w. reject-Adds _ _ _)
  refused-Adds payload id (some v) h =
      Adds-known _ (λ w. false) _ (Adds-ask_off _ _ refl) (λ w. ap ok (h v w.trace refl))
        (λ w. reject-Adds _ _ _)

  forged-Adds :
      (id : String) (result : Option P)
      → ((v : List Event → Bytes → Dict String → Option Bool) (history : List Event)
          → trust.verifier ≡ some v
          → or_false (v history c.raw_body c.headers) ≡ false)
      → Adds {S = S} is_claim 0 0 (after_validation env model trust c id result)
  unfolding after_validation
  forged-Adds id none h = reject-Adds _ _ _
  forged-Adds id (some payload) h = refused-Adds payload id trust.verifier h

  -- Where no verifier is configured, or the verifier refuses the callback or fails on it, no key is
  -- claimed: a forged callback cannot use up the key of a real one.
  pub parse_callback_forged :
      ((v : List Event → Bytes → Dict String → Option Bool) (history : List Event)
        → trust.verifier ≡ some v
        → or_false (v history c.raw_body c.headers) ≡ false)
      → Adds {S = S} is_claim 0 0 (parse_callback env model trust c)
  parse_callback_forged h = parse-Adds λ id. forged-Adds id _ h

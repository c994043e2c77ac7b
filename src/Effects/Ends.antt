-- ===== src/Effects/Ends.antt =====
-- What is known of the outcome of an action, and of the world that it leaves.
use jibit_ir_sdk.Effects.Counts.{Adds, count}
use jibit_ir_sdk.Prelude.{
  ℕ, ◌+◌, ◌≤◌, arith, ◌≡◌, refl, Bool, true, false, if◌then◌else◌, List, ◌∷◌,
}
use jibit_ir_sdk.Prelude.Dict.{Dict}
use jibit_ir_sdk.Json.{Json}
use jibit_ir_sdk.Exceptions.{Raised}
use jibit_ir_sdk.Logging.{Level, EventName}
use jibit_ir_sdk.Effects.{
  Environment, Event, World, Outcome, ok, raised, M, pure, raise, catch, resume, continue, ◌>>=◌,
  act, ask, log,
}

-- On every run that starts in a world with `I`, the outcome and the world left behind are in `P`.
pub record Ends {S A : Type 0} (I : World S → Type 0) (P : Outcome A → World S → Type 0) (m : M S A)
    : Type 0 where
  pub holds : (w : World S) → I w → P (m w).0 (m w).1

abbrev pub Anywhere : {S : Type 0} → World S → Type 0
Anywhere w = Unit

-- A property of what is returned, next to one of what is raised.
abbrev pub Either :
    {S A : Type 0}
    → (A → World S → Type 0)
    → (Raised → World S → Type 0)
    → Outcome A
    → World S
    → Type 0
Either P Q (ok a) w = P a w
Either P Q (raised e) w = Q e w

module _ {S A : Type 0} {I : World S → Type 0} {P : A → World S → Type 0}
    {Q : Raised → World S → Type 0} where
  pub Ends-pure : (a : A) → ((w : World S) → I w → P a w) → Ends I (Either P Q) (pure a)
  unfolding pure
  Ends-pure a h = record { holds = h }

  pub Ends-raise :
      (e : Raised) → ((w : World S) → I w → Q e w) → Ends I (Either P Q) (raise {A = A} e)
  unfolding raise
  Ends-raise e h = record { holds = h }

  pub Ends-if :
      (b : Bool) (m n : M S A)
      → (b ≡ true → Ends I (Either P Q) m)
      → (b ≡ false → Ends I (Either P Q) n)
      → Ends I (Either P Q) (if b then m else n)
  Ends-if true m n h k = h refl
  Ends-if false m n h k = k refl

  pub Ends-ask :
      (e : Event) (answer : List Event → A)
      → ((w : World S) → I w → P (answer w.trace) (record w { trace = e ∷ w.trace }))
      → Ends I (Either P Q) (ask e answer)
  unfolding ask
  Ends-ask e answer h = record { holds = h }

  pub Ends-from :
      {J : World S → Type 0} (m : M S A)
      → ((w : World S) → I w → J w)
      → Ends J (Either P Q) m
      → Ends I (Either P Q) m
  Ends-from m h e = record { holds = λ w i. e.holds w (h w i) }

-- A condition that does not look at the world is a hypothesis.
pub Ends-known :
    {S A X : Type 0} {P : Outcome A → World S → Type 0} (m : M S A)
    → (X → Ends Anywhere P m)
    → Ends (λ _. X) P m
Ends-known m h = record { holds = λ w x. (h x).holds w tt }

pub Ends-weaken :
    {S A : Type 0} {I : World S → Type 0} {P Q : Outcome A → World S → Type 0} (m : M S A)
    → ((r : Outcome A) (w : World S) → P r w → Q r w)
    → Ends I P m
    → Ends I Q m
Ends-weaken m f h = record { holds = λ w i. f _ _ (h.holds w i) }

module _ {S A B : Type 0} {P : A → World S → Type 0} {R : B → World S → Type 0}
    {Q : Raised → World S → Type 0} where
  continue-Ends :
      (r : Outcome A) (f : A → M S B) (w : World S)
      → Either P Q r w
      → ((a : A) → Ends (P a) (Either R Q) (f a))
      → Either R Q (continue r f w).0 (continue r f w).1
  continue-Ends (ok a) f w p h = (h a).holds w p
  continue-Ends (raised e) f w p h = p

module _ {S A : Type 0} {P : A → World S → Type 0} {Q R : Raised → World S → Type 0} where
  resume-Ends :
      (r : Outcome A) (handler : Raised → M S A) (w : World S)
      → Either P Q r w
      → ((e : Raised) → Ends (Q e) (Either P R) (handler e))
      → Either P R (resume r handler w).0 (resume r handler w).1
  resume-Ends (ok a) handler w p h = p
  resume-Ends (raised e) handler w p h = (h e).holds w p

module _ {S A B : Type 0} {I : World S → Type 0} {P : A → World S → Type 0}
    {R : B → World S → Type 0} {Q : Raised → World S → Type 0} where
  -- The middle condition is what the first part returns in.
  pub Ends-bind :
      (m : M S A) (f : A → M S B)
      → Ends I (Either P Q) m
      → ((a : A) → Ends (P a) (Either R Q) (f a))
      → Ends I (Either R Q) (m >>= f)
  unfolding ◌>>=◌
  Ends-bind m f a h = record {
    holds = λ w i. let (r, w') = m w in continue-Ends r f w' (a.holds w i) h;
  }

module _ {S A : Type 0} {I : World S → Type 0} {P : A → World S → Type 0}
    {Q R : Raised → World S → Type 0} where
  pub Ends-catch :
      (m : M S A) (handler : Raised → M S A)
      → Ends I (Either P Q) m
      → ((e : Raised) → Ends (Q e) (Either P R) (handler e))
      → Ends I (Either P R) (catch m handler)
  unfolding catch
  Ends-catch m handler a h = record {
    holds = λ w i. let (r, w') = m w in resume-Ends r handler w' (a.holds w i) h;
  }

Either-unit :
    {S A : Type 0} (w : World S) (r : Outcome A) → Either {S = S} (λ _ _. Unit) (λ _ _. Unit) r w
Either-unit w (ok a) = tt
Either-unit w (raised e) = tt

-- Every action ends somehow.
pub any_end : {S A : Type 0} (m : M S A) → Ends Anywhere (Either (λ _ _. Unit) (λ _ _. Unit)) m
any_end m = record { holds = λ w i. Either-unit (m w).1 (m w).0 }

-- Conditions that only look at the store survive an event.
pub record IgnoresTrace {S : Type 0} (I : World S → Type 0) : Type 0 where
  pub moved : (w : World S) (es : List Event) → I w → I (record w { trace = es })

module _ {S : Type 0} {I : World S → Type 0} {Q : Raised → World S → Type 0} where
  pub Ends-act : (e : Event) → IgnoresTrace I → Ends I (Either (λ _ w. I w) Q) (act e)
  unfolding act
  Ends-act e t = record { holds = λ w i. t.moved w (e ∷ w.trace) i }

  pub Ends-log :
      (env : Environment) (level : Level) (event : EventName) (fields : Dict Json)
      → IgnoresTrace I
      → Ends I (Either (λ _ w. I w) Q) (log env level event fields)
  unfolding log
  Ends-log env level event fields t =
      Ends-if env.logging_enabled _ _ (λ _. Ends-act _ t) (λ _. Ends-pure tt (λ w i. i))

pub anywhere : {S : Type 0} → IgnoresTrace {S = S} Anywhere
anywhere = record { moved = λ w es i. tt }

module _ {S A B : Type 0} (P : A → World S → Type 0) {p : Event → Bool} where
  continue_after :
      {hi : ℕ} (r : Outcome A) (f : A → M S B) (w : World S)
      → Either P (λ e _. Unit) r w
      → ((a : A) → P a w → Adds p 0 hi (f a))
      → (count p w.trace ≤ count p (continue r f w).1.trace)
        × (count p (continue r f w).1.trace ≤ hi + count p w.trace)
  continue_after (ok a) f w x h = (omega (arith, (h a x).at_least w), (h a x).at_most w)
  continue_after (raised e) f w x h = (omega arith, omega arith)

  -- What is counted after a part may rely on how the part ended.
  pub Adds-after :
      {lo hi hi' : ℕ} (m : M S A) (f : A → M S B)
      → Adds p lo hi m
      → Ends Anywhere (Either P (λ e _. Unit)) m
      → ((a : A) (w : World S) → P a w → Adds p 0 hi' (f a))
      → Adds p lo (hi + hi') (m >>= f)
  unfolding ◌>>=◌
  Adds-after m f a e h = record {
    at_least = λ w. omega (
      arith,
      a.at_least w,
      (continue_after (m w).0 f (m w).1 (e.holds w tt) (λ x. h x (m w).1)).0,
    );
    at_most = λ w. omega (
      arith,
      a.at_most w,
      (continue_after (m w).0 f (m w).1 (e.holds w tt) (λ x. h x (m w).1)).1,
    );
  }

-- ===== src/Effects/Keeps.antt =====
-- Actions that keep a property of the history.
use jibit_ir_sdk.Prelude.{◌≡◌, refl, Bool, true, false, List, ◌∷◌, if◌then◌else◌}
use jibit_ir_sdk.Prelude.Dict.{Dict}
use jibit_ir_sdk.Json.{Json}
use jibit_ir_sdk.Exceptions.{Raised}
use jibit_ir_sdk.Logging.{Level, EventName}
use jibit_ir_sdk.Effects.{
  Environment, Event, sent, locked, unlocked, logged, World, Outcome, ok, raised, M, pure, raise,
  lift, catch, resume, continue, ◌>>=◌, act, ask, log,
}

-- On every run that starts with a history in `I`, the history that is left is in `I`.
pub record Keeps {S A : Type 0} (I : List Event → Type 0) (m : M S A) : Type 0 where
  pub preserved : (w : World S) → I w.trace → I (m w).1.trace

-- Events that are neither a request nor about a lock.
abbrev pub is_plain : Event → Bool
is_plain (sent r) = false
is_plain (locked key) = false
is_plain (unlocked key) = false
is_plain _ = true

module _ {S A : Type 0} {I : List Event → Type 0} where
  pub Keeps-pure : (a : A) → Keeps {S = S} I (pure a)
  unfolding pure
  Keeps-pure a = record { preserved = λ w i. i }

  pub Keeps-raise : (e : Raised) → Keeps {S = S} {A = A} I (raise e)
  unfolding raise
  Keeps-raise e = record { preserved = λ w i. i }

  pub Keeps-lift : (r : Outcome A) → Keeps {S = S} I (lift r)
  unfolding lift
  Keeps-lift r = record { preserved = λ w i. i }

  pub Keeps-if : (b : Bool) (m n : M S A) → Keeps I m → Keeps I n → Keeps I (if b then m else n)
  Keeps-if true m n h k = h
  Keeps-if false m n h k = k

  resume-Keeps :
      (r : Outcome A) (h : Raised → M S A) (w : World S)
      → ((e : Raised) → Keeps I (h e))
      → I w.trace
      → I (resume r h w).1.trace
  resume-Keeps (ok a) h w k i = i
  resume-Keeps (raised e) h w k i = (k e).preserved w i

  pub Keeps-catch :
      (m : M S A) (h : Raised → M S A)
      → Keeps I m
      → ((e : Raised) → Keeps I (h e))
      → Keeps I (catch m h)
  unfolding catch
  Keeps-catch m h k l = record {
    preserved = λ w i. resume-Keeps (m w).0 h (m w).1 l (k.preserved w i);
  }

  pub Keeps-ask :
      (e : Event) (answer : List Event → A)
      → ((es : List Event) → I es → I (e ∷ es))
      → Keeps {S = S} I (ask e answer)
  unfolding ask
  Keeps-ask e answer h = record { preserved = λ w i. h w.trace i }

module _ {S A B : Type 0} {I : List Event → Type 0} where
  continue-Keeps :
      (r : Outcome A) (f : A → M S B) (w : World S)
      → ((a : A) → Keeps I (f a))
      → I w.trace
      → I (continue r f w).1.trace
  continue-Keeps (ok a) f w h i = (h a).preserved w i
  continue-Keeps (raised e) f w h i = i

  pub Keeps-bind :
      (m : M S A) (f : A → M S B) → Keeps I m → ((a : A) → Keeps I (f a)) → Keeps I (m >>= f)
  unfolding ◌>>=◌
  Keeps-bind m f h k = record {
    preserved = λ w i. continue-Keeps (m w).0 f (m w).1 k (h.preserved w i);
  }

module _ {S A B : Type 0} {I : List Event → Type 0} where
  -- Where the answer of the first part is known, the rest is asked at that answer only.
  pub preserved-known :
      (m : M S A) (f : A → M S B) (w : World S) (a : A)
      → (m w).0 ≡ ok a
      → Keeps I m
      → Keeps I (f a)
      → I w.trace
      → I ((m >>= f) w).1.trace
  unfolding ◌>>=◌
  preserved-known m f w a e h k i = rw (e, continue) (k.preserved (m w).1 (h.preserved w i))

module _ {S : Type 0} {I : List Event → Type 0} where
  pub Keeps-act : (e : Event) → ((es : List Event) → I es → I (e ∷ es)) → Keeps {S = S} I (act e)
  unfolding act
  Keeps-act e h = record { preserved = λ w i. h w.trace i }

  pub Keeps-log :
      (env : Environment) (level : Level) (event : EventName) (fields : Dict Json)
      → ((e : Event) → is_plain e ≡ true → (es : List Event) → I es → I (e ∷ es))
      → Keeps {S = S} I (log env level event fields)
  unfolding log
  Keeps-log env level event fields h =
      Keeps-if env.logging_enabled _ _ (Keeps-act _ (h (logged level event _) refl)) (Keeps-pure tt)

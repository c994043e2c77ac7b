-- ===== src/Effects/Counts.antt =====
-- How many events of a kind an action adds to the history, whatever the environment answers.
use jibit_ir_sdk.Prelude.{
  ℕ, suc, ◌+◌, ◌≤◌, ◌≡◌, refl, Bool, true, false, List, [], ◌∷◌, arith, if◌then◌else◌, String,
  Option, none, some,
}
use jibit_ir_sdk.Prelude.Dict.{Dict}
use jibit_ir_sdk.Json.{Json, Fields}
use jibit_ir_sdk.Exceptions.{Raised}
use jibit_ir_sdk.Logging.{Level, EventName}
use jibit_ir_sdk.Effects.{
  Environment, Event, logged, locked, unlocked, World, Outcome, ok, raised, M, pure, raise, lift,
  catch, resume, with_lock, entered, continue, ◌>>=◌, act, ask, log,
}

-- The events that a test counts.
abbrev pub count : (Event → Bool) → List Event → ℕ
count p [] = 0
count p (e ∷ es) = if p e then suc (count p es) else count p es

abbrev pub weight : (Event → Bool) → Event → ℕ
weight p e = if p e then 1 else 0

-- On every run `m` adds at least `lo` and at most `hi` counted events.
pub record Adds {S A : Type 0} (p : Event → Bool) (lo hi : ℕ) (m : M S A) : Type 0 where
  pub at_least : (w : World S) → lo + count p w.trace ≤ count p (m w).1.trace
  pub at_most : (w : World S) → count p (m w).1.trace ≤ hi + count p w.trace

-- On no run does `m` raise.
pub record Returns {S A : Type 0} (m : M S A) : Type 0 where
  pub answer : (w : World S) → (a : A) × ((m w).0 ≡ ok a)

module _ {S A : Type 0} {p : Event → Bool} where
  pub Adds-pure : (a : A) → Adds {S = S} p 0 0 (pure a)
  unfolding pure
  Adds-pure a = record { at_least = λ w. omega arith; at_most = λ w. omega arith }

  pub Adds-raise : (e : Raised) → Adds {S = S} {A = A} p 0 0 (raise e)
  unfolding raise
  Adds-raise e = record { at_least = λ w. omega arith; at_most = λ w. omega arith }

  pub Adds-weaken :
      {lo hi lo' hi' : ℕ} (m : M S A) → lo' ≤ lo → hi ≤ hi' → Adds p lo hi m → Adds p lo' hi' m
  Adds-weaken m h k a = record {
    at_least = λ w. omega (arith, a.at_least w);
    at_most = λ w. omega (arith, a.at_most w);
  }

  -- What adds nothing fits under any bound.
  pub Adds-none : {hi : ℕ} (m : M S A) → Adds p 0 0 m → Adds p 0 hi m
  Adds-none m a = Adds-weaken m (omega arith) (omega arith) a

  pub Adds-if :
      {lo hi : ℕ} (b : Bool) (m n : M S A)
      → (b ≡ true → Adds p lo hi m)
      → (b ≡ false → Adds p lo hi n)
      → Adds p lo hi (if b then m else n)
  Adds-if true m n h k = h refl
  Adds-if false m n h k = k refl

  entered-Adds :
      {hi : ℕ} (env : Environment) (key : String) (m : M S A) (failure : Option Raised)
      → p (locked key) ≡ false
      → p (unlocked key) ≡ false
      → Adds p 0 hi m
      → Adds p 0 hi (entered env key m failure)
  entered-Adds env key m (some e) h k a = record {
    at_least = λ w. omega arith;
    at_most = λ w. omega arith;
  }
  entered-Adds env key m none h k a = record {
    at_least = λ w. rw k (rw h at (a.at_least (record w { trace = locked key ∷ w.trace })));
    at_most = λ w. rw k (rw h at (a.at_most (record w { trace = locked key ∷ w.trace })));
  }

  -- The lock's own events are not counted.
  pub Adds-with_lock :
      {hi : ℕ} (env : Environment) (key : String) (m : M S A)
      → p (locked key) ≡ false
      → p (unlocked key) ≡ false
      → Adds p 0 hi m
      → Adds p 0 hi (with_lock env key m)
  unfolding with_lock
  Adds-with_lock env key m h k a = record {
    at_least =
        λ w. (entered-Adds env key m (env.lock_error (locked key ∷ w.trace)) h k a).at_least w;
    at_most = λ w. (entered-Adds env key m (env.lock_error (locked key ∷ w.trace)) h k a).at_most w;
  }

module _ {S A B : Type 0} {p : Event → Bool} where
  continue-Adds :
      {lo hi : ℕ} (r : Outcome A) (f : A → M S B) (w : World S)
      → ((a : A) → Adds p lo hi (f a))
      → count p (continue r f w).1.trace ≤ hi + count p w.trace
  continue-Adds (ok a) f w h = (h a).at_most w
  continue-Adds (raised e) f w h = omega arith

  continue_grows :
      {lo hi : ℕ} (r : Outcome A) (f : A → M S B) (w : World S)
      → ((a : A) → Adds p lo hi (f a))
      → count p w.trace ≤ count p (continue r f w).1.trace
  continue_grows (ok a) f w h = omega (arith, (h a).at_least w)
  continue_grows (raised e) f w h = omega arith

  -- The rest may be skipped, so only the first part counts from below.
  pub Adds-bind :
      {lo hi lo' hi' : ℕ} (m : M S A) (f : A → M S B)
      → Adds p lo hi m
      → ((a : A) → Adds p lo' hi' (f a))
      → Adds p lo (hi + hi') (m >>= f)
  unfolding ◌>>=◌
  Adds-bind m f a h = record {
    at_least = λ w. let (r, w') = m w in omega (arith, a.at_least w, continue_grows r f w' h);
    at_most = λ w. let (r, w') = m w in omega (arith, a.at_most w, continue-Adds r f w' h);
  }

  continue_total :
      {lo hi : ℕ} (r : Outcome A) (f : A → M S B) (w : World S) (a : A)
      → r ≡ ok a
      → ((a : A) → Adds p lo hi (f a))
      → lo + count p w.trace ≤ count p (continue r f w).1.trace
  continue_total (ok a) f w b e h = (h a).at_least w
  continue_total (raised x) f w b e h = cc

  -- After an action that never raises, the rest counts from below too.
  pub Adds-then :
      {lo hi lo' hi' : ℕ} (m : M S A) (f : A → M S B)
      → Returns m
      → Adds p lo hi m
      → ((a : A) → Adds p lo' hi' (f a))
      → Adds p (lo + lo') (hi + hi') (m >>= f)
  unfolding ◌>>=◌
  Adds-then m f t a h = record {
    at_least = λ w.
        let (r, w') = m w in
        let (x, e) = t.answer w in omega (arith, a.at_least w, continue_total r f w' x e h);
    at_most = (Adds-bind m f a h).at_most;
  }

  pub Adds-raise-bind : (e : Raised) (f : A → M S B) → Adds p 0 0 (raise e >>= f)
  unfolding ◌>>=◌
  Adds-raise-bind e f = record { at_least = λ w. omega arith; at_most = λ w. omega arith }

  -- An uncounted part, which may raise.
  pub Adds-skip :
      {hi : ℕ} (m : M S A) (f : A → M S B)
      → Adds p 0 0 m
      → ((a : A) → Adds p 0 hi (f a))
      → Adds p 0 hi (m >>= f)
  Adds-skip m f a h = Adds-weaken (m >>= f) (omega arith) (omega arith) (Adds-bind m f a h)

  -- An uncounted part, which never raises.
  pub Adds-pass :
      {lo hi : ℕ} (m : M S A) (f : A → M S B)
      → Returns m
      → Adds p 0 0 m
      → ((a : A) → Adds p lo hi (f a))
      → Adds p lo hi (m >>= f)
  Adds-pass m f t a h = Adds-weaken (m >>= f) (omega arith) (omega arith) (Adds-then m f t a h)

module _ {S A : Type 0} {p : Event → Bool} where
  resume-Adds :
      {hi : ℕ} (r : Outcome A) (h : Raised → M S A) (w : World S)
      → ((e : Raised) → Adds p 0 hi (h e))
      → (count p w.trace ≤ count p (resume r h w).1.trace)
        × (count p (resume r h w).1.trace ≤ hi + count p w.trace)
  resume-Adds (ok a) h w k = (omega arith, omega arith)
  resume-Adds (raised e) h w k = (omega (arith, (k e).at_least w), (k e).at_most w)

  pub Adds-catch :
      {lo hi hi' : ℕ} (m : M S A) (h : Raised → M S A)
      → Adds p lo hi m
      → ((e : Raised) → Adds p 0 hi' (h e))
      → Adds p lo (hi + hi') (catch m h)
  unfolding catch
  Adds-catch m h a k = record {
    at_least = λ w. omega (arith, a.at_least w, (resume-Adds (m w).0 h (m w).1 k).0);
    at_most = λ w. omega (arith, a.at_most w, (resume-Adds (m w).0 h (m w).1 k).1);
  }

  -- A call whose event is not counted, whatever it does to the store.
  pub Adds-quiet_call :
      (m : M S A) → ((w : World S) → count p (m w).1.trace ≡ count p w.trace) → Adds p 0 0 m
  Adds-quiet_call m h = record {
    at_least = λ w. omega (arith, h w);
    at_most = λ w. omega (arith, h w);
  }

  pub Adds-lift : (r : Outcome A) → Adds {S = S} p 0 0 (lift r)
  unfolding lift
  Adds-lift r = record { at_least = λ w. omega arith; at_most = λ w. omega arith }

module _ {S A B : Type 0} {p : Event → Bool} where
  -- An uncounted part whose answer is known where it is asked.
  pub Adds-known :
      {hi : ℕ} (m : M S A) (answer : World S → A) (f : A → M S B)
      → Adds p 0 0 m
      → ((w : World S) → (m w).0 ≡ ok (answer w))
      → ((w : World S) → Adds p 0 hi (f (answer w)))
      → Adds p 0 hi (m >>= f)
  unfolding ◌>>=◌
  Adds-known m answer f a e h = record {
    at_least = λ w.
        rw (e w, continue) (let next = h w in omega (arith, a.at_least w, next.at_least (m w).1));
    at_most = λ w.
        rw (e w, continue) (let next = h w in omega (arith, a.at_most w, next.at_most (m w).1));
  }

module _ {S : Type 0} {p : Event → Bool} where
  pub Adds-act : (e : Event) → Adds {S = S} p (weight p e) (weight p e) (act e)
  unfolding act
  Adds-act e = record { at_least = λ w. ground arith; at_most = λ w. ground arith }

  pub Adds-act_off : (e : Event) → p e ≡ false → Adds {S = S} p 0 0 (act e)
  Adds-act_off e h = Adds-weaken (act e) (omega arith) (ground arith) (Adds-act e)

  pub Adds-ask :
      {A : Type 0} (e : Event) (answer : List Event → A)
      → Adds {S = S} p (weight p e) (weight p e) (ask e answer)
  unfolding ask
  Adds-ask e answer = record { at_least = λ w. ground arith; at_most = λ w. ground arith }

  pub Adds-ask_off :
      {A : Type 0} (e : Event) (answer : List Event → A)
      → p e ≡ false
      → Adds {S = S} p 0 0 (ask e answer)
  Adds-ask_off e answer h =
      Adds-weaken (ask e answer) (omega arith) (ground arith) (Adds-ask e answer)

  -- No log record is counted.
  pub Adds-log :
      (env : Environment) (level : Level) (event : EventName) (fields : Dict Json)
      → ((kept : Fields) → p (logged level event kept) ≡ false)
      → Adds {S = S} p 0 0 (log env level event fields)
  unfolding log
  Adds-log env level event fields h =
      Adds-if env.logging_enabled _ _ (λ _. Adds-act_off (logged level event _) (h _))
        (λ _. Adds-pure tt)

module _ {S : Type 0} where
  pub Returns-act : (e : Event) → Returns {S = S} (act e)
  unfolding act
  Returns-act e = record { answer = λ w. (tt, refl) }

  pub Returns-ask :
      {A : Type 0} (e : Event) (answer : List Event → A) → Returns {S = S} (ask e answer)
  unfolding ask
  Returns-ask e answer = record { answer = λ w. (answer w.trace, refl) }

  pub Returns-pure : {A : Type 0} (a : A) → Returns {S = S} (pure a)
  unfolding pure
  Returns-pure a = record { answer = λ w. (a, refl) }

  pub Returns-if :
      {A : Type 0} (b : Bool) (m n : M S A) → Returns m → Returns n → Returns (if b then m else n)
  Returns-if true m n h k = h
  Returns-if false m n h k = k

  pub Returns-log :
      (env : Environment) (level : Level) (event : EventName) (fields : Dict Json)
      → Returns {S = S} (log env level event fields)
  unfolding log
  Returns-log env level event fields =
      Returns-if env.logging_enabled _ _ (Returns-act _) (Returns-pure tt)

-- ===== src/Effects/Delivers.antt =====
-- Actions that return only after a counted event.
use jibit_ir_sdk.Prelude.{ℕ, ◌<◌, ◌≤◌, ◌≡◌, refl, arith, Bool}
use jibit_ir_sdk.Exceptions.{Raised}
use jibit_ir_sdk.Effects.{
  Event, World, Outcome, ok, raised, M, raise, catch, resume, continue, ◌>>=◌,
}
use jibit_ir_sdk.Effects.Counts.{Adds, count}

-- On every run that returns, `m` adds at least one counted event.
pub record Delivers {S A : Type 0} (p : Event → Bool) (m : M S A) : Type 0 where
  pub delivered : (w : World S) (a : A) → (m w).0 ≡ ok a → count p w.trace < count p (m w).1.trace

module _ {S A : Type 0} {p : Event → Bool} where
  pub Delivers-raise : (e : Raised) → Delivers {S = S} {A = A} p (raise e)
  unfolding raise
  Delivers-raise e = record { delivered = λ w a h. absurd cc }

  pub Delivers-always : {hi : ℕ} (m : M S A) → Adds p 1 hi m → Delivers p m
  Delivers-always m h = record { delivered = λ w a e. omega (arith, h.at_least w) }

  resume-Delivers :
      (r : Outcome A) (h : Raised → M S A) (v w : World S) (a : A)
      → ((b : A) → r ≡ ok b → count p v.trace < count p w.trace)
      → ((e : Raised) → Delivers p (h e))
      → count p v.trace ≤ count p w.trace
      → (resume r h w).0 ≡ ok a
      → count p v.trace < count p (resume r h w).1.trace
  resume-Delivers (ok b) h v w a first k grows e = first b refl
  resume-Delivers (raised x) h v w a first k grows e = omega (arith, grows, (k x).delivered w a e)

  pub Delivers-catch :
      {hi : ℕ} (m : M S A) (h : Raised → M S A)
      → Adds p 0 hi m
      → Delivers p m
      → ((e : Raised) → Delivers p (h e))
      → Delivers p (catch m h)
  unfolding catch
  Delivers-catch m h b d k = record {
    delivered = λ w a e.
        resume-Delivers (m w).0 h w (m w).1 a (λ x y. d.delivered w x y) k
          (omega (arith, b.at_least w)) e;
  }

module _ {S A B : Type 0} {p : Event → Bool} where
  continue-Delivers_first :
      {hi : ℕ} (r : Outcome A) (f : A → M S B) (v w : World S) (b : B)
      → ((a : A) → r ≡ ok a → count p v.trace < count p w.trace)
      → ((a : A) → Adds p 0 hi (f a))
      → (continue r f w).0 ≡ ok b
      → count p v.trace < count p (continue r f w).1.trace
  continue-Delivers_first (ok a) f v w b d h e = omega (arith, d a refl, (h a).at_least w)
  continue-Delivers_first (raised x) f v w b d h e = absurd cc

  -- The event comes from the first part.
  pub Delivers-first :
      {hi : ℕ} (m : M S A) (f : A → M S B)
      → Delivers p m
      → ((a : A) → Adds p 0 hi (f a))
      → Delivers p (m >>= f)
  unfolding ◌>>=◌
  Delivers-first m f d h = record {
    delivered =
        λ w b e. continue-Delivers_first (m w).0 f w (m w).1 b (λ x y. d.delivered w x y) h e;
  }

  continue-Delivers_rest :
      (r : Outcome A) (f : A → M S B) (v w : World S) (b : B)
      → count p v.trace ≤ count p w.trace
      → ((a : A) → Delivers p (f a))
      → (continue r f w).0 ≡ ok b
      → count p v.trace < count p (continue r f w).1.trace
  continue-Delivers_rest (ok a) f v w b grows h e = omega (arith, grows, (h a).delivered w b e)
  continue-Delivers_rest (raised x) f v w b grows h e = absurd cc

  -- The event comes from the rest.
  pub Delivers-rest :
      {hi : ℕ} (m : M S A) (f : A → M S B)
      → Adds p 0 hi m
      → ((a : A) → Delivers p (f a))
      → Delivers p (m >>= f)
  unfolding ◌>>=◌
  Delivers-rest m f a h = record {
    delivered =
        λ w b e. continue-Delivers_rest (m w).0 f w (m w).1 b (omega (arith, a.at_least w)) h e;
  }

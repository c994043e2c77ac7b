-- ===== src/Effects/Silent.antt =====
-- Actions that are added around another one without changing its outcome.
use jibit_ir_sdk.Prelude.{◌≡◌, refl}
use jibit_ir_sdk.Exceptions.{Raised}
use jibit_ir_sdk.Effects.{
  World, Outcome, ok, raised, M, pure, raise, catch, resume, continue, ◌>>=◌, ◌>>◌,
}
use jibit_ir_sdk.Effects.Counts.{Returns}

module _ {S A B : Type 0} where
  pub Returns-bind :
      (m : M S A) (f : A → M S B) → Returns m → ((a : A) → Returns (f a)) → Returns (m >>= f)
  unfolding ◌>>=◌
  Returns-bind m f h k = record {
    answer = λ w.
        let (a, e) = h.answer w in let (b, e') = (k a).answer (m w).1 in (b, rw (e, continue) e');
  }

module _ {S A : Type 0} where
  resumed_silently :
      (r : Outcome A) (h : Raised → M S (Unit {0})) (w : World S)
      → ((e : Raised) → Returns (h e))
      → (resume r (λ e. h e >> raise e) w).0 ≡ r
  unfolding ◌>>=◌ raise
  resumed_silently (ok a) h w k = refl
  resumed_silently (raised e) h w k = let (u, same) = (k e).answer w in rw same refl

  pub catch_silently :
      (m : M S A) (h : Raised → M S (Unit {0})) (w : World S)
      → ((e : Raised) → Returns (h e))
      → (catch m (λ e. h e >> raise e) w).0 ≡ (m w).0
  unfolding catch
  catch_silently m h w k = resumed_silently _ h _ k

  continued_silently :
      (r : Outcome A) (f : A → M S (Unit {0})) (w : World S)
      → ((a : A) → Returns (f a))
      → (continue r (λ a. f a >> pure a) w).0 ≡ r
  unfolding ◌>>=◌ pure
  continued_silently (ok a) f w k = let (u, same) = (k a).answer w in rw same refl
  continued_silently (raised e) f w k = refl

  pub then_silently :
      (m : M S A) (f : A → M S (Unit {0})) (w : World S)
      → ((a : A) → Returns (f a))
      → ((m >>= λ a. f a >> pure a) w).0 ≡ (m w).0
  unfolding ◌>>=◌
  then_silently m f w k = continued_silently _ f _ k

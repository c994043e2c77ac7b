-- ===== src/Auth/Prefixed.antt =====
-- auth/redis.py and auth/django.py: what the two adapters share.
use jibit_ir_sdk.Prelude.{
  ◌≡◌, refl, ap, Bool, true, false, arith, String, ◌<>◌, ◌=ₛ◌, eq_iff, none, if◌then◌else◌,
}
use text.Mathlib.TextLemmas.{append_cancel_left}
use jibit_ir_sdk.Effects.{Outcome, ok}
use jibit_ir_sdk.Auth.Tokens.{TokenState, then_ok}
use jibit_ir_sdk.Auth.Tokens.Cache.{stored}
use jibit_ir_sdk.Auth.Store.{TokenStore}

-- `_key`
abbrev pub prefixed : String → String → String
prefixed key_prefix key = key_prefix <> ":" <> key

pub prefixed-equal : (p k j : String) → (prefixed p k =ₛ prefixed p j) ≡ (k =ₛ j)
prefixed-equal p k j =
    let cancelled = λ (h : prefixed p k ≡ prefixed p j).
      append_cancel_left ":" k j (append_cancel_left p (":" <> k) (":" <> j) h) in
    let extended = λ (h : k ≡ j). ap (prefixed p) h in
    ground (arith, eq_iff k j, eq_iff (prefixed p k) (prefixed p j), cancelled, extended)

-- A store that hands out what has been written to it, as a cache keeps it: at the key that was
-- written or deleted, and nowhere else.
pub record IsCache {S : Type 0} (store : TokenStore S) : Type 0 where
  pub get-set :
      (k j : String) (t : TokenState) (s : S)
      → store.get j (store.set k t s) ≡ (if k =ₛ j then stored t else store.get j s)
  pub get-delete :
      (k j : String) (s : S)
      → store.get j (store.delete k s) ≡ (if k =ₛ j then ok none else store.get j s)

-- A read after a write or a deletion, where the value that was written reads as `expected`.
pub then_ok-if :
    {A B : Type 0} (b : Bool) (v : A) (old : Outcome A) (read : A → Outcome B)
    (expected : Outcome B)
    → read v ≡ expected
    → then_ok (if b then ok v else old) read ≡ (if b then expected else then_ok old read)
then_ok-if true v old read expected h = h
then_ok-if false v old read expected h = refl

-- ===== src/Auth/Locks.antt =====
-- auth/locks.py: `ThreadLockProvider`. A `Lock` is an object, which stands as the number of locks that
-- were made before it. The guard makes each call of `lock` one step.
use jibit_ir_sdk.Prelude.{
  ℕ, suc, ◌≡◌, ◌<◌, ◌⊎◌, inl, inr, refl, sym, ap, ◌∙◌, arith, eq_iff, Bool-cases, true, false,
  String, ◌=ₛ◌, Option, none, some, List, [], ◌∷◌, if◌then◌else◌, Bool, ◌==◌,
}
use jibit_ir_sdk.Prelude.Dict.{Dict, lookup, set_default, lookup-set_default, keep}

pub record ThreadLockProvider : Type 0 where
  pub locks : Dict ℕ
  -- how many locks have been made
  pub made : ℕ

unfoldable pub new_provider : ThreadLockProvider
new_provider = record { locks = []; made = 0 }

-- `lock`, up to the lock that it then holds: the one that `setdefault` returns. `Lock()` makes a lock
-- at every call.
unfoldable pub lock : String → ThreadLockProvider → ℕ × ThreadLockProvider
lock key p = (
  keep (lookup key p.locks) p.made,
  record { locks = set_default key p.made p.locks; made = suc p.made },
)

-- The provider after the locks of these keys have been asked for, the first one first.
unfoldable pub lock_all : List String → ThreadLockProvider → ThreadLockProvider
lock_all [] p = p
lock_all (k ∷ ks) p = lock_all ks (lock k p).1

-- Every lock that is kept has been made, and no lock is kept for two keys.
pub record IsDistinct (p : ThreadLockProvider) : Type 0 where
  pub known : (k : String) (n : ℕ) → lookup k p.locks ≡ some n → n < p.made
  pub apart : (k j : String) (n : ℕ) → lookup k p.locks ≡ some n → lookup j p.locks ≡ some n → k ≡ j

-- The lock that a call returns is kept under its key, and the other keys have what they had.
lookup-lock :
    (k j : String) (p : ThreadLockProvider)
    → lookup j (lock k p).1.locks ≡ (if k =ₛ j then some (lock k p).0 else lookup j p.locks)
unfolding lock
lookup-lock k j p = lookup-set_default k j p.made p.locks

keep_below :
    (old : Option ℕ) (made : ℕ) → ((n : ℕ) → old ≡ some n → n < made) → keep old made < suc made
keep_below none made h = omega arith
keep_below (some n) made h = omega (arith, h n refl)

lock_below : (k : String) (p : ThreadLockProvider) → IsDistinct p → (lock k p).0 < suc p.made
unfolding lock
lock_below k p i = keep_below (lookup k p.locks) p.made (i.known k)

-- A conditional that yields a value yields it by one of its branches.
if_some :
    (b : Bool) (x : ℕ) (old : Option ℕ) (n : ℕ)
    → (if b then some x else old) ≡ some n
    → ((b ≡ true) × (x ≡ n)) ⊎ ((b ≡ false) × (old ≡ some n))
if_some true x old n h = inl (refl, cc)
if_some false x old n h = inr (refl, h)

-- What is kept after a call is what the call returned, under its key, or was kept before.
lookup-lock_cases :
    (k j : String) (p : ThreadLockProvider) (n : ℕ)
    → lookup j (lock k p).1.locks ≡ some n
    → ((k ≡ j) × ((lock k p).0 ≡ n)) ⊎ (lookup j p.locks ≡ some n)
lookup-lock_cases k j p n h =
    elim (if_some (k =ₛ j) (lock k p).0 (lookup j p.locks) n (sym (lookup-lock k j p) ∙ h)) [
      | inl (same, e) ↦ inl ((eq_iff k j).0 same, e)
      | inr (other, e) ↦ inr e
    ]

-- The lock of a key is kept for no other key.
lock_apart :
    (k j : String) (p : ThreadLockProvider) (old : Option ℕ)
    → IsDistinct p
    → lookup k p.locks ≡ old
    → lookup j p.locks ≡ some (keep old p.made)
    → k ≡ j
lock_apart k j p none i h e = absurd (omega (arith, i.known j p.made e))
lock_apart k j p (some n) i h e = i.apart k j n h e

returned_apart :
    (k j : String) (p : ThreadLockProvider) (n : ℕ)
    → IsDistinct p
    → (lock k p).0 ≡ n
    → lookup j p.locks ≡ some n
    → k ≡ j
unfolding lock
returned_apart k j p n i h e = lock_apart k j p (lookup k p.locks) i refl (e ∙ sym (ap some h))

lock-IsDistinct : (k : String) (p : ThreadLockProvider) → IsDistinct p → IsDistinct (lock k p).1
unfolding lock
lock-IsDistinct k p i = record {
  known = λ j n e. elim (lookup-lock_cases k j p n e) [
    | inl (same, h) ↦ omega (arith, h, lock_below k p i)
    | inr old ↦ omega (arith, i.known j n old)
  ];
  apart = λ j l n e f. elim (lookup-lock_cases k j p n e) [
    | inl (same, h) ↦ elim (lookup-lock_cases k l p n f) [
      | inl (same', h') ↦ sym same ∙ same'
      | inr old ↦ sym same ∙ returned_apart k l p n i h old
    ]
    | inr old ↦ elim (lookup-lock_cases k l p n f) [
      | inl (same', h') ↦ sym (returned_apart k j p n i h' old) ∙ same'
      | inr old' ↦ i.apart j l n old old'
    ]
  ];
}

-- A lock that is kept stays.
kept-lock :
    (j k : String) (n : ℕ) (p : ThreadLockProvider)
    → lookup k p.locks ≡ some n
    → lookup k (lock j p).1.locks ≡ some n
unfolding lock
kept-lock j k n p h = elim (Bool-cases (j =ₛ k)) [
  | inl same ↦ let e = (eq_iff j k).0 same in lookup-lock j k p ∙ rw (same, e, h) refl
  | inr other ↦ lookup-lock j k p ∙ rw other h
]

kept-lock_all :
    (ks : List String) (k : String) (n : ℕ) (p : ThreadLockProvider)
    → lookup k p.locks ≡ some n
    → lookup k (lock_all ks p).locks ≡ some n
unfolding lock_all
kept-lock_all [] k n p h = h
kept-lock_all (j ∷ ks) k n p h = kept-lock_all ks k n (lock j p).1 (kept-lock j k n p h)

lock_all-IsDistinct :
    (ks : List String) (p : ThreadLockProvider) → IsDistinct p → IsDistinct (lock_all ks p)
unfolding lock_all
lock_all-IsDistinct [] p i = i
lock_all-IsDistinct (k ∷ ks) p i = lock_all-IsDistinct ks (lock k p).1 (lock-IsDistinct k p i)

new_provider-IsDistinct : IsDistinct new_provider
unfolding new_provider lookup
new_provider-IsDistinct = record { known = λ k n e. absurd cc; apart = λ k j n e f. absurd cc }

returned_same :
    (k : String) (p : ThreadLockProvider) (n : ℕ) → lookup k p.locks ≡ some n → (lock k p).0 ≡ n
unfolding lock
returned_same k p n h = rw h refl

-- A lock that is kept for a key is returned for that key only.
lock-kept :
    (k j : String) (p : ThreadLockProvider) (n : ℕ)
    → IsDistinct p
    → lookup k p.locks ≡ some n
    → ((lock j p).0 == n) ≡ (k =ₛ j)
lock-kept k j p n i h =
    let there = λ (e : (lock j p).0 ≡ n). returned_apart j k p n i e h in
    let back = λ (e : k ≡ j). returned_same j p n (ap (λ key. lookup key p.locks) (sym e) ∙ h) in
    ground (arith, eq_iff k j, there, back)

kept_after_lock :
    (k : String) (p : ThreadLockProvider) → lookup k (lock k p).1.locks ≡ some (lock k p).0
kept_after_lock k p = lookup-lock k k p ∙ rw ((eq_iff k k).1 refl) refl

-- Two calls of a new provider return the same lock exactly if they ask for the same key, whatever is
-- asked for before and between them.
pub lock_per_key :
    (before between : List String) (k j : String)
    → let p = lock_all before new_provider in
      let first = lock k p in ((lock j (lock_all between first.1)).0 == first.0) ≡ (k =ₛ j)
lock_per_key before between k j =
    let p = lock_all before new_provider in
    let i = lock_all-IsDistinct before new_provider new_provider-IsDistinct in
    lock-kept k j (lock_all between (lock k p).1) (lock k p).0
      (lock_all-IsDistinct between (lock k p).1 (lock-IsDistinct k p i))
      (kept-lock_all between k (lock k p).0 (lock k p).1 (kept_after_lock k p))

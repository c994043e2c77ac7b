-- ===== src/Redaction/Words.antt =====
-- redaction.py: the search for the listed words in a key.
use jibit_ir_sdk.Prelude.{
  ℕ, ◌≡◌, refl, ◌∙◌, String, ◌=ₛ◌, eq_iff, Bool, true, false, not, ◌&&◌, List, [], ◌∷◌, ◌++◌, arith,
  ◌==◌, leb, sym, ap, if◌then◌else◌, all, any,
}
use jibit_ir_sdk.Prelude.Text.{codes}
use jibit_ir_sdk.Unicode.{Unicode}
use jibit_ir_sdk.Redaction.Keys.{
  sensitive_key_parts, is_capital, fold_char, spread, normalize_codes, normalize_key, has_prefix,
  contains_part, is_sensitive_key,
}

-- Characters that the normal form of a key keeps as they are.
abbrev is_plain : ℕ → Bool
is_plain c = not (is_capital c) && not (c == 45) && not (leb 128 c)

append_assoc : (xs ys zs : List ℕ) → (xs ++ ys) ++ zs ≡ xs ++ (ys ++ zs)
append_assoc [] ys zs = refl
append_assoc (x ∷ xs) ys zs = cc (append_assoc xs ys zs)

-- An underscore in front, if there is to be one.
abbrev marked : Bool → List ℕ → List ℕ
marked b xs = if b then 95 ∷ xs else xs

marked-append : (b : Bool) (xs ys : List ℕ) → marked b (xs ++ ys) ≡ marked b xs ++ ys
marked-append true xs ys = refl
marked-append false xs ys = refl

module _ (u : Unicode) where
  spread-append : (xs ys : List ℕ) → spread u (xs ++ ys) ≡ spread u xs ++ spread u ys
  unfolding spread
  spread-append [] ys = refl
  spread-append (c ∷ xs) ys =
      let joined = append_assoc (fold_char u c) (spread u xs) (spread u ys) in
      let step : fold_char u c ++ spread u (xs ++ ys)
          ≡ (fold_char u c ++ spread u xs) ++ spread u ys =
        rw (spread-append xs ys) (sym joined) in
      ap (marked (is_capital c)) step
      ∙ marked-append (is_capital c) (fold_char u c ++ spread u xs) (spread u ys)

  fold_plain : (c : ℕ) → is_plain c ≡ true → fold_char u c ≡ c ∷ []
  fold_plain c h = ground arith

  spread_plain : (xs : List ℕ) → all is_plain xs ≡ true → spread u xs ≡ xs
  unfolding spread
  spread_plain [] h = refl
  spread_plain (c ∷ xs) h = ground (arith, spread_plain xs)

has_prefix-append : (ps ys : List ℕ) → has_prefix ps (ps ++ ys) ≡ true
unfolding has_prefix
has_prefix-append [] ys = refl
has_prefix-append (p ∷ ps) ys = ground (arith, has_prefix-append ps ys)

contains_part_of_prefix : (ps s : List ℕ) → has_prefix ps s ≡ true → contains_part ps s ≡ true
unfolding contains_part
contains_part_of_prefix ps [] h = h
contains_part_of_prefix ps (c ∷ s) h = rw h

contains_part-append :
    (ps xs ys : List ℕ) → contains_part ps ys ≡ true → contains_part ps (xs ++ ys) ≡ true
unfolding contains_part
contains_part-append ps [] ys h = h
contains_part-append ps (x ∷ xs) ys h = ground (arith, contains_part-append ps xs ys h)

plain_tail : (p : ℕ) (ps : List ℕ) → all is_plain (p ∷ ps) ≡ true → all is_plain ps ≡ true
plain_tail p ps h = ground arith

plain_head : (p : ℕ) (ps : List ℕ) → all is_plain (p ∷ ps) ≡ true → is_plain p ≡ true
plain_head p ps h = ground arith

module _ (u : Unicode) where
  plain_prefix :
      (p : ℕ) (ps ys : List ℕ)
      → all is_plain (p ∷ ps) ≡ true
      → fold_char u p ++ spread u (ps ++ ys) ≡ (p ∷ ps) ++ spread u ys
  plain_prefix p ps ys h =
      rw
        (
          fold_plain u p (plain_head p ps h),
          spread-append u ps ys,
          spread_plain u ps (plain_tail p ps h),
        )
        refl

  -- A word that stands somewhere in a key stands in the key's normal form.
  normalize_codes_keeps :
      (p : ℕ) (ps xs ys : List ℕ)
      → all is_plain (p ∷ ps) ≡ true
      → contains_part (p ∷ ps) (normalize_codes u (xs ++ ((p ∷ ps) ++ ys))) ≡ true
  unfolding normalize_codes
  normalize_codes_keeps p ps [] ys h =
      rw (plain_prefix p ps ys h)
        (contains_part_of_prefix (p ∷ ps) _ (has_prefix-append (p ∷ ps) (spread u ys)))
  normalize_codes_keeps p ps (x ∷ xs) ys h =
      rw
        (
          spread-append u xs ((p ∷ ps) ++ ys),
          spread-append u (p ∷ ps) ys,
          spread_plain u (p ∷ ps) h,
        )
        (contains_part-append (p ∷ ps) (fold_char u x) _ (
          contains_part-append (p ∷ ps) (spread u xs) _
            (contains_part_of_prefix (p ∷ ps) _ (has_prefix-append (p ∷ ps) (spread u ys)))))

module _ {ℓ} {A : Type ℓ} (f q : A → Bool) (a : A) where
  pub all-any :
      (xs : List A)
      → ((x : A) → q x ≡ true → x ≡ a)
      → any q xs ≡ true
      → all f xs ≡ true
      → f a ≡ true
  all-any [] found h k = cc
  all-any (x ∷ xs) found h k = ground (arith, found x, all-any xs found)

  pub any_intro :
      (xs : List A)
      → ((x : A) → q x ≡ true → x ≡ a)
      → any q xs ≡ true
      → f a ≡ true
      → any f xs ≡ true
  any_intro [] found h k = cc
  any_intro (x ∷ xs) found h k = ground (arith, found x, any_intro xs found)

abbrev is_plain_word : List ℕ → Bool
is_plain_word [] = false
is_plain_word (p ∷ ps) = all is_plain (p ∷ ps)

-- Every listed word is non-empty, in lower case, and joined by underscores.
parts_plain : all (λ part. is_plain_word (codes part)) sensitive_key_parts ≡ true
parts_plain = refl

normalize_codes_finds :
    (u : Unicode) (ps xs ys : List ℕ)
    → is_plain_word ps ≡ true
    → contains_part ps (normalize_codes u (xs ++ (ps ++ ys))) ≡ true
normalize_codes_finds u [] xs ys h = cc
normalize_codes_finds u (p ∷ ps) xs ys h = normalize_codes_keeps u p ps xs ys h

-- A key in which one of the listed words is written out, in lower case and with underscores, is
-- sensitive, whatever stands before and after the word.
pub is_sensitive_key_of_part :
    (u : Unicode) (part key : String) (before after : List ℕ)
    → any (λ listed. listed =ₛ part) sensitive_key_parts ≡ true
    → codes key ≡ before ++ (codes part ++ after)
    → is_sensitive_key u key ≡ true
unfolding is_sensitive_key
is_sensitive_key_of_part u part key before after listed e =
    let found = λ (x : String) (h : (x =ₛ part) ≡ true). (eq_iff x part).0 h in
    let plain =
      all-any (λ p. is_plain_word (codes p)) (λ x. x =ₛ part) part sensitive_key_parts found listed
        parts_plain in
    any_intro (λ x. contains_part (codes x) (normalize_key u key)) (λ x. x =ₛ part) part
      sensitive_key_parts found listed
      (rw e (normalize_codes_finds u (codes part) before after plain))

-- ===== src/Services/Patterns.antt =====
-- The regular expressions of the request models. A pattern is a list of character classes, and a text
-- matches if each of its characters is in the class at its place.
use jibit_ir_sdk.Prelude.{
  ℕ, String, Bool, true, false, not, ◌&&◌, ◌||◌, List, [], ◌∷◌, ◌++◌, replicate, all, ◌==◌, leb,
}
use jibit_ir_sdk.Prelude.Text.{codes, is_blank}
use jibit_ir_sdk.Unicode.{Unicode}

unfoldable pub matches : List (ℕ → Bool) → List ℕ → Bool
matches [] [] = true
matches (p ∷ ps) (c ∷ cs) = p c && matches ps cs
matches _ _ = false

abbrev pub is_exactly : ℕ → ℕ → Bool
is_exactly n c = c == n

module _ (u : Unicode) where
  -- ^IR\d{24}$
  unfoldable pub is_iban : String → Bool
  unfolding matches
  is_iban s = matches (is_exactly b'I' ∷ is_exactly b'R' ∷ replicate 24 u.is_digit) (codes s)

  -- ^\d{n}$
  unfoldable pub is_digits : ℕ → String → Bool
  unfolding matches
  is_digits n s = matches (replicate n u.is_digit) (codes s)

  -- ^\d+$
  unfoldable pub is_number : String → Bool
  is_number s = not (is_blank s) && all u.is_digit (codes s)

  -- ^\d{4}-\d{2}-\d{2}$
  unfoldable pub is_date : String → Bool
  unfolding matches
  is_date s =
      matches
        (replicate 4 u.is_digit
          ++ is_exactly b'-' ∷ replicate 2 u.is_digit
          ++ is_exactly b'-' ∷ replicate 2 u.is_digit)
        (codes s)

abbrev is_ascii_alnum : ℕ → Bool
is_ascii_alnum c =
    (leb b'A' c && leb c b'Z') || (leb b'a' c && leb c b'z') || (leb b'0' c && leb c b'9')

-- [A-Za-z0-9_-]
abbrev pub is_track_char : ℕ → Bool
is_track_char c = is_ascii_alnum c || c == b'_' || c == b'-'

-- [A-Za-z0-9._-]
abbrev pub is_reference_char : ℕ → Bool
is_reference_char c = is_track_char c || c == b'.'

-- ===== src/Redaction/Masks.antt =====
-- redaction.py: `redact_text`, the four regular expressions as matchers. A matcher is given the
-- character before the text, and answers how many characters it takes.
use Prim.Native.Char.{code}
use Prim.Native.String.{char_at}
use jibit_ir_sdk.Prelude.{
  ℕ, zero, suc, ◌+◌, ◌-◌, ◌/◌, ◌%◌, String, ◌<>◌, Bool, false, not, ◌&&◌, ◌||◌, Option, none, some,
  ◌==◌, ltb, if◌then◌else◌,
}
use jibit_ir_sdk.Prelude.Text.{count_chars, take_chars, drop_chars}
use jibit_ir_sdk.Unicode.{Unicode}

decimal_loop : ℕ → ℕ → String
decimal_loop zero n = ""
decimal_loop (suc fuel) n =
    let more = decimal_loop fuel (n / 10) <> String.◌∷◌ (char_at "0123456789" (n % 10)) "" in
    if ltb n 10 then String.◌∷◌ (char_at "0123456789" n) "" else more

-- str(n)
unfoldable pub decimal : ℕ → String
unfolding decimal_loop
decimal n = decimal_loop (n + 1) n

-- s[-4:]
last_four : String → String
unfolding drop_chars
last_four s = drop_chars (count_chars s - 4) s

abbrev Matcher : Type 0
Matcher = Option ℕ → String → Option ℕ

-- pattern.sub(mask, text): scans from the left; `skip` characters belong to the last match.
unfoldable pub sub : Matcher → (String → String) → ℕ → Option ℕ → String → String
unfolding take_chars
sub m mask skip before String.[] = ""
sub m mask (suc skip) before (String.◌∷◌ c s) = sub m mask skip (some (code c)) s
sub m mask zero before (String.◌∷◌ c s) = elim (m before (String.◌∷◌ c s)) [
  | none ↦ String.◌∷◌ c (sub m mask zero (some (code c)) s)
  | some n ↦ mask (take_chars n (String.◌∷◌ c s)) <> sub m mask (n - 1) (some (code c)) s
]

is_separator : ℕ → Bool
is_separator n = n == b' ' || n == b'-'

-- The letters that match I under IGNORECASE.
is_letter_i : ℕ → Bool
is_letter_i n = n == b'I' || n == b'i' || n == 0x130 || n == 0x131

is_letter_r : ℕ → Bool
is_letter_r n = n == b'R' || n == b'r'

module _ (u : Unicode) where
  open u use {is_digit, is_word}

  abbrev is_digit_at : Option ℕ → Bool
  is_digit_at none = false
  is_digit_at (some n) = is_digit n

  abbrev is_word_at : Option ℕ → Bool
  is_word_at none = false
  is_word_at (some n) = is_word n

  abbrev head_code : String → Option ℕ
  head_code String.[] = none
  head_code (String.◌∷◌ c s) = some (code c)

  -- What is left after exactly `n` digits.
  unfoldable pub after_digits : ℕ → String → Option String
  after_digits zero s = some s
  after_digits (suc n) String.[] = none
  after_digits (suc n) (String.◌∷◌ c s) =
      let rest = after_digits n s in if is_digit (code c) then rest else none

  ends_at_boundary : ℕ → Option String → Option ℕ
  ends_at_boundary n none = none
  ends_at_boundary n (some rest) = if is_word_at (head_code rest) then none else some n

  ends_off_digit : ℕ → Option String → Option ℕ
  ends_off_digit n none = none
  ends_off_digit n (some rest) = if is_digit_at (head_code rest) then none else some n

  -- \bIR\d{24}\b
  unfoldable pub iban_match : Matcher
  unfolding after_digits ends_at_boundary is_letter_i is_letter_r
  iban_match before (String.◌∷◌ c (String.◌∷◌ d s)) =
      if not (is_word_at before) && is_letter_i (code c) && is_letter_r (code d)
      then ends_at_boundary 26 (after_digits 24 s)
      else none
  iban_match before s = none

  -- After the last digit a separator is taken unless a digit follows it.
  abbrev card_end : ℕ → String → Option ℕ
  card_end taken String.[] = some taken
  card_end taken (String.◌∷◌ c s) =
      if is_separator (code c)
      then if is_digit_at (head_code s) then some taken else some (taken + 1)
      else if is_digit (code c)
      then none
      else some taken

  -- (?:\d[ -]?){n}, with what has been taken so far
  unfoldable pub card_digits : ℕ → ℕ → String → Option ℕ
  unfolding is_separator
  card_digits zero taken s = card_end taken s
  card_digits (suc n) taken String.[] = none
  card_digits (suc zero) taken (String.◌∷◌ c s) =
      if is_digit (code c) then card_end (taken + 1) s else none
  card_digits (suc (suc n)) taken (String.◌∷◌ c String.[]) = none
  card_digits (suc (suc n)) taken (String.◌∷◌ c (String.◌∷◌ d s)) =
      let spaced = card_digits (suc n) (taken + 2) s in
      let joined = card_digits (suc n) (taken + 1) (String.◌∷◌ d s) in
      if is_digit (code c) then if is_separator (code d) then spaced else joined else none

  -- (?<!\d)(?:\d[ -]?){16}(?!\d)
  unfoldable pub card_match : Matcher
  unfolding card_digits
  card_match before s = if is_digit_at before then none else card_digits 16 0 s

  -- 9\d{9}(?!\d), after `taken` characters of prefix
  mobile_body : ℕ → String → Option ℕ
  unfolding ends_off_digit after_digits
  mobile_body taken String.[] = none
  mobile_body taken (String.◌∷◌ c s) =
      if code c == b'9' then ends_off_digit (taken + 10) (after_digits 9 s) else none

  -- The text after a prefix that it begins with.
  after_prefix : String → String → Option String
  after_prefix String.[] s = some s
  after_prefix (String.◌∷◌ p ps) String.[] = none
  after_prefix (String.◌∷◌ p ps) (String.◌∷◌ c s) =
      let rest = after_prefix ps s in if code p == code c then rest else none

  abbrev first : Option ℕ → Option ℕ → Option ℕ
  first none b = b
  first (some n) b = some n

  abbrev mobile_after : ℕ → Option String → Option ℕ
  mobile_after taken none = none
  mobile_after taken (some rest) = mobile_body taken rest

  -- (?<!\d)(?:\+98|0098|0)?9\d{9}(?!\d)
  unfoldable pub mobile_match : Matcher
  unfolding mobile_body after_prefix
  mobile_match before s =
      if is_digit_at before
      then none
      else first (mobile_after 3 (after_prefix "+98" s)) (
          first (mobile_after 4 (after_prefix "0098" s))
            (first (mobile_after 1 (after_prefix "0" s)) (mobile_body 0 s)))

  -- (?<!\d)\d{10}(?!\d)
  unfoldable pub national_id_match : Matcher
  unfolding ends_off_digit after_digits
  national_id_match before s =
      if is_digit_at before then none else ends_off_digit 10 (after_digits 10 s)

  -- re.sub(r"\D", "", value)
  unfoldable pub digits : String → String
  digits String.[] = ""
  digits (String.◌∷◌ c s) =
      let rest = digits s in if is_digit (code c) then String.◌∷◌ c rest else rest

  unfoldable pub redact_text : String → String
  unfolding sub iban_match card_match mobile_match national_id_match digits last_four
  redact_text value =
      let ibans = sub iban_match (λ s. "IR********************" <> last_four s) 0 none value in
      let cards = sub card_match (λ s. "************" <> last_four (digits s)) 0 none ibans in
      let mobiles = sub mobile_match (λ s. "*******" <> last_four s) 0 none cards in
      sub national_id_match (λ s. "******" <> last_four s) 0 none mobiles

-- ===== src/Prelude/Text.antt =====
-- What the program uses of Python's `str`, on native texts. Case is changed in the ASCII range.
use Prim.Native.Nat.{ℕ, zero, suc, ◌-◌}
use Prim.Native.Char.{Char, code}
use Prim.Native.String.{String, char_at}
use mathlib.Core.Path.{◌≡◌, refl}
use mathlib.Core.Bool.{Bool, true, false, ◌&&◌}
use mathlib.Core.List.{List, [], ◌∷◌}
use jibit_ir_sdk.Prelude.Tests.{leb, ◌==◌, if◌then◌else◌}

abbrev pub is_blank : String → Bool
is_blank String.[] = true
is_blank (String.◌∷◌ c s) = false

-- The code points of a text.
abbrev pub codes : String → List ℕ
codes String.[] = []
codes (String.◌∷◌ c s) = code c ∷ codes s

-- len(s)
abbrev pub count_chars : String → ℕ
count_chars String.[] = 0
count_chars (String.◌∷◌ c s) = suc (count_chars s)

is_lower : ℕ → Bool
is_lower n = leb 97 n && leb n 122

is_upper : ℕ → Bool
is_upper n = leb 65 n && leb n 90

upper_char : Char → Char
unfolding is_lower
upper_char c = if is_lower (code c) then char_at "ABCDEFGHIJKLMNOPQRSTUVWXYZ" (code c - 97) else c

lower_char : Char → Char
unfolding is_upper
lower_char c = if is_upper (code c) then char_at "abcdefghijklmnopqrstuvwxyz" (code c - 65) else c

-- s.upper()
unfoldable pub upper : String → String
unfolding upper_char
upper String.[] = ""
upper (String.◌∷◌ c s) = String.◌∷◌ (upper_char c) (upper s)

-- s.lower()
unfoldable pub lower : String → String
unfolding lower_char
lower String.[] = ""
lower (String.◌∷◌ c s) = String.◌∷◌ (lower_char c) (lower s)

-- Whether the first character has the code `n`.
abbrev pub starts_with_code : ℕ → String → Bool
starts_with_code n String.[] = false
starts_with_code n (String.◌∷◌ c s) = code c == n

push_kept : ℕ → Char → String → String
push_kept n c rest = if is_blank rest && (code c == n) then "" else String.◌∷◌ c rest

-- s.rstrip(c), s.lstrip(c)
unfoldable pub rstrip : ℕ → String → String
unfolding push_kept
rstrip n String.[] = ""
rstrip n (String.◌∷◌ c s) = push_kept n c (rstrip n s)

unfoldable pub lstrip : ℕ → String → String
lstrip n String.[] = ""
lstrip n (String.◌∷◌ c s) = let rest = lstrip n s in if code c == n then rest else String.◌∷◌ c s

-- s[:n], s[n:]
unfoldable pub take_chars : ℕ → String → String
take_chars zero s = ""
take_chars (suc n) String.[] = ""
take_chars (suc n) (String.◌∷◌ c s) = String.◌∷◌ c (take_chars n s)

unfoldable pub drop_chars : ℕ → String → String
drop_chars zero s = s
drop_chars (suc n) String.[] = ""
drop_chars (suc n) (String.◌∷◌ c s) = drop_chars n s

case_test : upper "Post-1" ≡ "POST-1"
unfolding upper
case_test = refl

strip_test : rstrip 47 "https://napi.jibit.ir//" ≡ "https://napi.jibit.ir"
unfolding rstrip
strip_test = refl

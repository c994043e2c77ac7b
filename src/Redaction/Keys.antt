-- ===== src/Redaction/Keys.antt =====
-- redaction.py: which field names are unsafe to show.
use Prim.Native.Nat.{◌+◌}
use jibit_ir_sdk.Prelude.{
  ℕ, String, Bool, true, false, ◌&&◌, ◌||◌, List, [], ◌∷◌, ◌++◌, ◌==◌, leb, if◌then◌else◌, any,
}
use jibit_ir_sdk.Prelude.Text.{codes}
use jibit_ir_sdk.Unicode.{Unicode}

abbrev pub sensitive_key_parts : List String
sensitive_key_parts =
    "access_token" ∷ "authorization" ∷ "account" ∷ "birth_date" ∷ "batch_id" ∷ "card"
    ∷ "client_secret" ∷ "credential" ∷ "cvv" ∷ "identity" ∷ "message" ∷ "iban" ∷ "image" ∷ "kyc"
    ∷ "national_id" ∷ "national_code" ∷ "fida" ∷ "face" ∷ "file" ∷ "media" ∷ "mobile" ∷ "receptor"
    ∷ "payment_id" ∷ "otp" ∷ "password" ∷ "refresh_token" ∷ "secret" ∷ "signed_document" ∷ "signer"
    ∷ "signature" ∷ "transfer_id" ∷ "token" ∷ "video" ∷ []

abbrev pub is_capital : ℕ → Bool
is_capital c = leb 65 c && leb c 90

-- lower(), then replace("-", "_"), on one character. The capital sigma, which lower() treats by its
-- place in the word, is not told apart: neither of its forms stands in a listed word.
abbrev pub fold_char : Unicode → ℕ → List ℕ
fold_char u c =
    if is_capital c
    then (c + 32) ∷ []
    else if c == 45
    then 95 ∷ []
    else if leb 128 c
    then u.lower_beyond c
    else c ∷ []

-- An underscore goes before each capital that is not at the start.
unfoldable pub spread : Unicode → List ℕ → List ℕ
spread u [] = []
spread u (c ∷ cs) =
    let rest = fold_char u c ++ spread u cs in if is_capital c then 95 ∷ rest else rest

unfoldable pub normalize_codes : Unicode → List ℕ → List ℕ
unfolding spread
normalize_codes u [] = []
normalize_codes u (c ∷ cs) = fold_char u c ++ spread u cs

unfoldable pub normalize_key : Unicode → String → List ℕ
unfolding normalize_codes
normalize_key u key = normalize_codes u (codes key)

unfoldable pub has_prefix : List ℕ → List ℕ → Bool
has_prefix [] s = true
has_prefix (p ∷ ps) [] = false
has_prefix (p ∷ ps) (c ∷ s) = p == c && has_prefix ps s

-- part in s
unfoldable pub contains_part : List ℕ → List ℕ → Bool
unfolding has_prefix
contains_part part [] = has_prefix part []
contains_part part (c ∷ s) = has_prefix part (c ∷ s) || contains_part part s

unfoldable pub is_sensitive_key : Unicode → String → Bool
unfolding normalize_key contains_part
is_sensitive_key u key =
    any (λ part. contains_part (codes part) (normalize_key u key)) sensitive_key_parts

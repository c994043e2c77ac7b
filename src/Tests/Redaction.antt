-- ===== src/Tests/Redaction.antt =====
-- Redaction on concrete texts and payloads.
use jibit_ir_sdk.Prelude.{◌≡◌, refl, true, false, ◌&&◌, ◌||◌, leb, [], ◌∷◌}
use jibit_ir_sdk.Unicode.{Unicode}
use jibit_ir_sdk.Redaction.{redact_text, is_sensitive_key, decimal}

-- The ASCII part of the tables.
abbrev pub ascii : Unicode
ascii = record {
  is_digit = λ c. leb b'0' c && leb c b'9';
  is_alnum = λ c. leb b'0' c && leb c b'9' || leb b'A' c && leb c b'Z' || leb b'a' c && leb c b'z';
  is_digit_sign = λ c. leb b'0' c && leb c b'9';
  is_word = λ c. leb b'0' c && leb c b'z';
  lower_beyond = λ c. c ∷ [];
}

card_test :
    redact_text ascii "card 6037-9911-2233-4455, call 09121234567"
    ≡ "card ************4455, call *******4567"
unfolding redact_text
card_test = refl

iban_test : redact_text ascii "to IR062960000000100324200001." ≡ "to IR********************0001."
unfolding redact_text
iban_test = refl

national_test : redact_text ascii "id 0012345678 of 12345678901" ≡ "id ******5678 of 12345678901"
unfolding redact_text
national_test = refl

keys_test :
    (is_sensitive_key ascii "payerMobileNumber" ≡ true)
    × (is_sensitive_key ascii "X-Access-Token" ≡ true)
    × (is_sensitive_key ascii "status_code" ≡ false)
    × (is_sensitive_key ascii "batchID" ≡ false)
unfolding is_sensitive_key
keys_test = (refl, refl, refl, refl)

decimal_test : decimal 1050 ≡ "1050"
unfolding decimal
decimal_test = refl

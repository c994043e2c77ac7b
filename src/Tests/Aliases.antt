-- ===== src/Tests/Aliases.antt =====
-- The keys of the payloads are the aliases of the fields.
use jibit_ir_sdk.Prelude.{◌≡◌, refl, [], ◌∷◌, map}
use jibit_ir_sdk.Prelude.Text.{upper, lower}
use jibit_ir_sdk.Models.{to_camel, split_underscores, capitalize}

to_camel_test :
    map to_camel (
      "card_number" ∷ "legal_national_code" ∷ "iban" ∷ "batch_id" ∷ "check_payer_mobile_number"
      ∷ [])
    ≡ "cardNumber" ∷ "legalNationalCode" ∷ "iban" ∷ "batchId" ∷ "checkPayerMobileNumber" ∷ []
unfolding to_camel split_underscores capitalize upper lower
to_camel_test = refl

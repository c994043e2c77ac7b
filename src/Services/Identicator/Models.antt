-- ===== src/Services/Identicator/Models.antt =====
-- services/identicator/models.py: the two request models.
use jibit_ir_sdk.Prelude.{
  String, ◌=ₛ◌, Bool, false, not, ◌&&◌, ◌||◌, ◌==◌, Option, none, some, List, [], ◌∷◌, any, all,
}
use jibit_ir_sdk.Prelude.Text.{is_blank, count_chars}
use jibit_ir_sdk.Json.{str, Fields, or_null}
use jibit_ir_sdk.Services.Fields.{text_between, payload}

pub record MatchingRequest : Type 0 where
  pub iban : Option String
  pub card_number : Option String
  pub bank : Option String
  pub deposit_number : Option String
  pub national_code : Option String
  pub legal_national_code : Option String
  pub birth_date : Option String
  pub name : Option String
  pub mobile_number : Option String
  pub fida : Option String
  pub passport_number : Option String

abbrev with_name : String → Option String → List String → List String
with_name name none rest = rest
with_name name (some s) rest = name ∷ rest

-- The names of the fields that are not None, in the order of the fields.
unfoldable pub present : MatchingRequest → List String
present r = with_name "iban" r.iban (
    with_name "card_number" r.card_number (
      with_name "bank" r.bank (
        with_name "deposit_number" r.deposit_number (
          with_name "national_code" r.national_code (
            with_name "legal_national_code" r.legal_national_code (
              with_name "birth_date" r.birth_date (
                with_name "name" r.name (
                  with_name "mobile_number" r.mobile_number (
                    with_name "fida" r.fida
                      (with_name "passport_number" r.passport_number []))))))))))

abbrev pub allowed : List (List String)
allowed =
    ("iban" ∷ "name" ∷ [])
    ∷ ("iban" ∷ "national_code" ∷ [])
    ∷ ("iban" ∷ "national_code" ∷ "birth_date" ∷ [])
    ∷ ("iban" ∷ "legal_national_code" ∷ [])
    ∷ ("card_number" ∷ "name" ∷ [])
    ∷ ("card_number" ∷ "national_code" ∷ [])
    ∷ ("card_number" ∷ "national_code" ∷ "birth_date" ∷ [])
    ∷ ("deposit_number" ∷ "bank" ∷ "name" ∷ [])
    ∷ ("deposit_number" ∷ "bank" ∷ "national_code" ∷ [])
    ∷ ("deposit_number" ∷ "bank" ∷ "national_code" ∷ "birth_date" ∷ [])
    ∷ ("national_code" ∷ "mobile_number" ∷ [])
    ∷ ("fida" ∷ "passport_number" ∷ [])
    ∷ []

abbrev contained : List String → List String → Bool
contained xs ys = all (λ x. any (λ y. x =ₛ y) ys) xs

-- Equality of the sets
abbrev pub same_set : List String → List String → Bool
same_set xs ys = contained xs ys && contained ys xs

-- `validate_documented_combination`
unfoldable pub matching_ok : MatchingRequest → Bool
unfolding present
matching_ok r = any (λ names. same_set (present r) names) allowed

unfoldable pub matching_payload : MatchingRequest → Fields
matching_payload r = payload (
    ("iban", or_null r.iban)
    ∷ ("cardNumber", or_null r.card_number)
    ∷ ("bank", or_null r.bank)
    ∷ ("depositNumber", or_null r.deposit_number)
    ∷ ("nationalCode", or_null r.national_code)
    ∷ ("legalNationalCode", or_null r.legal_national_code)
    ∷ ("birthDate", or_null r.birth_date)
    ∷ ("name", or_null r.name)
    ∷ ("mobileNumber", or_null r.mobile_number)
    ∷ ("fida", or_null r.fida)
    ∷ ("passportNumber", or_null r.passport_number)
    ∷ [])

pub record IdentitySimilarityRequest : Type 0 where
  pub national_code : String
  pub birth_date : String
  pub first_name : Option String
  pub last_name : Option String
  pub full_name : Option String
  pub father_name : Option String

abbrev is_given : Option String → Bool
is_given none = false
is_given (some s) = not (is_blank s)

-- The bounds and `require_name`.
unfoldable pub similarity_ok : IdentitySimilarityRequest → Bool
similarity_ok r =
    (count_chars r.national_code == 10)
    && text_between 8 10 r.birth_date
    && (is_given r.first_name
        || is_given r.last_name
        || is_given r.full_name
        || is_given r.father_name)

unfoldable pub similarity_payload : IdentitySimilarityRequest → Fields
similarity_payload r = payload (
    ("nationalCode", str r.national_code)
    ∷ ("birthDate", str r.birth_date)
    ∷ ("firstName", or_null r.first_name)
    ∷ ("lastName", or_null r.last_name)
    ∷ ("fullName", or_null r.full_name)
    ∷ ("fatherName", or_null r.father_name)
    ∷ [])

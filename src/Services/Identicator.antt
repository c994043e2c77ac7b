-- ===== src/Services/Identicator.antt =====
-- services/identicator/service.py: inquiries. The last argument of an operation is `track_id`.
pub mod Models
use jibit_ir_sdk.Prelude.{
  String, Bool, true, false, ◌+◌, Option, none, some, List, [], ◌∷◌, ltb, if◌then◌else◌, ℕ,
}
use jibit_ir_sdk.Prelude.Dict.{Dict}
use jibit_ir_sdk.Types.{OperationSafety, read_only, idempotent, identicator}
use jibit_ir_sdk.Json.{Json, null, bool, str, obj, Fields, end, field}
use jibit_ir_sdk.Effects.{Environment, Outcome, ok, raised, M, raise, lift, ◌>>=◌}
use jibit_ir_sdk.Response.{RawResponse, ApiResponse}
use jibit_ir_sdk.Engine.{RequestOptions}
use jibit_ir_sdk.Services.Base.{Model, typed_request, compact_values}
use jibit_ir_sdk.Services.Facade.{options_of, require, invalid}
use jibit_ir_sdk.Services.Identicator.Models.{
  MatchingRequest, matching_ok, matching_payload, IdentitySimilarityRequest, similarity_ok,
  similarity_payload,
}

-- `_track_header`
abbrev pub track_header : Option String → Dict String
track_header none = []
track_header (some id) = ("X-TRACK-ID", id) ∷ []

abbrev count_true : Bool → ℕ
count_true true = 1
count_true false = 0

abbrev matching_path : String
matching_path = "/ide/v1/services/matching"

abbrev similarity_path : String
similarity_path = "/ide/v1/services/identity/similarity"

-- `request or validate_request(...)`, after the check that not both are given; without any keyword
-- no model fits.
given_or_checked : {A : Type 0} → (A → Bool) → Option A → Option A → String → String → Outcome A
unfolding require
given_or_checked accepted (some given) none operation path = ok given
given_or_checked accepted (some given) (some r) operation path =
    raised (invalid identicator operation "POST" path)
given_or_checked accepted none none operation path =
    raised (invalid identicator operation "POST" path)
given_or_checked accepted none (some r) operation path =
    require identicator (accepted r) r operation "POST" path

module _ {S : Type 0} (env : Environment) (executor : RequestOptions → M S RawResponse) where
  -- `_get`
  read : {A : Type 0} → String → String → Model A → Fields → Option String → M S (ApiResponse A)
  read operation path model params track_id =
      typed_request env executor
        (record (options_of identicator operation "GET" path read_only (obj (compact_values params))
          null) { headers = track_header track_id })
        model

  -- The requests with a body that only read: `match` and `compare_identity_names`.
  post_read :
      {A : Type 0} → String → String → Model A → Fields → Option String → M S (ApiResponse A)
  post_read operation path model body track_id =
      typed_request env executor
        (record (options_of identicator operation "POST" path idempotent null (obj body)) {
          headers = track_header track_id;
        })
        model

  unfoldable pub inquire_deposit :
      {A : Type 0} → Model A → String → String → Bool → Option String → M S (ApiResponse A)
  unfolding read
  inquire_deposit model bank number include_iban track_id =
      read "inquire_deposit" "/ide/v1/deposits" model
        (field "bank" (str bank)
          (field "number" (str number) (field "iban" (bool include_iban) end)))
        track_id

  unfoldable pub inquire_card :
      {A : Type 0} → Model A → String → Bool → Bool → Bool → Option String → M S (ApiResponse A)
  unfolding read
  inquire_card model number include_deposit include_iban include_national_code track_id =
      if ltb 1
        (count_true include_deposit + count_true include_iban + count_true include_national_code)
      then raise (invalid identicator "inquire_card" "GET" "/ide/v1/cards")
      else read "inquire_card" "/ide/v1/cards" model
          (field "number" (str number) (
            field "deposit" (bool include_deposit) (
              field "iban" (bool include_iban)
                (field "nationalCode" (bool include_national_code) end))))
          track_id

  unfoldable pub match_identity :
      {A : Type 0}
      → Model A
      → Option MatchingRequest
      → Option MatchingRequest
      → Option String
      → M S (ApiResponse A)
  unfolding given_or_checked post_read
  match_identity model given values track_id = do
    request ← lift (given_or_checked matching_ok given values "match" matching_path)
    post_read "match" matching_path model (matching_payload request) track_id

  unfoldable pub compare_identity_names :
      {A : Type 0}
      → Model A
      → Option IdentitySimilarityRequest
      → Option IdentitySimilarityRequest
      → Option String
      → M S (ApiResponse A)
  unfolding given_or_checked post_read
  compare_identity_names model given values track_id = do
    request ←
        lift (given_or_checked similarity_ok given values "compare_identity_names" similarity_path)
    post_read "compare_identity_names" similarity_path model (similarity_payload request) track_id

  unfoldable pub inquire_identity :
      {A : Type 0} → Model A → String → String → Bool → Bool → Option String → M S (ApiResponse A)
  unfolding read
  inquire_identity model national_code birth_date complete_info without_photo track_id =
      read "inquire_identity" "/ide/v1/services/identity" model
        (field "nationalCode" (str national_code) (
          field "birthDate" (str birth_date) (
            field "completeInfo" (bool complete_info)
              (field "withoutPhoto" (bool without_photo) end))))
        track_id

  unfoldable pub inquire_legal_identity :
      {A : Type 0}
      → Model A
      → String
      → (sign_holders members news certificates company_children company_parents : Bool)
      → Option String
      → M S (ApiResponse A)
  unfolding read
  inquire_legal_identity model national_code sign_holders members news certificates company_children
        company_parents track_id =
      read "inquire_legal_identity" "/ide/v1/services/identity/legal" model
        (field "nationalCode" (str national_code) (
          field "signHolders" (bool sign_holders) (
            field "members" (bool members) (
              field "news" (bool news) (
                field "certificates" (bool certificates) (
                  field "companyChildren" (bool company_children)
                    (field "companyParents" (bool company_parents) end)))))))
        track_id

  unfoldable pub inquire_cheque :
      {A : Type 0} → Model A → String → String → Bool → Option String → M S (ApiResponse A)
  unfolding read
  inquire_cheque model national_code sayad_id holder track_id =
      read "inquire_cheque" "/ide/v1/services/cheque/inquiry" model
        (field "nationalCode" (str national_code)
          (field "sayadId" (str sayad_id) (field "holder" (bool holder) end)))
        track_id

  unfoldable pub get_balances : {A : Type 0} → Model A → Option String → M S (ApiResponse A)
  unfolding read
  get_balances model track_id = read "get_balances" "/ide/v1/balances" model end track_id

  unfoldable pub get_daily_usage_report : {A : Type 0} → Model A → String → M S (ApiResponse A)
  unfolding read
  get_daily_usage_report model day =
      read "get_daily_usage_report" "/ide/v1/reports/daily" model
        (field "yearMonthDay" (str day) end) none

  unfoldable pub service_availability :
      {A : Type 0} → Model A → Bool → Option String → M S (ApiResponse A)
  unfolding read
  service_availability model card_to_iban track_id =
      read "service_availability" "/ide/v1/services/availability" model
        (field "cardToIBAN" (bool card_to_iban) end) track_id

  unfoldable pub health : {A : Type 0} → Model A → M S (ApiResponse A)
  health model =
      typed_request env executor
        (options_of identicator "health" "GET" "/ide/health" read_only null null) model

  unfoldable pub inquire_postal_address :
      {A : Type 0} → Model A → String → Option String → M S (ApiResponse A)
  unfolding read
  inquire_postal_address model given track_id =
      read "inquire_postal_address" "/ide/v1/services/postal" model (field "code" (str given) end)
        track_id

  unfoldable pub inquire_postal_coordinates :
      {A : Type 0} → Model A → String → Option String → M S (ApiResponse A)
  unfolding read
  inquire_postal_coordinates model given track_id =
      read "inquire_postal_coordinates" "/ide/v1/services/postal/wgs" model
        (field "code" (str given) end) track_id

  unfoldable pub inquire_foreigner_identity :
      {A : Type 0} → Model A → String → Option String → M S (ApiResponse A)
  unfolding read
  inquire_foreigner_identity model given track_id =
      read "inquire_foreigner_identity" "/ide/v1/services/foreigners/identity" model
        (field "fida" (str given) end) track_id

  unfoldable pub inquire_legal_sign_holders :
      {A : Type 0} → Model A → String → Option String → M S (ApiResponse A)
  unfolding read
  inquire_legal_sign_holders model given track_id =
      read "inquire_legal_sign_holders" "/ide/v1/services/identity/legal/sign-holders" model
        (field "nationalCode" (str given) end) track_id

  unfoldable pub inquire_military_qualification :
      {A : Type 0} → Model A → String → Option String → M S (ApiResponse A)
  unfolding read
  inquire_military_qualification model given track_id =
      read "inquire_military_qualification" "/ide/v1/services/social/msq" model
        (field "nationalCode" (str given) end) track_id

  unfoldable pub inquire_sana :
      {A : Type 0} → Model A → String → Option String → M S (ApiResponse A)
  unfolding read
  inquire_sana model given track_id =
      read "inquire_sana" "/ide/v1/services/social/sana" model
        (field "nationalCode" (str given) end) track_id

  unfoldable pub inquire_corporation :
      {A : Type 0} → Model A → String → Option String → M S (ApiResponse A)
  unfolding read
  inquire_corporation model given track_id =
      read "inquire_corporation" "/ide/v1/services/corporation/identity" model
        (field "code" (str given) end) track_id

  unfoldable pub inquire_iban :
      {A : Type 0} → Model A → String → Option String → M S (ApiResponse A)
  unfolding read
  inquire_iban model given track_id =
      read "inquire_iban" "/ide/v1/ibans" model (field "value" (str given) end) track_id

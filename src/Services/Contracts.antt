-- ===== src/Services/Contracts.antt =====
-- services/contracts/service.py: the life of a contract. `b64encode` and `b64decode` are Python's,
-- the latter with validate=True, and `ip` parses an address to its canonical text.
pub mod Models
pub mod Once
use jibit_ir_sdk.Prelude.{
  ℕ, String, ◌<>◌, ◌=ₛ◌, Bool, Option, none, some, List, [], ◌∷◌, if◌then◌else◌,
}
use jibit_ir_sdk.Prelude.Text.{lower}
use jibit_ir_sdk.Prelude.Dict.{Dict}
use jibit_ir_sdk.Types.{value, OperationSafety, read_only, unsafe, contracts}
use jibit_ir_sdk.Json.{Json, null, str, obj, end, field}
use jibit_ir_sdk.Transport.{Bytes}
use jibit_ir_sdk.Effects.{Environment, Outcome, M, pure, lift, ◌>>=◌}
use jibit_ir_sdk.Response.{RawResponse, ApiResponse}
use jibit_ir_sdk.Engine.{RequestOptions}
use jibit_ir_sdk.Services.Base.{Model, typed_request, validate_request}
use jibit_ir_sdk.Services.Facade.{options_of, require}
use jibit_ir_sdk.Services.Contracts.Models.{
  Signer, InitiateContractRequest, track_id_ok, initiate_ok, initiate_payload,
}

abbrev contracts_path : String
contracts_path = "/mzahub/v1/contracts"

-- The arguments of `initiate`, but for the address.
pub record ContractDraft : Type 0 where
  pub track_id : String
  pub pdf : Bytes
  pub redirect_url : String
  pub signers : List Signer
  pub expire_at : Option ℕ
  pub description : Option String
  pub signature_appearance : Option String

abbrev pub encoded : (Bytes → String) → ContractDraft → InitiateContractRequest
encoded b64encode d = record {
  track_id = d.track_id;
  base64_file = b64encode d.pdf;
  redirect_url = d.redirect_url;
  signers = d.signers;
  expire_at = d.expire_at;
  description = d.description;
  signature_appearance = d.signature_appearance;
}

pub record SignedDocument : Type 0 where
  pub content : Bytes
  pub content_type : Option String

-- The first header whose name is content-type in any case.
unfoldable pub content_type_of : Dict String → Option String
content_type_of [] = none
content_type_of ((k, v) ∷ d) =
    let rest = content_type_of d in if lower k =ₛ "content-type" then some v else rest

abbrev track_params : String → Json
track_params track = obj (field "trackId" (str track) end)

-- `_track_id`
checked_track : String → String → Outcome String
unfolding require
checked_track given operation =
    require contracts (track_id_ok given) given operation "GET" contracts_path

module _ {S : Type 0} (env : Environment) (b64encode : Bytes → String)
    (b64decode : String → Option Bytes) (ip : String → Option String)
    (executor : RequestOptions → M S RawResponse) where
  -- `_real_ip`
  checked_ip : String → String → Outcome String
  unfolding validate_request
  checked_ip given operation =
      validate_request (ip given) (value contracts) operation "POST" contracts_path

  abbrev options_at :
      String → String → String → String → OperationSafety → Json → Json → RequestOptions
  options_at address operation method path safety params json =
      record (options_of contracts operation method path safety params json) {
        headers = ("X-REAL-IP", address) ∷ [];
      }

  -- `_typed`
  call_at :
      {A : Type 0}
      → String
      → String
      → String
      → String
      → OperationSafety
      → Json
      → Json
      → Model A
      → M S (ApiResponse A)
  unfolding checked_ip
  call_at real_ip operation method path safety params json model = do
    address ← lift (checked_ip real_ip operation)
    typed_request env executor (options_at address operation method path safety params json) model

  unfoldable pub initiate : {A : Type 0} → Model A → ContractDraft → String → M S (ApiResponse A)
  unfolding call_at
  initiate model draft real_ip = do
    request ← lift (
        require contracts (initiate_ok env.unicode b64decode (encoded b64encode draft))
          (encoded b64encode draft) "initiate" "POST" contracts_path)
    call_at real_ip "initiate" "POST" contracts_path unsafe null
        (obj (initiate_payload env.iso_instant request)) model

  unfoldable pub inquire : {A : Type 0} → Model A → String → String → M S (ApiResponse A)
  unfolding checked_track call_at
  inquire model given real_ip = do
    track ← lift (checked_track given "inquire")
    call_at real_ip "inquire" "GET" contracts_path read_only (track_params track) null model

  unfoldable pub cancel : {A : Type 0} → Model A → String → String → M S (ApiResponse A)
  unfolding checked_track call_at
  cancel model given real_ip = do
    track ← lift (checked_track given "cancel")
    call_at real_ip "cancel" "POST" (contracts_path <> "/cancel") unsafe (track_params track) null
        model

  unfoldable pub download_signed : String → String → M S (ApiResponse SignedDocument)
  unfolding checked_track checked_ip
  download_signed given real_ip = do
    track ← lift (checked_track given "download_signed")
    address ← lift (checked_ip real_ip "download_signed")
    raw ← executor (
        options_at address "download_signed" "GET" (contracts_path <> "/download-signed") read_only
          (track_params track) null)
    pure (record {
      result = record { content = raw.content; content_type = content_type_of raw.headers };
      raw = raw;
    })

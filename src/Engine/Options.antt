-- ===== src/Engine/Options.antt =====
-- engine.py: the options of a request, its endpoint, its address and its headers.
use Prim.Native.Char.{code}
use jibit_ir_sdk.Prelude.{
  ℕ, String, ◌<>◌, Bool, ◌&&◌, ◌||◌, Option, none, some, List, [], ◌∷◌, ◌==◌, ◌=ₛ◌, if◌then◌else◌,
}
use jibit_ir_sdk.Prelude.Text.{is_blank, lower, rstrip, lstrip, starts_with_code}
use jibit_ir_sdk.Prelude.Dict.{Dict, set_default}
use jibit_ir_sdk.Types.{ServiceName, OperationSafety, MultipartPart}
use jibit_ir_sdk.Json.{Json}
use jibit_ir_sdk.Config.{JibitConfig, ServiceConfig}
use jibit_ir_sdk.Exceptions.{validation, empty_context, jibit, value_error, Raised}
use jibit_ir_sdk.Transport.{Bytes}
use jibit_ir_sdk.Effects.{Environment, M, pure, raise}

pub record RequestOptions : Type 0 where
  pub service : ServiceName
  pub operation : String
  pub method : String
  pub path : String
  pub safety : OperationSafety
  pub headers : Dict String
  pub params : Json
  pub json : Json
  pub content : Option Bytes
  pub multipart : Option (List MultipartPart)
  pub idempotency_key : Option String
  pub correlation_id : Option String

-- service_config.base_url if service_config and service_config.base_url else config.base_url
abbrev base_url_of : JibitConfig → Option ServiceConfig → String
base_url_of config none = config.base_url
base_url_of config (some s) = elim s.base_url [ none ↦ config.base_url | some url ↦ url ]

-- `_build_url`
unfoldable pub build_url : JibitConfig → ServiceName → String → String
build_url config service endpoint =
    rstrip b'/' (base_url_of config (config.services service)) <> "/" <> lstrip b'/' endpoint

-- The characters that `urlsplit` removes before it splits.
abbrev is_removed : ℕ → Bool
is_removed c = c == 9 || c == 10 || c == 13

visible : String → String
visible String.[] = ""
visible (String.◌∷◌ c s) =
    let rest = visible s in if is_removed (code c) then rest else String.◌∷◌ c rest

abbrev ends_authority : ℕ → Bool
ends_authority c = c == b'/' || c == b'?' || c == b'#'

authority : String → String
authority String.[] = ""
authority (String.◌∷◌ c s) =
    let rest = authority s in if ends_authority (code c) then "" else String.◌∷◌ c rest

-- urlsplit(path).netloc, for a path that starts with a slash.
unfoldable pub netloc : String → String
unfolding visible authority
netloc path = elim (visible path) [
  | String.[] ↦ ""
  | String.◌∷◌ c s ↦ elim s [
    | String.[] ↦ ""
    | String.◌∷◌ d rest ↦ if code c == b'/' && code d == b'/' then authority rest else ""
  ]
]

-- Whether `_validated_endpoint` accepts the path. A path that starts with a slash has no scheme, and
-- one without an authority either is nothing that `urlsplit` raises an error on.
unfoldable pub endpoint_ok : String → Bool
unfolding netloc
endpoint_ok path = starts_with_code b'/' path && is_blank (netloc path)

abbrev pub endpoint_error : Raised
endpoint_error = jibit (record { type = validation; context = empty_context })

-- What a path is refused with: what `urlsplit` raises is not caught.
unfoldable pub endpoint_failure : Environment → String → Raised
endpoint_failure env path = if env.urlsplit_error path then value_error else endpoint_error

-- `_validated_endpoint`, which returns the path itself.
unfoldable pub validated_endpoint : {S : Type 0} → Environment → String → M S (Unit {0})
unfolding endpoint_ok endpoint_failure pure raise
validated_endpoint env path =
    if endpoint_ok path then pure tt else raise (endpoint_failure env path)

abbrev pub with_key : Option String → Dict String → Dict String
with_key none headers = headers
with_key (some key) headers = set_default "Idempotency-Key" key headers

unfoldable pub request_headers : RequestOptions → String → Dict String
request_headers o id =
    with_key o.idempotency_key
      (set_default "X-Correlation-ID" id (set_default "Accept" "application/json" o.headers))

-- lowered.get(key): where two names differ only in case, the later one counts.
last_named : String → Dict String → Option String
last_named key [] = none
last_named key ((k, v) ∷ d) = elim (last_named key d) [
  | none ↦ if lower k =ₛ key then some v else none
  | some later ↦ some later
]

abbrev or_text : Option String → Option String → Option String
or_text none b = b
or_text (some a) b = if is_blank a then b else some a

-- `_upstream_request_id`
unfoldable pub upstream_request_id : Dict String → Option String
unfolding last_named
upstream_request_id headers =
    or_text (last_named "x-request-id" headers)
      (or_text (last_named "request-id" headers) (last_named "trace-id" headers))

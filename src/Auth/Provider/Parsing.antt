-- ===== src/Auth/Provider/Parsing.antt =====
-- auth/provider.py: the bodies of token requests, the parse of their responses, the cache key.
use jibit_ir_sdk.Prelude.{
  ℕ, ◌+◌, ◌*◌, ℤ, pos, negsuc, String, ◌<>◌, ◌=ₛ◌, Bool, true, false, Option, none, some, List, [],
  ◌∷◌, leb, is_empty, if◌then◌else◌,
}
use Prim.Native.Nat.{Ordering}
use Prim.Native.String.{compare}
use jibit_ir_sdk.Prelude.Text.{is_blank, rstrip, take_chars}
use jibit_ir_sdk.Types.{ServiceName, value}
use jibit_ir_sdk.Json.{Json, bool, int, str, arr, Fields, end, field, get, ◌or◌, text_items}
use jibit_ir_sdk.Config.{JibitConfig, ServiceConfig, configuration_error, million}
use jibit_ir_sdk.Exceptions.{authentication, response, empty_context, Raised, jibit, overflow_error}
use jibit_ir_sdk.Effects.{Environment, Outcome, ok, raised}
use jibit_ir_sdk.Auth.Tokens.{
  TokenState, refresh_value, jwt_expiry, float_limit, non_blank, texts, then_ok,
}
use jibit_ir_sdk.Auth.Specs.{AuthSpec}

-- One service's scope: its contract, its settings and those of the SDK that its tokens depend on.
pub record Scope : Type 0 where
  pub service : ServiceName
  pub spec : AuthSpec
  pub config : ServiceConfig
  pub leeway : ℕ
  pub unknown_ttl : Option ℕ

abbrev pub response_error : Raised
response_error = jibit (record { type = response; context = empty_context })

abbrev pub authentication_error : Raised
authentication_error = jibit (record { type = authentication; context = empty_context })

abbrev with_scopes : Option String → List String → Fields
with_scopes none scopes = end
with_scopes (some name) scopes =
    if is_empty scopes then end else field name (arr (text_items scopes)) end

abbrev credential_body : AuthSpec → List String → Option String → Option String → Outcome Fields
credential_body spec scopes (some api_key) (some secret_key) = ok (
    field spec.api_key_field (str api_key)
      (field spec.secret_key_field (str secret_key) (with_scopes spec.scopes_field scopes)))
credential_body spec scopes _ _ = raised configuration_error

-- `_generation_body`. The three field names of a contract are distinct.
unfoldable pub generation_body : Scope → Outcome Fields
generation_body s =
    credential_body s.spec s.config.scopes s.config.credentials.api_key
      s.config.credentials.secret_key

abbrev access_field : Option String → String → Fields
access_field none access = end
access_field (some name) access = field name (str access) end

-- The body of a refresh request.
unfoldable pub refresh_body : AuthSpec → String → TokenState → Fields
refresh_body spec token previous =
    field spec.refresh_token_field (str token)
      (access_field spec.refresh_access_token_field previous.access_token)

positive : ℤ → Option ℕ
positive (pos n) = if leb 1 n then some n else none
positive (negsuc n) = none

abbrev integer_of : Json → Option ℕ
integer_of (int z) = positive z
integer_of (bool true) = some 1
integer_of _ = none

-- `_integer_field`; True is the integer 1.
unfoldable pub integer_field : Fields → Option String → Option ℕ
unfolding positive
integer_field body none = none
integer_field body (some name) = integer_of (get name body)

abbrev or_option : {A : Type 0} → Option A → Option A → Option A
or_option none b = b
or_option (some a) b = some a

-- now + ttl, for an optional whole number of seconds
abbrev expires_after : ℕ → Option ℕ → Outcome (Option ℤ)
expires_after now none = ok none
expires_after now (some ttl) =
    if leb float_limit ttl then raised overflow_error else ok (some (pos (now + ttl * million)))

abbrev text_or_none : Json → Option String
text_or_none (str s) = if is_blank s then none else some s
text_or_none _ = none

abbrev previous_refresh : Option TokenState → Option String
previous_refresh none = none
previous_refresh (some t) = refresh_value t

abbrev same_text : Option String → Option String → Bool
same_text none none = true
same_text (some a) (some b) = a =ₛ b
same_text _ _ = false

-- The expiry of an unchanged refresh token is carried over.
abbrev carried : Option String → Option TokenState → Option ℤ
carried refresh none = none
carried refresh (some t) =
    if same_text refresh (refresh_value t) then t.refresh_expires_at else none

abbrev response_scopes : Environment → List String → Json → List String
response_scopes env configured (arr vs) = texts env vs
response_scopes env configured _ = configured

module _ (env : Environment) (s : Scope) where
  access_expiry : Fields → ℕ → Option ℤ → Outcome (Option ℤ)
  access_expiry body now (some z) = ok (some z)
  access_expiry body now none = expires_after now (
      or_option (integer_field body s.spec.expires_in_field)
        (or_option s.spec.documented_access_ttl_seconds s.unknown_ttl))

  refresh_expiry : Fields → Option TokenState → ℕ → Option String → Outcome (Option ℤ)
  refresh_expiry body previous now refresh =
      elim (or_option (integer_field body s.spec.refresh_expires_in_field)
        s.spec.documented_refresh_ttl_seconds) [
          | none ↦ ok (carried refresh previous)
          | some ttl ↦ expires_after now (some ttl)
        ]

  -- The part of `_parse_token` before the clock is read: the access token of a response.
  unfoldable pub access_token_of : Fields → Outcome String
  access_token_of body = elim (text_or_none (get s.spec.access_response_field body)) [
    | none ↦ raised response_error
    | some access ↦ ok access
  ]

  -- The part of `_parse_token` after it, at the instant that was read.
  unfoldable pub token_state : String → Fields → Option TokenState → ℕ → Outcome TokenState
  unfolding access_expiry refresh_expiry integer_field
  token_state access body previous now =
      let refresh =
        or_option (text_or_none (get s.spec.refresh_response_field body))
          (previous_refresh previous) in
      then_ok (jwt_expiry env access) λ announced.
        then_ok (access_expiry body now announced) λ expires.
          then_ok (refresh_expiry body previous now refresh) λ refresh_expires. ok (record {
            access_token = access;
            refresh_token = refresh;
            expires_at = expires;
            refresh_expires_at = refresh_expires;
            token_type = env.py_str (get "tokenType" body or str "Bearer");
            scopes = response_scopes env s.config.scopes (get "scopes" body);
          })

-- sorted(scopes)
insert_sorted : String → List String → List String
insert_sorted x [] = x ∷ []
insert_sorted x (y ∷ ys) = elim (compare x y) [
  | Ordering.gt ↦ y ∷ insert_sorted x ys
  | _ ↦ x ∷ y ∷ ys
]

abbrev sorted : List String → List String
sorted [] = []
sorted (x ∷ xs) = insert_sorted x (sorted xs)

abbrev join_nul : String → List String → String
join_nul x [] = x
join_nul x (y ∷ ys) = x <> "\0" <> join_nul y ys

-- credentials.api_key or credentials.username
abbrev identifier_of : ServiceConfig → Option String
identifier_of c = or_option (non_blank c.credentials.api_key) c.credentials.username

abbrev url_of : JibitConfig → ServiceConfig → String
url_of config c = elim c.base_url [ none ↦ config.base_url | some url ↦ url ]

-- What a cache key stands for.
unfoldable pub cache_identity : JibitConfig → ServiceConfig → String → String
unfolding insert_sorted
cache_identity config c identifier =
    join_nul identifier (rstrip b'/' (url_of config c) ∷ sorted c.scopes)

abbrev keyed :
    Environment → JibitConfig → ServiceName → ServiceConfig → Option String → Outcome String
keyed env config service c none = raised configuration_error
keyed env config service c (some identifier) = ok (
    config.auth.cache_key_prefix
    <> ":"
    <> value service
    <> ":"
    <> take_chars 20 (env.sha256_hex (cache_identity config c identifier)))

-- `_build_cache_key`
unfoldable pub build_cache_key :
    Environment → JibitConfig → ServiceName → ServiceConfig → Outcome String
unfolding cache_identity
build_cache_key env config service c = keyed env config service c (identifier_of c)

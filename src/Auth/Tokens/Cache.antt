-- ===== src/Auth/Tokens/Cache.antt =====
-- auth/tokens.py: the cache form of a token state.
use jibit_ir_sdk.Prelude.{
  ◌≡◌, refl, ap, ℤ, String, Bool, true, false, Option, none, some, List, [], ◌∷◌, if◌then◌else◌,
}
use jibit_ir_sdk.Prelude.Text.{is_blank}
use jibit_ir_sdk.Json.{str, arr, get, truthy, ◌or◌, or_null, text_items}
use jibit_ir_sdk.Exceptions.{value_error}
use jibit_ir_sdk.Effects.{Environment, Outcome, ok, raised}
use jibit_ir_sdk.Auth.Tokens.{
  TokenState, refresh_value, to_cache_data, from_cache_data, restore, optional_float, optional_text,
  iterated, texts, scopes_or_empty, or_null_float, map_ok,
}

-- A token state as a cache gives it back.
abbrev pub stored : TokenState → Outcome (Option TokenState)
stored t =
    if is_blank t.access_token
    then raised value_error
    else ok (
        some (record t {
          refresh_token = refresh_value t;
          token_type = if is_blank t.token_type then "Bearer" else t.token_type;
        }))

module _ (env : Environment) (same_text : (s : String) → env.py_str (str s) ≡ s) where
  texts-text_items : (ss : List String) → texts env (text_items ss) ≡ ss
  texts-text_items [] = refl
  texts-text_items (s ∷ ss) = cc (same_text s, texts-text_items ss)

  iterated-scopes :
      (ss : List String) → iterated env (scopes_or_empty (arr (text_items ss))) ≡ ok ss
  unfolding truthy
  iterated-scopes [] = refl
  iterated-scopes (s ∷ ss) = ap ok (texts-text_items (s ∷ ss))

  optional_float-or_null_float : (z : Option ℤ) → optional_float (or_null_float z) ≡ ok z
  unfolding optional_float
  optional_float-or_null_float none = refl
  optional_float-or_null_float (some z) = refl

  optional_text-or_null : (s : Option String) → optional_text (or_null s) ≡ s
  optional_text-or_null none = refl
  optional_text-or_null (some s) = refl

  -- A state that is written to a cache and read back is the same state, but for a blank refresh
  -- token, which is forgotten: for an access token and a token type that are not blank, and where
  -- `str` of a text is the text itself.
  pub from_cache_data-to_cache_data :
      (t : TokenState)
      → is_blank t.access_token ≡ false
      → is_blank t.token_type ≡ false
      → from_cache_data env (to_cache_data t) ≡ ok (record t { refresh_token = refresh_value t })
  unfolding from_cache_data to_cache_data restore get truthy
  from_cache_data-to_cache_data t h k =
      rw
        (
          h,
          k,
          iterated-scopes t.scopes,
          optional_float-or_null_float t.expires_at,
          optional_float-or_null_float t.refresh_expires_at,
          optional_text-or_null (refresh_value t),
          same_text t.token_type,
        )
        refl

  default_type :
      (s : String) → env.py_str (str s or str "Bearer") ≡ (if is_blank s then "Bearer" else s)
  unfolding truthy
  default_type String.[] = same_text "Bearer"
  default_type (String.◌∷◌ c s) = same_text (String.◌∷◌ c s)

  map_ok-if :
      (b : Bool) (t : TokenState)
      → map_ok some (if b then raised value_error else ok t)
        ≡ (if b then raised value_error else ok (some t))
  map_ok-if true t = refl
  map_ok-if false t = refl

  -- What comes back of a state that was written to a cache, without a condition: an access token
  -- that is blank is refused, and a blank token type is the default one.
  pub from_cache_data-stored :
      (t : TokenState) → map_ok some (from_cache_data env (to_cache_data t)) ≡ stored t
  unfolding from_cache_data to_cache_data restore get truthy
  from_cache_data-stored t =
      rw
        (
          iterated-scopes t.scopes,
          optional_float-or_null_float t.expires_at,
          optional_float-or_null_float t.refresh_expires_at,
          optional_text-or_null (refresh_value t),
          default_type t.token_type,
        )
        (map_ok-if (is_blank t.access_token) _)

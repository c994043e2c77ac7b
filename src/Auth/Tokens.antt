-- ===== src/Auth/Tokens.antt =====
-- auth/tokens.py: the state of a token, and the expiry that a JWT announces. Instants are whole
-- microseconds; a float that is not finite is not modelled.
pub mod Cache
use Prim.Native.Char.{Char, code}
use jibit_ir_sdk.Prelude.{
  ℕ, suc, ◌+◌, ◌-◌, ◌*◌, ◌%◌, ◌^◌, ℤ, pos, negsuc, String, ◌<>◌, Bool, true, false, ◌&&◌, Option,
  none, some, List, [], ◌∷◌, ◌==◌, ltb, leb, is_some, if◌then◌else◌, all,
}
use jibit_ir_sdk.Prelude.Text.{is_blank, count_chars, codes}
use jibit_ir_sdk.Json.{
  Json, null, bool, int, float, str, arr, obj, Items, nil, cons, Fields, end, field, get, ◌or◌,
  or_null, text_items,
}
use jibit_ir_sdk.Config.{million}
use jibit_ir_sdk.Exceptions.{value_error, type_error, overflow_error}
use jibit_ir_sdk.Transport.{Bytes}
use jibit_ir_sdk.Effects.{Environment, Outcome, ok, raised}

pub record TokenState : Type 0 where
  pub access_token : String
  pub refresh_token : Option String
  pub expires_at : Option ℤ
  pub refresh_expires_at : Option ℤ
  pub token_type : String
  pub scopes : List String

-- An empty secret is falsy.
abbrev pub non_blank : Option String → Option String
non_blank none = none
non_blank (some s) = if is_blank s then none else some s

abbrev pub refresh_value : TokenState → Option String
refresh_value t = non_blank t.refresh_token

-- now + leeway < expires_at
abbrev pub is_before : ℕ → Option ℤ → Bool
is_before n none = true
is_before n (some (pos m)) = ltb n m
is_before n (some (negsuc m)) = false

-- `leeway` is in seconds.
unfoldable pub is_access_valid : TokenState → ℕ → ℕ → Bool
is_access_valid t now leeway = is_before (now + leeway * million) t.expires_at

unfoldable pub is_refresh_valid : TokenState → ℕ → ℕ → Bool
is_refresh_valid t now leeway =
    is_some t.refresh_token && is_before (now + leeway * million) t.refresh_expires_at

abbrev pub or_null_float : Option ℤ → Json
or_null_float none = null
or_null_float (some z) = float z

unfoldable pub to_cache_data : TokenState → Fields
to_cache_data t = field "access_token" (str t.access_token) (
    field "refresh_token" (or_null (refresh_value t)) (
      field "expires_at" (or_null_float t.expires_at) (
        field "refresh_expires_at" (or_null_float t.refresh_expires_at) (
          field "token_type" (str t.token_type) (field "scopes" (arr (text_items t.scopes)) end)))))

-- The whole numbers from here on have no nearest float.
abbrev pub float_limit : ℕ
float_limit = 2 ^ 1024 - 2 ^ 970

abbrev scale : ℤ → ℤ
scale (pos n) = pos (n * million)
scale (negsuc n) = negsuc (suc n * million - 1)

abbrev magnitude : ℤ → ℕ
magnitude (pos n) = n
magnitude (negsuc n) = suc n

-- float(n)
unfoldable pub to_float : ℤ → Outcome ℤ
to_float z = if leb float_limit (magnitude z) then raised overflow_error else ok (scale z)

abbrev pub map_ok : {A B : Type 0} → (A → B) → Outcome A → Outcome B
map_ok f (ok a) = ok (f a)
map_ok f (raised e) = raised e

abbrev pub then_ok : {A B : Type 0} → Outcome A → (A → Outcome B) → Outcome B
then_ok (ok a) f = f a
then_ok (raised e) f = raised e

abbrev bool_int : Bool → ℤ
bool_int true = pos 1
bool_int false = pos 0

-- `_optional_float`; a bool is an int.
unfoldable pub optional_float : Json → Outcome (Option ℤ)
unfolding to_float
optional_float (int z) = map_ok some (to_float z)
optional_float (float z) = ok (some z)
optional_float (bool b) = ok (some (scale (bool_int b)))
optional_float _ = ok none

abbrev pub texts : Environment → Items → List String
texts env nil = []
texts env (cons v vs) = env.py_str v ∷ texts env vs

abbrev characters : String → List String
characters String.[] = []
characters (String.◌∷◌ c s) = String.◌∷◌ c "" ∷ characters s

abbrev keys : Fields → List String
keys end = []
keys (field k v fs) = k ∷ keys fs

-- tuple(str(scope) for scope in value or ()), with a TypeError where the value is not iterable
abbrev pub iterated : Environment → Json → Outcome (List String)
iterated env (arr vs) = ok (texts env vs)
iterated env (str s) = ok (characters s)
iterated env (obj fs) = ok (keys fs)
iterated env null = ok []
iterated env _ = raised type_error

abbrev pub scopes_or_empty : Json → Json
scopes_or_empty v = v or null

abbrev pub optional_text : Json → Option String
optional_text (str s) = some s
optional_text _ = none

module _ (env : Environment) where
  restore : String → Fields → Outcome TokenState
  restore access value = then_ok (optional_float (get "expires_at" value)) λ expires.
      then_ok (optional_float (get "refresh_expires_at" value)) λ refresh_expires.
        then_ok (iterated env (scopes_or_empty (get "scopes" value))) λ scopes. ok (record {
          access_token = access;
          refresh_token = optional_text (get "refresh_token" value);
          expires_at = expires;
          refresh_expires_at = refresh_expires;
          token_type = env.py_str (get "token_type" value or str "Bearer");
          scopes = scopes;
        })

  abbrev with_access : Json → (String → Outcome TokenState) → Outcome TokenState
  with_access (str s) f = if is_blank s then raised value_error else f s
  with_access _ f = raised value_error

  unfoldable pub from_cache_data : Fields → Outcome TokenState
  unfolding restore optional_float
  from_cache_data value = with_access (get "access_token" value) (λ access. restore access value)

  -- token.split(".")
  abbrev add_char : Char → List String → List String
  add_char c [] = String.◌∷◌ c "" ∷ []
  add_char c (p ∷ ps) = String.◌∷◌ c p ∷ ps

  unfoldable pub split_dots : String → List String
  split_dots String.[] = "" ∷ []
  split_dots (String.◌∷◌ c s) =
      let rest = split_dots s in if code c == b'.' then "" ∷ rest else add_char c rest

  abbrev padding : ℕ → String
  padding n = if n == 1 then "===" else if n == 2 then "==" else if n == 3 then "=" else ""

  -- payload + "=" * (-len(payload) % 4)
  abbrev padded : String → String
  padded s = s <> padding (count_chars s % 4)

  abbrev loaded : Option Bytes → Option Json
  loaded none = none
  loaded (some content) = env.loads content

  abbrev expiry_claim : Option Json → Json
  expiry_claim (some (obj fs)) = get "exp" fs
  expiry_claim _ = null

  -- float(expiry), where a ValueError or a TypeError gives None
  abbrev expiry_float : Json → Outcome (Option ℤ)
  expiry_float (str s) = ok (env.float_of_text s)
  expiry_float v = optional_float v

  decode_payload : String → Outcome (Option ℤ)
  unfolding optional_float
  decode_payload payload =
      if all (λ c. ltb c 128) (codes payload)
      then expiry_float (expiry_claim (loaded (env.b64decode (padded payload))))
      else ok none

  abbrev middle_of_three : List String → Option String
  middle_of_three (a ∷ b ∷ c ∷ []) = some b
  middle_of_three _ = none

  abbrev decode_part : Option String → Outcome (Option ℤ)
  decode_part none = ok none
  decode_part (some payload) = decode_payload payload

  unfoldable pub jwt_expiry : String → Outcome (Option ℤ)
  unfolding split_dots decode_payload
  jwt_expiry token = decode_part (middle_of_three (split_dots token))

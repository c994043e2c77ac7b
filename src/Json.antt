-- ===== src/Json.antt =====
-- Values of a dynamic language: what `json.loads` returns and what log and audit fields hold.
-- A float is a whole number of millionths.
use jibit_ir_sdk.Prelude.{ℕ, ℤ, pos, negsuc, String, ◌=ₛ◌, Bool, true, false, not}
use jibit_ir_sdk.Prelude.{Option, none, some, List, [], ◌∷◌, if◌then◌else◌, ◌==◌}
use jibit_ir_sdk.Prelude.Text.{is_blank}

mutual
  pub data Json : Type 0 where
    null : Json
    bool : Bool → Json
    int : ℤ → Json
    float : ℤ → Json
    str : String → Json
    bytes : ℕ → Json
    arr : Items → Json
    obj : Fields → Json

  pub data Items : Type 0 where
    nil : Items
    cons : Json → Items → Items

  pub data Fields : Type 0 where
    end : Fields
    field : String → Json → Fields → Fields

-- body.get(key); a missing key and a JSON null are both None.
unfoldable pub get : String → Fields → Json
get k end = null
get k (field j v fs) = if j =ₛ k then v else get k fs

abbrev nonzero : ℤ → Bool
nonzero (pos n) = not (n == 0)
nonzero (negsuc n) = true

-- bool(value)
unfoldable pub truthy : Json → Bool
truthy null = false
truthy (bool b) = b
truthy (int z) = nonzero z
truthy (float z) = nonzero z
truthy (str s) = not (is_blank s)
truthy (bytes n) = not (n == 0)
truthy (arr nil) = false
truthy (arr (cons v vs)) = true
truthy (obj end) = false
truthy (obj (field k v fs)) = true

-- a or b
infixr 30 ◌or◌
abbrev pub ◌or◌ : Json → Json → Json
a or b = if truthy a then a else b

abbrev pub or_null : Option String → Json
or_null none = null
or_null (some s) = str s

abbrev pub text_items : List String → Items
text_items [] = nil
text_items (s ∷ ss) = cons (str s) (text_items ss)

-- ===== src/Services/Fields.antt =====
-- What the request models share: bounds of fields, and the payload that `to_payload` of models.py
-- writes, which leaves None out.
use jibit_ir_sdk.Prelude.{ℕ, String, Bool, true, ◌&&◌, Option, none, some, List, [], ◌∷◌, pos, leb}
use jibit_ir_sdk.Prelude.Text.{count_chars}
use jibit_ir_sdk.Json.{Json, null, bool, int, str, obj, Items, nil, cons, Fields}
use jibit_ir_sdk.Logging.{to_fields}
use jibit_ir_sdk.Services.Base.{compact_values}

-- A bound on an optional field holds of None.
abbrev pub bounded : {A : Type 0} → (A → Bool) → Option A → Bool
bounded p none = true
bounded p (some a) = p a

abbrev pub between : ℕ → ℕ → ℕ → Bool
between lo hi n = leb lo n && leb n hi

abbrev pub text_between : ℕ → ℕ → String → Bool
text_between lo hi s = between lo hi (count_chars s)

abbrev pub number : Option ℕ → Json
number none = null
number (some n) = int (pos n)

-- to_payload: None is left out.
abbrev pub payload : List (String × Json) → Fields
payload d = compact_values (to_fields d)

abbrev pub flag : Option Bool → Json
flag none = null
flag (some b) = bool b

-- The value of an optional field of an enumeration.
abbrev pub named : {A : Type 0} → (A → String) → Option A → Json
named name none = null
named name (some a) = str (name a)

abbrev pub objects : {A : Type 0} → (A → Fields) → List A → Items
objects write [] = nil
objects write (a ∷ rest) = cons (obj (write a)) (objects write rest)

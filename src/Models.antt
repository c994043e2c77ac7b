-- ===== src/Models.antt =====
-- models.py: the aliases under which the fields of a model stand on the wire.
use Prim.Native.Char.{Char, code}
use jibit_ir_sdk.Prelude.{String, ◌<>◌, ◌==◌, List, [], ◌∷◌, if◌then◌else◌}
use jibit_ir_sdk.Prelude.Text.{upper, lower}

abbrev add_char : Char → List String → List String
add_char c [] = String.◌∷◌ c "" ∷ []
add_char c (p ∷ ps) = String.◌∷◌ c p ∷ ps

-- value.split("_")
unfoldable pub split_underscores : String → List String
split_underscores String.[] = "" ∷ []
split_underscores (String.◌∷◌ c s) =
    let rest = split_underscores s in if code c == b'_' then "" ∷ rest else add_char c rest

-- part.capitalize()
unfoldable pub capitalize : String → String
capitalize String.[] = ""
capitalize (String.◌∷◌ c s) = upper (String.◌∷◌ c "") <> lower s

abbrev capitalized : List String → String
capitalized [] = ""
capitalized (p ∷ ps) = capitalize p <> capitalized ps

abbrev joined : List String → String
joined [] = ""
joined (head ∷ tail) = head <> capitalized tail

-- `_to_camel`
unfoldable pub to_camel : String → String
unfolding split_underscores capitalize
to_camel value = joined (split_underscores value)

-- ===== src/Redaction.antt =====
-- redaction.py: `redact`, a recursive copy of a value that is safe to log.
mod Keys
mod Masks
pub mod Secrecy
pub mod Words
unfoldable pub use Keys.{normalize_key, sensitive_key_parts, is_sensitive_key, contains_part}
unfoldable pub use Masks.{redact_text}
unfoldable pub use Masks.{decimal}
use jibit_ir_sdk.Prelude.{ℕ, String, ◌<>◌, if◌then◌else◌}
use jibit_ir_sdk.Json.{
  Json, null, bool, int, float, str, bytes, arr, obj, Items, nil, cons, Fields, end, field,
}
use jibit_ir_sdk.Unicode.{Unicode}

abbrev pub redacted : String
redacted = "[REDACTED]"

abbrev binary_note : ℕ → String
binary_note n = "[BINARY:" <> decimal n <> " bytes]"

module _ (u : Unicode) where
  unfoldable mutual
    pub redact : Json → Json
    redact null = null
    redact (bool b) = bool b
    redact (int z) = int z
    redact (float z) = float z
    redact (str s) = str (redact_text u s)
    redact (bytes n) = str (binary_note n)
    redact (arr vs) = arr (redact_items vs)
    redact (obj fs) = obj (redact_fields fs)

    pub redact_items : Items → Items
    redact_items nil = nil
    redact_items (cons v vs) = cons (redact v) (redact_items vs)

    pub redact_fields : Fields → Fields
    redact_fields end = end
    redact_fields (field k v fs) =
        let copied = redact v in
        let rest = redact_fields fs in
        field k (if is_sensitive_key u k then str redacted else copied) rest

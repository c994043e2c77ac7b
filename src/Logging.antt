-- ===== src/Logging.antt =====
-- logging.py: the names of the SDK's events, and audit events.
use jibit_ir_sdk.Prelude.{String, [], ◌∷◌}
use jibit_ir_sdk.Prelude.Dict.{Dict}
use jibit_ir_sdk.Json.{Json, str, obj, Fields, end, field}
use jibit_ir_sdk.Unicode.{Unicode}
use jibit_ir_sdk.Redaction.{redact, redact_fields}

pub data Level : Type 0 where
  info warning error : Level

pub data EventName : Type 0 where
  request_started request_completed request_failed retry_scheduled : EventName
  token_acquired token_refreshed token_refresh_failed : EventName
  audit_emit_failed webhook_received webhook_rejected : EventName

abbrev pub to_fields : Dict Json → Fields
to_fields [] = end
to_fields ((k, v) ∷ d) = field k v (to_fields d)

pub record AuditEvent : Type 0 where
  pub name : String
  pub correlation_id : String
  pub service : String
  pub operation : String
  pub outcome : String
  pub metadata : Fields

module _ (u : Unicode) where
  -- __post_init__
  unfoldable pub post_init : AuditEvent → AuditEvent
  post_init e = record e { metadata = redact_fields u e.metadata }

  -- `safe_dict`
  unfoldable pub safe_dict : AuditEvent → Json
  safe_dict e = redact u (
      obj (
        to_fields (
          ("name", str e.name)
          ∷ ("correlation_id", str e.correlation_id)
          ∷ ("service", str e.service)
          ∷ ("operation", str e.operation)
          ∷ ("outcome", str e.outcome)
          ∷ ("metadata", obj e.metadata)
          ∷ [])))

-- ===== src/Services/Base/Audit.antt =====
-- services/base.py: what auditing adds to a call.
use jibit_ir_sdk.Prelude.{
  ℕ, ◌+◌, ◌≡◌, refl, ◌∙◌, arith, String, Bool, true, false, Option, none, some,
}
use jibit_ir_sdk.Types.{value}
use jibit_ir_sdk.Json.{Fields}
use jibit_ir_sdk.Exceptions.{
  Raised, jibit, value_error, type_error, overflow_error, other_error, out_of_fuel,
}
use jibit_ir_sdk.Logging.{AuditEvent, Level, EventName}
use jibit_ir_sdk.Effects.{
  Environment, Event, audited, logged, World, Outcome, ok, raised, M, pure, raise, catch, resume,
  continue, ◌>>=◌, ◌>>◌,
}
use jibit_ir_sdk.Effects.Silent.{Returns-bind, catch_silently, then_silently}
use jibit_ir_sdk.Effects.Counts.{
  count, Adds, Returns, Adds-pure, Adds-then, Adds-ask, Adds-log, Returns-ask, Returns-pure,
  Returns-log, Adds-skip, Adds-ask_off,
}
use jibit_ir_sdk.Response.{RawResponse}
use jibit_ir_sdk.Engine.{RequestOptions}
use jibit_ir_sdk.Services.Base.{after_sink, emit, audit_error, audited_execute}

abbrev pub is_audit : Event → Bool
is_audit (audited event) = true
is_audit _ = false

abbrev pub audits_of_error : Raised → ℕ
audits_of_error (jibit e) = 1
audits_of_error _ = 0

-- How many audit events a call with this outcome leaves.
abbrev pub audits : {A : Type 0} → Outcome A → ℕ
audits (ok a) = 1
audits (raised e) = audits_of_error e

module _ {S : Type 0} (env : Environment) {p : Event → Bool}
    (log_off : (level : Level) (event : EventName) (kept : Fields)
      → p (logged level event kept) ≡ false)
    (audit_off : (event : AuditEvent) → p (audited event) ≡ false) where
  sink_quiet :
      (service operation id : String) (failure : Option String)
      → Adds {S = S} p 0 0 (after_sink env service operation id failure)
  unfolding after_sink
  sink_quiet service operation id none = Adds-pure _
  sink_quiet service operation id (some e) = Adds-log env _ _ _ (λ kept. log_off _ _ kept)

  -- Auditing leaves uncounted whatever is neither a log record nor an audit event.
  pub emit_quiet :
      (name service operation id outcome : String) (metadata : Fields)
      → Adds {S = S} p 0 0 (emit env name service operation id outcome metadata)
  unfolding emit
  emit_quiet name service operation id outcome metadata =
      Adds-skip _ _ (Adds-ask_off _ _ (audit_off _))
        λ failure. sink_quiet service operation id failure

  pub audit_error_quiet :
      (name service operation : String) (e : Raised)
      → Adds {S = S} p 0 0 (audit_error env name service operation e)
  unfolding audit_error
  audit_error_quiet name service operation (jibit e) = emit_quiet _ _ _ _ _ _
  audit_error_quiet name service operation value_error = Adds-pure _
  audit_error_quiet name service operation type_error = Adds-pure _
  audit_error_quiet name service operation overflow_error = Adds-pure _
  audit_error_quiet name service operation other_error = Adds-pure _
  audit_error_quiet name service operation out_of_fuel = Adds-pure _

module _ {S : Type 0} (env : Environment) where
  after_sink-Returns :
      (service operation id : String) (failure : Option String)
      → Returns {S = S} (after_sink env service operation id failure)
  unfolding after_sink
  after_sink-Returns service operation id none = Returns-pure _
  after_sink-Returns service operation id (some e) = Returns-log env _ _ _

  pub emit-Returns :
      (name service operation id outcome : String) (metadata : Fields)
      → Returns {S = S} (emit env name service operation id outcome metadata)
  unfolding emit
  emit-Returns name service operation id outcome metadata =
      Returns-bind _ _ (Returns-ask _ _) λ failure. after_sink-Returns _ _ _ failure

  pub audit_error-Returns :
      (name service operation : String) (e : Raised)
      → Returns {S = S} (audit_error env name service operation e)
  unfolding audit_error
  audit_error-Returns name service operation (jibit e) = emit-Returns _ _ _ _ _ _
  audit_error-Returns name service operation value_error = Returns-pure _
  audit_error-Returns name service operation type_error = Returns-pure _
  audit_error-Returns name service operation overflow_error = Returns-pure _
  audit_error-Returns name service operation other_error = Returns-pure _
  audit_error-Returns name service operation out_of_fuel = Returns-pure _

  -- Auditing never changes what a call returns or raises, not even when the sink fails: on every
  -- world the audited executor has the outcome of the executor.
  pub audited_execute_transparent :
      (name : String) (executor : RequestOptions → M S RawResponse) (o : RequestOptions)
      (w : World S)
      → (audited_execute env name executor o w).0 ≡ (executor o w).0
  unfolding audited_execute
  audited_execute_transparent name executor o w =
      then_silently _ _ w (λ raw. emit-Returns _ _ _ _ _ _)
      ∙ catch_silently (executor o) _ w (λ e. audit_error-Returns _ _ _ e)

  after_sink-Adds :
      (service operation id : String) (failure : Option String)
      → Adds {S = S} is_audit 0 0 (after_sink env service operation id failure)
  unfolding after_sink
  after_sink-Adds service operation id none = Adds-pure _
  after_sink-Adds service operation id (some e) = Adds-log env _ _ _ (λ _. refl)

  pub emit-Adds :
      (name service operation id outcome : String) (metadata : Fields)
      → Adds {S = S} is_audit 1 1 (emit env name service operation id outcome metadata)
  unfolding emit after_sink
  emit-Adds name service operation id outcome metadata =
      Adds-then _ _ (Returns-ask _ _) (Adds-ask _ _)
        λ failure. after_sink-Adds service operation id failure

  audit_error-Adds :
      (name service operation : String) (e : Raised)
      → Adds {S = S} is_audit
          (audits_of_error e)
          (audits_of_error e)
          (audit_error env name service operation e)
  unfolding audit_error
  audit_error-Adds name service operation (jibit e) = emit-Adds _ _ _ _ _ _
  audit_error-Adds name service operation value_error = Adds-pure _
  audit_error-Adds name service operation type_error = Adds-pure _
  audit_error-Adds name service operation overflow_error = Adds-pure _
  audit_error-Adds name service operation other_error = Adds-pure _
  audit_error-Adds name service operation out_of_fuel = Adds-pure _

  pub after_executor :
      {A : Type 0} (name service operation : String) (r : Outcome A) (w : World S)
      (f : A → M S (Unit {0}))
      → ((raw : A) → Adds is_audit 1 1 (f raw))
      → ((raw : A) → Returns (f raw))
      → let (r', w') = resume r (λ e. audit_error env name service operation e >> raise e) w in
        count is_audit (continue r' (λ raw. f raw >> pure raw) w').1.trace
        ≡ audits r + count is_audit w.trace
  unfolding ◌>>=◌ raise pure
  after_executor name service operation (ok raw) w f h k =
      let (u, same) = (k raw).answer w in
      rw same (let low = (h raw).at_least w in let high = (h raw).at_most w in omega arith)
  after_executor name service operation (raised e) w f h k =
      let (u, same) = (audit_error-Returns name service operation e).answer w in
      let a = audit_error-Adds name service operation e in
      rw same (let low = a.at_least w in let high = a.at_most w in omega arith)

  -- Around an executor that audits nothing itself, a call that returns or raises an error of the
  -- hierarchy leaves exactly one audit event, and a call that raises another exception leaves none.
  pub audited_execute_once :
      (name : String) (executor : RequestOptions → M S RawResponse) (o : RequestOptions)
      (w : World S)
      → Adds is_audit 0 0 (executor o)
      → count is_audit (audited_execute env name executor o w).1.trace
        ≡ audits (executor o w).0 + count is_audit w.trace
  unfolding audited_execute catch ◌>>=◌
  audited_execute_once name executor o w h =
      let low = h.at_least w in
      let high = h.at_most w in
      after_executor name (value o.service) o.operation (executor o w).0 (executor o w).1 _
        (λ raw. emit-Adds _ _ _ _ _ _) (λ raw. emit-Returns _ _ _ _ _ _)
      ∙ omega arith

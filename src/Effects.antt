-- ===== src/Effects.antt =====
-- Calls that touch the outside. A world is the history of such calls, newest first, and the state
-- of the token store. What the outside answers may depend on the whole history: `Environment` is a
-- parameter of everything that the SDK does.
pub mod Counts
pub mod Ends
pub mod Silent
pub mod Keeps
pub mod Delivers
use jibit_ir_sdk.Prelude.{
  ℕ, ℤ, String, Bool, true, false, Option, none, some, List, [], ◌∷◌, if◌then◌else◌,
}
use jibit_ir_sdk.Prelude.Dict.{Dict}
use jibit_ir_sdk.Json.{Json, Fields}
use jibit_ir_sdk.Exceptions.{Raised}
use jibit_ir_sdk.Unicode.{Unicode}
use jibit_ir_sdk.Redaction.{redact_fields}
use jibit_ir_sdk.Logging.{Level, EventName, AuditEvent, to_fields}
use jibit_ir_sdk.Transport.{Bytes, TransportRequest, Reply}

pub data Event : Type 0 where
  drew_id read_monotonic read_clock drew_random : Event
  sent : TransportRequest → Event
  slept : ℕ → Event
  logged : Level → EventName → Fields → Event
  audited : AuditEvent → Event
  locked unlocked : String → Event
  store_read store_written store_deleted : String → Event
  verified : Event
  claimed : String → Event

-- The callables that the client is built with, and the parts of Python's library that decode.
pub record Environment : Type 0 where
  pub unicode : Unicode
  -- str(uuid.uuid4())
  pub new_id : List Event → String
  pub monotonic : List Event → ℕ
  pub clock : List Event → ℕ
  -- random.random(), in millionths
  pub random : List Event → ℕ
  pub send : List Event → TransportRequest → Reply
  -- logging.enabled of the configuration
  pub logging_enabled : Bool
  -- the class of the exception that an audit sink raises
  pub sink_error : List Event → AuditEvent → Option String
  -- what taking or releasing a lock raises, the last event of the history
  pub lock_error : List Event → Option Raised
  -- json.loads; `none` where it raises ValueError
  pub loads : Bytes → Option Json
  -- str(value) of a decoded value
  pub py_str : Json → String
  -- base64.urlsafe_b64decode; `none` where it raises ValueError
  pub b64decode : String → Option Bytes
  -- float(text), in millionths; `none` where it raises ValueError
  pub float_of_text : String → Option ℤ
  -- whether urlsplit raises ValueError
  pub urlsplit_error : String → Bool
  -- the JSON text of an instant, as pydantic writes it
  pub iso_instant : ℕ → String
  -- hashlib.sha256(text.encode()).hexdigest()
  pub sha256_hex : String → String

pub record World (S : Type 0) : Type 0 where
  pub trace : List Event
  pub store : S

pub data Outcome (A : Type 0) : Type 0 where
  ok : A → Outcome A
  raised : Raised → Outcome A

-- The outcome of a call that may raise.
abbrev pub unless : {A : Type 0} → Option Raised → Outcome A → Outcome A
unless none r = r
unless (some e) r = raised e

abbrev pub M : Type 0 → Type 0 → Type 0
M S A = World S → Outcome A × World S

module _ {S A : Type 0} where
  unfoldable pub pure : A → M S A
  pure a w = (ok a, w)

  unfoldable pub raise : Raised → M S A
  raise e w = (raised e, w)

  -- A computation that touches nothing.
  unfoldable pub lift : Outcome A → M S A
  lift r w = (r, w)

  -- `try: m except ...: handler`; the handler raises again what it does not catch.
  abbrev pub resume : Outcome A → (Raised → M S A) → M S A
  resume (ok a) h w = (ok a, w)
  resume (raised e) h w = h e w

  unfoldable pub catch : M S A → (Raised → M S A) → M S A
  catch m h w = let (r, w') = m w in resume r h w'

  -- The body of a `with`, unless its lock could not be taken.
  abbrev pub entered : Environment → String → M S A → Option Raised → M S A
  entered env key m (some e) w = (raised e, w)
  entered env key m none w =
      let (r, w') = m (record w { trace = locked key ∷ w.trace }) in
      let history = unlocked key ∷ w'.trace in
      (unless (env.lock_error history) r, record w' { trace = history })

  -- `with lock(key): m`; the lock is released on every way out, and what the release raises takes the
  -- place of the outcome.
  unfoldable pub with_lock : Environment → String → M S A → M S A
  with_lock env key m w = entered env key m (env.lock_error (locked key ∷ w.trace)) w

module _ {S A B : Type 0} where
  abbrev pub continue : Outcome A → (A → M S B) → M S B
  continue (ok a) f w = f a w
  continue (raised e) f w = (raised e, w)

  infixl 10 ◌>>=◌ ◌>>◌
  unfoldable pub ◌>>=◌ : M S A → (A → M S B) → M S B
  unfolding pure raise
  ◌>>=◌ m f w = let (r, w') = m w in continue r f w'

  abbrev pub ◌>>◌ : M S A → M S B → M S B
  m >> n = m >>= λ _. n

module _ {S : Type 0} where
  -- A call that answers nothing.
  unfoldable pub act : Event → M S (Unit {0})
  act e w = (ok tt, record w { trace = e ∷ w.trace })

  -- A call whose answer depends on the history.
  unfoldable pub ask : {A : Type 0} → Event → (List Event → A) → M S A
  ask e answer w = (ok (answer w.trace), record w { trace = e ∷ w.trace })

module _ {S : Type 0} (env : Environment) where
  -- `StructuredLogger.emit`
  unfoldable pub log : Level → EventName → Dict Json → M S (Unit {0})
  unfolding act pure
  log level event fields =
      if env.logging_enabled
      then act (logged level event (redact_fields env.unicode (to_fields fields)))
      else pure tt

-- ===== src/Security/Audit.antt =====
-- services/securityd/src/audit.rs and signals.rs, and the state that the service works on.
use mission_os.Base.{ℕ, List, [], ◌∷◌, ◌++◌, ◌+◌, ◌%◌, ◌^◌, Option, none}
use mission_os.Base.Text.{Text, codes}

pub data EventCategory : Type 0 where
  authentication privilege security privacy update driver system : EventCategory

unfoldable pub category_text : EventCategory → Text
category_text authentication = codes "authentication"
category_text privilege = codes "privilege"
category_text security = codes "security"
category_text privacy = codes "privacy"
category_text update = codes "update"
category_text driver = codes "driver"
category_text system = codes "system"

pub data EventSeverity : Type 0 where
  debug info warning error critical : EventSeverity

unfoldable pub severity_text : EventSeverity → Text
severity_text debug = codes "debug"
severity_text info = codes "info"
severity_text warning = codes "warning"
severity_text error = codes "error"
severity_text critical = codes "critical"

pub record AuditEvent : Type 0 where
  pub timestamp : ℕ
  pub category : EventCategory
  pub severity : EventSeverity
  pub action : Text
  pub subject : Text
  pub details : Text
  pub correlation_id : Option Text

-- The body of the signal `SecurityEvent`.
pub record Signal : Type 0 where
  pub sequence : ℕ
  pub timestamp : ℕ
  pub category : Text
  pub severity : Text
  pub action : Text
  pub subject : Text
  pub details : Text

-- The clock is the times that its readings show one after the other, with the number of those made.
pub record World : Type 0 where
  pub clock : ℕ → ℕ
  pub readings : ℕ
  pub log : List AuditEvent
  pub signals : List Signal
  pub sequence : ℕ

abbrev pub M : Type 0 → Type 0
M A = World → World × A

infixl 5 ◌>>=◌ ◌>>◌
abbrev pub ◌>>=◌ : {A B : Type 0} → M A → (A → M B) → M B
◌>>=◌ m f w = let (w', a) = m w in f a w'

abbrev pub ◌>>◌ : {B : Type 0} → M (Unit {0}) → M B → M B
m >> k = m >>= λ _. k

abbrev pub pure : {A : Type 0} → A → M A
pure a w = (w, a)

unfoldable pub read_clock : M ℕ
read_clock w = (record w { readings = w.readings + 1 }, w.clock w.readings)

unfoldable pub next_sequence : M ℕ
next_sequence w = (record w { sequence = (w.sequence + 1) % 2 ^ 64 }, w.sequence)

-- `AuditEvent::new`.
unfoldable pub new_event : EventCategory → EventSeverity → Text → Text → Text → M AuditEvent
unfolding read_clock
new_event category severity action subject details = do
  now ← read_clock
  pure (record {
    timestamp = now;
    category = category;
    severity = severity;
    action = action;
    subject = subject;
    details = details;
    correlation_id = none;
  })

-- `AuditBackend::record`.
unfoldable pub record_event : AuditEvent → M (Unit {0})
record_event event w = (record w { log = w.log ++ event ∷ [] }, tt)

-- `emit_security_event` of dbus.rs; an error of the emission is not looked at.
unfoldable pub emit_security_event : AuditEvent → M (Unit {0})
unfolding next_sequence read_clock category_text severity_text
emit_security_event event = do
  sequence ← next_sequence
  now ← read_clock
  λ w. (
    record w {
      signals =
          w.signals
          ++ record {
            sequence = sequence;
            timestamp = now;
            category = category_text event.category;
            severity = severity_text event.severity;
            action = event.action;
            subject = event.subject;
            details = event.details;
          }
            ∷ [];
    },
    tt,
  )

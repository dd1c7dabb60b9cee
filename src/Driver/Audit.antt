-- ===== src/Driver/Audit.antt =====
-- services/driverd/src/audit.rs: the events. The backends write them out; the log is their list.
use mission_os.Base.{ℕ, Option, none}
use mission_os.Base.Text.{Text}

pub data EventCategory : Type 0 where
  driver_install driver_update driver_remove driver_verification hardware_detection authorization
        configuration system source download integrity :
      EventCategory

pub data EventSeverity : Type 0 where
  debug info warning error critical : EventSeverity

pub record AuditEvent : Type 0 where
  pub timestamp : ℕ
  pub category : EventCategory
  pub severity : EventSeverity
  pub action : Text
  pub subject : Text
  pub details : Text
  pub correlation_id : Option Text

-- `AuditEvent::new`, at the time that the clock shows.
unfoldable pub new_event : ℕ → EventCategory → EventSeverity → Text → Text → Text → AuditEvent
new_event now category severity action subject details = record {
  timestamp = now;
  category = category;
  severity = severity;
  action = action;
  subject = subject;
  details = details;
  correlation_id = none;
}

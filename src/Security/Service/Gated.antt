-- ===== src/Security/Service/Gated.antt =====
-- What the handlers of services/securityd/src/dbus.rs do without authorization.
use mission_os.Base.{[], none, ◌∷◌, ◌++◌, false, ◌≡◌, ◌⊎◌, inl, inr, refl}
use mission_os.Base.Results.{Result, err, Result-cases}
use mission_os.Base.Text.{Text, codes}
use mission_os.Security.Audit.{
  World, AuditEvent, warning, privilege, M, record_event, new_event, read_clock,
}
use mission_os.Security.Authz.{
  SecurityAction, configure_firewall, export_audit_log, is_authorized, decision, is_read_only,
  authorize, audit_authorization, severity_of, verdict_text, description, denied,
}
use mission_os.Security.Service.{
  AppState, Libraries, DbusError, access_denied, gated, read_change, read_rule,
  set_firewall_profile, add_firewall_rule, export_log,
}

-- The caller is refused: nothing is announced, and the log gets one event, a warning of the check.
pub record IsRefused (w : World) (out : World × Result DbusError Text) : Type 0 where
  pub message : Text
  pub is_denied : out.1 ≡ err (access_denied message)
  pub is_silent : out.0.signals ≡ w.signals
  pub event : AuditEvent
  pub is_logged : out.0.log ≡ w.log ++ event ∷ []
  pub is_warning : event.severity ≡ warning
  pub is_check : event.action ≡ codes "authorization_check"

gated-IsRefused :
    (s : AppState) (action : SecurityAction) (caller message : Text)
    (body : M (Result DbusError Text)) (w : World)
    → is_read_only action ≡ false
    → s.allow_unauthorized ≡ false
    → IsRefused w (gated s action caller message body w)
unfolding gated authorize decision is_authorized audit_authorization severity_of new_event
    record_event read_clock
gated-IsRefused s action caller message body w privileged closed =
    rw (privileged, closed, gated, decision)
      (record {
        message = message;
        is_denied = refl;
        is_silent = refl;
        event = record {
          timestamp = w.clock w.readings;
          category = privilege;
          severity = warning;
          action = codes "authorization_check";
          subject = caller;
          details = verdict_text denied ++ (description action ++ (codes " for " ++ caller));
          correlation_id = none;
        };
        is_logged = refl;
        is_warning = refl;
        is_check = refl;
      })

-- Nothing happens, or the caller is refused.
abbrev pub IsClosed : World → World × Result DbusError Text → Type 0
IsClosed w out = ((e : DbusError) × (out ≡ (w, err e))) ⊎ IsRefused w out

-- Without the flag of the development mode nobody changes the profile, adds a rule or exports the
-- log: a request that cannot be read or is not valid is an error that leaves all as it was, and any
-- other is refused, with a warning in the log and no signal.
pub handlers-IsClosed :
    (l : Libraries) (s : AppState) (caller json : Text) (w : World)
    → s.allow_unauthorized ≡ false
    → IsClosed w (set_firewall_profile l s caller json w)
      × IsClosed w (add_firewall_rule l s caller json w)
      × IsRefused w (export_log l s caller w)
unfolding set_firewall_profile add_firewall_rule export_log is_read_only
handlers-IsClosed l s caller json w closed = (
  elim (Result-cases (read_change l s json)) [
    | inr (e, k) ↦ rw (k, set_firewall_profile) (inl (e, refl))
    | inl (request, k) ↦
        rw (k, set_firewall_profile)
          (inr (gated-IsRefused s configure_firewall caller _ _ w refl closed))
  ],
  elim (Result-cases (read_rule l s json)) [
    | inr (e, k) ↦ rw (k, add_firewall_rule) (inl (e, refl))
    | inl (rule, k) ↦
        rw (k, add_firewall_rule)
          (inr (gated-IsRefused s configure_firewall caller _ _ w refl closed))
  ],
  gated-IsRefused s export_audit_log caller _ _ w refl closed,
)

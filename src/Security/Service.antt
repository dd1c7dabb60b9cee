-- ===== src/Security/Service.antt =====
-- The handlers of services/securityd/src/dbus.rs. The JSON library and the Debug format of a profile
-- are parameters.
pub mod Gated
use mission_os.Base.{ℕ, ◌++◌, Option, none, some, Bool, true, false, not, if◌then◌else◌}
use mission_os.Base.Results.{Result, ok, err, map_err}
use mission_os.Base.Text.{Text, codes}
use mission_os.Security.Audit.{
  EventSeverity, info, security, AuditEvent, M, ◌>>=◌, ◌>>◌, pure, new_event, record_event,
  emit_security_event,
}
use mission_os.Security.Authz.{
  SecurityAction, view_firewall_status, configure_firewall, export_audit_log, authorize,
  is_authorized,
}
use mission_os.Security.Firewall.{
  FirewallProfile, FirewallRule, FirewallError, ProfileChangeRequest, ApplyResult, validate_rule,
  validate_change, error_text,
}

-- `zbus::fdo::Error`.
pub data DbusError : Type 0 where
  access_denied invalid_args failed : Text → DbusError

pub record FirewallStatus : Type 0 where
  pub enabled : Bool
  pub active_profile : FirewallProfile
  pub rule_count : ℕ
  pub backend_available : Bool

-- The part of `SecurityConfig` that the handlers read, with the flag of the authorizer.
pub record AppState : Type 0 where
  pub firewall_enabled : Bool
  pub default_firewall_profile : FirewallProfile
  pub audit_enabled : Bool
  pub allow_unauthorized : Bool

-- What the libraries do.
pub record Libraries : Type 0 where
  pub parse_change : Text → Result Text ProfileChangeRequest
  pub parse_rule : Text → Result Text FirewallRule
  pub print_result : ApplyResult → Result Text Text
  pub print_status : FirewallStatus → Result Text Text
  pub print_service : AppState → Result Text Text
  pub debug_profile : FirewallProfile → Text

-- `?` in a handler.
abbrev pub attempt {ℓ} :
    {A : Type ℓ} {B : Type 0}
    → Result DbusError A
    → (A → M (Result DbusError B))
    → M (Result DbusError B)
attempt (ok a) f = f a
attempt (err e) f = pure (err e)

-- `AppState::audit`, and the signal of its event.
unfoldable pub announce : Text → Text → Text → M (Unit {0})
unfolding new_event record_event emit_security_event
announce action subject details = do
  event ← new_event security info action subject details
  record_event event
  emit_security_event event

-- The check that stands before what a handler does.
unfoldable pub gated :
    AppState → SecurityAction → Text → Text → M (Result DbusError Text) → M (Result DbusError Text)
unfolding authorize is_authorized
gated s action caller message body = do
  auth ← authorize s.allow_unauthorized action caller
  if not (is_authorized auth) then pure (err (access_denied message)) else body

module _ (l : Libraries) (s : AppState) where
  unfoldable pub get_status : Text → M (Result DbusError Text)
  unfolding announce
  get_status caller = do
    announce (codes "get_status") caller (codes "Security status requested")
    pure (map_err (λ e. failed (codes "status serialization failed: " ++ e)) (l.print_service s))

  unfoldable pub get_firewall_status : Text → M (Result DbusError Text)
  unfolding gated
  get_firewall_status caller =
      gated s view_firewall_status caller (codes "not authorized to view firewall status") (
        pure (
          map_err (λ e. failed (codes "firewall status serialization failed: " ++ e))
            (l.print_status (record {
              enabled = s.firewall_enabled;
              active_profile = s.default_firewall_profile;
              rule_count = 0;
              backend_available = false;
            }))))

  -- The request, if it can be read and is valid.
  unfoldable pub read_change : Text → Result DbusError ProfileChangeRequest
  unfolding validate_change error_text
  read_change json = elim (l.parse_change json) [
    | err e ↦ err (invalid_args (codes "invalid profile change request: " ++ e))
    | ok request ↦ elim (validate_change request) [
      | err e ↦ err (invalid_args (codes "invalid profile change request: " ++ error_text e))
      | ok u ↦ ok request
    ]
  ]

  unfoldable pub read_rule : Text → Result DbusError FirewallRule
  unfolding validate_rule error_text
  read_rule json = elim (l.parse_rule json) [
    | err e ↦ err (invalid_args (codes "invalid firewall rule: " ++ e))
    | ok rule ↦ elim (validate_rule rule) [
      | err e ↦ err (invalid_args (codes "invalid firewall rule: " ++ error_text e))
      | ok u ↦ ok rule
    ]
  ]

  unfoldable pub answer : ℕ → Text → Result DbusError Text
  answer applied message =
      map_err (λ e. failed (codes "result serialization failed: " ++ e))
        (l.print_result (record {
          success = true;
          rules_applied = applied;
          rules_failed = 0;
          error = some message;
        }))

  unfoldable pub set_firewall_profile : Text → Text → M (Result DbusError Text)
  unfolding read_change gated announce answer
  set_firewall_profile caller request_json = attempt (read_change request_json) λ request.
      gated s configure_firewall caller (codes "not authorized to change firewall profile") (do
        announce (codes "firewall_profile_changed") caller (
            codes "Firewall profile changed to "
            ++ (l.debug_profile request.profile ++ (codes ": " ++ request.reason)))
        pure (
            answer 0
              (codes "nftables backend not yet integrated; profile recorded but not applied")))

  unfoldable pub add_firewall_rule : Text → Text → M (Result DbusError Text)
  unfolding read_rule gated announce answer
  add_firewall_rule caller rule_json = attempt (read_rule rule_json) λ rule.
      gated s configure_firewall caller (codes "not authorized to add firewall rules") (do
        announce (codes "firewall_rule_added") caller (codes "Rule added: " ++ rule.name)
        pure
            (answer 1 (codes "nftables backend not yet integrated; rule recorded but not applied")))

  unfoldable pub export_log : Text → M (Result DbusError Text)
  unfolding gated announce
  export_log caller =
      gated s export_audit_log caller (codes "not authorized to export audit logs") (do
        announce (codes "audit_log_export") caller (codes "Audit log export requested")
        pure (ok (codes "[]")))

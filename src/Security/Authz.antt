-- ===== src/Security/Authz.antt =====
-- services/securityd/src/authz.rs.
use mission_os.Base.{◌++◌, Bool, true, false, if◌then◌else◌}
use mission_os.Base.Text.{Text, codes}
use mission_os.Security.Audit.{
  privilege, EventSeverity, info, warning, error, M, ◌>>=◌, ◌>>◌, pure, new_event, record_event,
}

pub data SecurityAction : Type 0 where
  view_firewall_status configure_firewall view_audit_log export_audit_log change_security_policy
        manage_certificates view_secure_boot_status configure_secure_boot view_sandbox_status
        configure_sandbox :
      SecurityAction

unfoldable pub action_id : SecurityAction → Text
action_id view_firewall_status = codes "org.mission.security.view-firewall-status"
action_id configure_firewall = codes "org.mission.security.configure-firewall"
action_id view_audit_log = codes "org.mission.security.view-audit-log"
action_id export_audit_log = codes "org.mission.security.export-audit-log"
action_id change_security_policy = codes "org.mission.security.change-policy"
action_id manage_certificates = codes "org.mission.security.manage-certificates"
action_id view_secure_boot_status = codes "org.mission.security.view-secure-boot"
action_id configure_secure_boot = codes "org.mission.security.configure-secure-boot"
action_id view_sandbox_status = codes "org.mission.security.view-sandbox-status"
action_id configure_sandbox = codes "org.mission.security.configure-sandbox"

unfoldable pub description : SecurityAction → Text
description view_firewall_status = codes "View firewall status and rules"
description configure_firewall = codes "Modify firewall configuration"
description view_audit_log = codes "View security audit logs"
description export_audit_log = codes "Export or forward audit logs"
description change_security_policy = codes "Change security policy settings"
description manage_certificates = codes "Manage certificate trust store"
description view_secure_boot_status = codes "View Secure Boot status"
description configure_secure_boot = codes "Modify Secure Boot configuration"
description view_sandbox_status = codes "View sandbox/MAC policy status"
description configure_sandbox = codes "Modify sandbox/MAC policy"

unfoldable pub is_read_only : SecurityAction → Bool
is_read_only view_firewall_status = true
is_read_only view_audit_log = true
is_read_only view_secure_boot_status = true
is_read_only view_sandbox_status = true
is_read_only _ = false

pub data Authorization : Type 0 where
  authorized denied indeterminate : Authorization

unfoldable pub is_authorized : Authorization → Bool
is_authorized authorized = true
is_authorized _ = false

unfoldable pub severity_of : Authorization → EventSeverity
severity_of authorized = info
severity_of denied = warning
severity_of indeterminate = error

unfoldable pub verdict_text : Authorization → Text
verdict_text authorized = codes "Authorized: "
verdict_text denied = codes "Denied: "
verdict_text indeterminate = codes "Authorization indeterminate: "

unfoldable pub audit_authorization : SecurityAction → Text → Authorization → M (Unit {0})
unfolding severity_of verdict_text description new_event record_event
audit_authorization action subject result = do
  event ←
      new_event privilege (severity_of result) (codes "authorization_check") subject
        (verdict_text result ++ (description action ++ (codes " for " ++ subject)))
  record_event event

-- The decision, where `Authorizer` is its flag of the development mode.
unfoldable pub decision : Bool → SecurityAction → Authorization
unfolding is_read_only
decision allow_unauthorized action =
    if is_read_only action then authorized else if allow_unauthorized then authorized else denied

unfoldable pub authorize : Bool → SecurityAction → Text → M Authorization
unfolding decision audit_authorization
authorize allow_unauthorized action subject = do
  let result = decision allow_unauthorized action
  audit_authorization action subject result
  pure result

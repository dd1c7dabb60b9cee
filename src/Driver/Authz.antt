-- ===== src/Driver/Authz.antt =====
-- services/driverd/src/authz.rs and the decisions of services/driverd/src/polkit.rs.
pub mod FailClosed
use mission_os.Base.{◌++◌, Option, none, some, Bool, true, false, if◌then◌else◌}
use mission_os.Base.Text.{Text, codes}
use mission_os.Driver.Audit.{EventCategory, EventSeverity, authorization, info, warning, error}
use mission_os.Driver.System.{System}
use mission_os.Driver.World.{M, ◌>>=◌, ◌>>◌, pure, audit}

pub data DriverAction : Type 0 where
  view_status list_drivers query_driver check_compatibility install_driver update_driver
        remove_driver configure_sources scan_hardware :
      DriverAction

unfoldable pub description : DriverAction → Text
description view_status = codes "View driver service status"
description list_drivers = codes "List all drivers in inventory"
description query_driver = codes "Query detailed driver information"
description check_compatibility = codes "Check driver compatibility with hardware"
description install_driver = codes "Install a driver on the system"
description update_driver = codes "Update an installed driver"
description remove_driver = codes "Remove a driver from the system"
description configure_sources = codes "Configure driver sources and repositories"
description scan_hardware = codes "Trigger hardware inventory scan"

unfoldable pub is_read_only : DriverAction → Bool
is_read_only view_status = true
is_read_only list_drivers = true
is_read_only query_driver = true
is_read_only check_compatibility = true
is_read_only _ = false

pub data Authorization : Type 0 where
  authorized denied indeterminate : Authorization

unfoldable pub is_authorized : Authorization → Bool
is_authorized authorized = true
is_authorized _ = false

-- `PolKitAuthorizer`. A connection is the answer of `CheckAuthorization` to an action and a caller;
-- `none` is an error of the call, or no runtime to make it in.
pub record PolKit : Type 0 where
  pub conn : Option (DriverAction → Text → Option Bool)
  pub allow_unauthorized : Bool

pub record Authorizer : Type 0 where
  pub allow_unauthorized : Bool
  pub polkit : Option PolKit

unfoldable pub severity_of : Authorization → EventSeverity
severity_of authorized = info
severity_of denied = warning
severity_of indeterminate = error

unfoldable pub verdict_text : Authorization → Text
verdict_text authorized = codes "Authorized: "
verdict_text denied = codes "Denied: "
verdict_text indeterminate = codes "Authorization indeterminate: "

unfoldable pub polkit_verdict_text : Authorization → Text
polkit_verdict_text authorized = codes "PolKit authorized: "
polkit_verdict_text denied = codes "PolKit denied: "
polkit_verdict_text indeterminate = codes "PolKit indeterminate: "

unfoldable pub polkit_decision : PolKit → DriverAction → Text → Authorization
polkit_decision p action caller =
    if is_read_only action
    then authorized
    else if p.allow_unauthorized
    then authorized
    else elim p.conn [
      | none ↦ denied
      | some ask ↦ elim (ask action caller) [
        | none ↦ denied
        | some answer ↦ (if answer then authorized else denied)
      ]
    ]

unfoldable pub decision : Authorizer → DriverAction → Text → Authorization
unfolding polkit_decision
decision a action subject =
    if is_read_only action
    then authorized
    else if a.allow_unauthorized
    then authorized
    else elim a.polkit [ none ↦ denied | some p ↦ polkit_decision p action subject ]

module _ {S : System} where
  unfoldable pub audit_authorization : DriverAction → Text → Authorization → M S (Unit {0})
  unfolding severity_of verdict_text
  audit_authorization action subject result =
      audit authorization (severity_of result) (codes "authorization_check") subject
        (verdict_text result ++ (description action ++ (codes " for " ++ subject)))

  -- The PolKit authorizer audits its own decision.
  unfoldable pub polkit_audit_authorization : DriverAction → Text → Authorization → M S (Unit {0})
  unfolding severity_of polkit_verdict_text
  polkit_audit_authorization action subject result =
      audit authorization (severity_of result) (codes "polkit_authorization_check") subject
        (polkit_verdict_text result ++ (description action ++ (codes " for " ++ subject)))

  -- It is asked only where `decision` asks it.
  unfoldable pub polkit_audit : Authorizer → DriverAction → Text → M S (Unit {0})
  polkit_audit a action subject =
      if is_read_only action
      then pure tt
      else if a.allow_unauthorized
      then pure tt
      else elim a.polkit [
        | none ↦ pure tt
        | some p ↦ polkit_audit_authorization action subject (polkit_decision p action subject)
      ]

  unfoldable pub authorize : Authorizer → DriverAction → Text → M S Authorization
  unfolding polkit_audit audit_authorization polkit_audit_authorization
  authorize a action subject = do
    polkit_audit a action subject
    audit_authorization action subject (decision a action subject)
    pure (decision a action subject)

-- ===== src/Security/Firewall.antt =====
-- services/securityd/src/firewall.rs, and `FirewallProfile` of config.rs.
use mission_os.Base.{ℕ, ◌++◌, ◌==◌, Option, none, some, Bool, not, ◌&&◌, ◌||◌, is_some, is_empty}
use mission_os.Base.Results.{Result, ok, ◌>>◌, guard}
use mission_os.Base.Text.{Text, codes, trim}

pub data FirewallProfile : Type 0 where
  public private development custom : FirewallProfile

pub data Direction : Type 0 where
  incoming outgoing : Direction

pub data RuleAction : Type 0 where
  accept drop reject : RuleAction

pub data Protocol : Type 0 where
  tcp udp icmp other : Protocol

pub record FirewallRule : Type 0 where
  pub name : Text
  pub direction : Direction
  pub action : RuleAction
  pub protocol : Option Protocol
  pub source : Option Text
  pub destination : Option Text
  pub source_port : Option ℕ
  pub destination_port : Option ℕ
  pub enabled : Bool

pub data FirewallError : Type 0 where
  validation_error not_supported internal : Text → FirewallError
  backend_unavailable : FirewallError

unfoldable pub error_text : FirewallError → Text
error_text (validation_error msg) = codes "validation error: " ++ msg
error_text (not_supported msg) = codes "not supported: " ++ msg
error_text (internal msg) = codes "internal error: " ++ msg
error_text backend_unavailable = codes "nftables backend unavailable"

unfoldable pub check_port : Option ℕ → Text → Result FirewallError (Unit {0})
check_port none message = ok tt
check_port (some port) message = guard (not (port == 0)) (validation_error message)

unfoldable pub validate_rule : FirewallRule → Result FirewallError (Unit {0})
unfolding check_port
validate_rule r = do
  guard (not (is_empty (trim r.name))) (validation_error (codes "rule name must not be empty"))
  check_port r.source_port (codes "source port must not be 0")
  check_port r.destination_port (codes "destination port must not be 0")
  guard (not ((is_some r.source_port || is_some r.destination_port) && not (is_some r.protocol)))
      (validation_error (codes "protocol required when specifying ports"))

pub record ApplyResult : Type 0 where
  pub success : Bool
  pub rules_applied : ℕ
  pub rules_failed : ℕ
  pub error : Option Text

pub record ProfileChangeRequest : Type 0 where
  pub profile : FirewallProfile
  pub reason : Text

unfoldable pub validate_change : ProfileChangeRequest → Result FirewallError (Unit {0})
validate_change r =
    guard (not (is_empty (trim r.reason))) (validation_error (codes "reason must not be empty"))

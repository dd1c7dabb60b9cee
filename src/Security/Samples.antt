-- ===== src/Security/Samples.antt =====
-- Rules and requests to run services/securityd on.
use mission_os.Base.{[], ◌∷◌, none, some, true, false, ◌≡◌, refl}
use mission_os.Base.Results.{ok}
use mission_os.Base.Text.{codes, split}
use mission_os.Base.Text.Split.{Lacks, all-Lacks}
use mission_os.Security.Audit.{World}
use mission_os.Security.Firewall.{FirewallRule, incoming, accept, tcp, development, public}
use mission_os.Security.Nftables.{generate_ruleset, ruleset_lines}
use mission_os.Security.Nftables.Lines.{generate_ruleset-lines}
use mission_os.Security.Service.{
  AppState, Libraries, set_firewall_profile, add_firewall_rule, export_log,
}
use mission_os.Security.Service.Gated.{IsClosed, IsRefused, handlers-IsClosed}

abbrev ssh : FirewallRule
ssh = record {
  name = codes "allow-ssh";
  direction = incoming;
  action = accept;
  protocol = some tcp;
  source = some (codes "10.0.0.0/8\ndrop");
  destination = none;
  source_port = none;
  destination_port = some 22;
  enabled = true;
}

one_line : Lacks 10 (codes "allow-ssh")
one_line = all-Lacks 10 (codes "allow-ssh") refl

generate_ruleset-lines_example :
    split 10 (generate_ruleset development (ssh ∷ [])) ≡ ruleset_lines development (ssh ∷ [])
generate_ruleset-lines_example = generate_ruleset-lines development (ssh ∷ []) (one_line, tt)

abbrev libraries : Libraries
libraries = record {
  parse_change = λ json. ok (record { profile = development; reason = json });
  parse_rule = λ json. ok ssh;
  print_result = λ r. ok (codes "{}");
  print_status = λ r. ok (codes "{}");
  print_service = λ r. ok (codes "{}");
  debug_profile = λ p. codes "Development";
}

abbrev state : AppState
state = record {
  firewall_enabled = true;
  default_firewall_profile = public;
  audit_enabled = true;
  allow_unauthorized = false;
}

abbrev start : World
start = record { clock = λ n. n; readings = 0; log = []; signals = []; sequence = 0 }

handlers-IsClosed_example :
    IsClosed start (set_firewall_profile libraries state (codes "user") (codes "test") start)
    × IsClosed start (add_firewall_rule libraries state (codes "user") (codes "test") start)
    × IsRefused start (export_log libraries state (codes "user") start)
handlers-IsClosed_example =
    handlers-IsClosed libraries state (codes "user") (codes "test") start refl

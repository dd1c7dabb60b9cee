-- ===== src/Security/Nftables.antt =====
-- services/securityd/src/nftables.rs: the rules that are written for nftables.
pub mod Lines
use mission_os.Base.{
  ℕ, List, [], ◌∷◌, ◌++◌, Option, none, some, Bool, true, false, not, ◌&&◌, ◌||◌, ◌==◌, leb, keep,
  if◌then◌else◌,
}
use mission_os.Base.Results.{Result, ok, err}
use mission_os.Base.Text.{Text, codes, join}
use mission_os.Base.Decimal.{show}
use mission_os.Security.Firewall.{
  FirewallProfile, public, private, development, custom, RuleAction, accept, drop, reject, Protocol,
  tcp, udp, icmp, other, FirewallRule, validate_rule, error_text,
}

pub data NftablesError : Type 0 where
  invalid_rule unsupported_profile : Text → NftablesError

-- The end of all four profiles.
unfoldable pub forward_and_output : List Text
forward_and_output =
    []
    ∷ codes "    chain forward {"
    ∷ codes "        type filter hook forward priority 0; policy drop;"
    ∷ codes "    }"
    ∷ []
    ∷ codes "    chain output {"
    ∷ codes "        type filter hook output priority 0; policy accept;"
    ∷ codes "    }"
    ∷ []

-- The chain `input` of all four profiles, around what they allow.
unfoldable pub input_chain : List Text → List Text
input_chain allowed =
    codes "    chain input {"
    ∷ codes "        type filter hook input priority 0; policy drop;"
    ∷ codes "        ct state established,related accept"
    ∷ codes "        iifname lo accept"
    ∷ (allowed ++ codes "        ip protocol icmp accept" ∷ codes "    }" ∷ [])

unfoldable pub generate_chains : FirewallProfile → List Text
unfolding input_chain forward_and_output
generate_chains public = input_chain [] ++ forward_and_output
generate_chains private =
    input_chain (
      codes "        ip saddr 10.0.0.0/8 accept"
      ∷ codes "        ip saddr 172.16.0.0/12 accept"
      ∷ codes "        ip saddr 192.168.0.0/16 accept"
      ∷ [])
    ++ forward_and_output
generate_chains development =
    input_chain (
      codes "        tcp dport 22 accept"
      ∷ codes "        tcp dport 80 accept"
      ∷ codes "        tcp dport 443 accept"
      ∷ codes "        tcp dport 3000 accept"
      ∷ codes "        tcp dport 8080 accept"
      ∷ [])
    ++ forward_and_output
generate_chains custom = input_chain [] ++ forward_and_output

-- The characters of addresses. All bytes of other characters are left out as well.
unfoldable pub is_addr_char : ℕ → Bool
is_addr_char c =
    (leb b'0' c && leb c b'9')
    || ((leb b'a' c && leb c b'z')
        || ((leb b'A' c && leb c b'Z') || (c == b'.' || (c == b'/' || c == b':'))))

unfoldable pub escape_addr : Text → Text
unfolding is_addr_char
escape_addr addr = keep is_addr_char addr

unfoldable pub addr_part : Text → Option Text → List Text
unfolding escape_addr
addr_part prefix none = []
addr_part prefix (some addr) = (prefix ++ escape_addr addr) ∷ []

unfoldable pub port_part : Text → Option ℕ → List Text
port_part prefix none = []
port_part prefix (some port) = (prefix ++ show port) ∷ []

unfoldable pub protocol_parts : FirewallRule → List Text
unfolding port_part
protocol_parts r = elim r.protocol [
  | none ↦ []
  | some p ↦ elim p [
    | tcp ↦
        codes "tcp"
        ∷ (port_part (codes "sport ") r.source_port
            ++ port_part (codes "dport ") r.destination_port)
    | udp ↦
        codes "udp"
        ∷ (port_part (codes "sport ") r.source_port
            ++ port_part (codes "dport ") r.destination_port)
    | icmp ↦ codes "ip protocol icmp" ∷ []
    | other ↦ []
  ]
]

unfoldable pub rule_parts : FirewallRule → List Text
unfolding addr_part protocol_parts
rule_parts r =
    addr_part (codes "ip saddr ") r.source
    ++ (addr_part (codes "ip daddr ") r.destination ++ protocol_parts r)

unfoldable pub action_text : RuleAction → Text
action_text accept = codes "accept"
action_text drop = codes "drop"
action_text reject = codes "reject with icmpx admin-prohibited"

unfoldable pub rule_text : List Text → Text → Text
rule_text [] action = codes "        " ++ action
rule_text (p ∷ parts) action =
    codes "        " ++ (join (codes " ") (p ∷ parts) ++ (codes " " ++ action))

unfoldable pub generate_rule : FirewallRule → Result NftablesError Text
unfolding validate_rule error_text rule_parts rule_text action_text
generate_rule r =
    if not r.enabled
    then ok (codes "# rule '" ++ (r.name ++ codes "' is disabled"))
    else elim (validate_rule r) [
      | err e ↦ err (
          invalid_rule
            (codes "rule '" ++ (r.name ++ (codes "' failed validation: " ++ error_text e))))
      | ok u ↦ ok (
          rule_text (rule_parts r) (action_text r.action)
          ++ (codes " comment \"" ++ (r.name ++ codes "\"")))
    ]

-- A rule that cannot be generated is left out.
unfoldable pub rule_lines : List FirewallRule → List Text
unfolding generate_rule
rule_lines [] = []
rule_lines (r ∷ rules) =
    let rest = rule_lines rules in
    elim (generate_rule r) [ err e ↦ rest | ok text ↦ (codes "    " ++ text) ∷ rest ]

unfoldable pub ruleset_lines : FirewallProfile → List FirewallRule → List Text
unfolding generate_chains rule_lines
ruleset_lines profile rules =
    codes "#!/usr/sbin/nft -f"
    ∷ []
    ∷ codes "table inet mission_securityd {"
    ∷ (generate_chains profile ++ (rule_lines rules ++ codes "}" ∷ [] ∷ []))

unfoldable pub generate_ruleset : FirewallProfile → List FirewallRule → Text
unfolding ruleset_lines
generate_ruleset profile rules = join (codes "\n") (ruleset_lines profile rules)

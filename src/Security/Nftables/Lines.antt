-- ===== src/Security/Nftables/Lines.antt =====
-- The lines of a ruleset that services/securityd/src/nftables.rs writes.
use mission_os.Base.{
  ℕ, List, [], ◌∷◌, ◌++◌, Option, none, some, true, not, ◌≡◌, ◌≢◌, refl, inl, inr, All, All-append,
  all, ◌==◌, arith, Bool-cases, Option-cases,
}
use mission_os.Base.Results.{ok, Result-cases}
use mission_os.Base.Text.{Text, codes, split, join}
use mission_os.Base.Text.Split.{Lacks, Lacks-join, split-join, all-Lacks}
use mission_os.Base.Decimal.{show}
use mission_os.Base.Decimal.RoundTrip.{digits-Lacks, show-IsDigit}
use mission_os.Security.Firewall.{
  FirewallProfile, public, private, development, custom, RuleAction, accept, drop, reject, tcp, udp,
  icmp, other, FirewallRule, validate_rule,
}
use mission_os.Security.Nftables.{
  is_addr_char, escape_addr, addr_part, port_part, protocol_parts, rule_parts, action_text,
  rule_text, generate_rule, rule_lines, generate_chains, ruleset_lines, generate_ruleset,
}

-- A line has no end of line in it.
abbrev IsLine : Text → Type 0
IsLine = Lacks 10

IsLine-append : (s t : Text) → IsLine s → IsLine t → IsLine (s ++ t)
IsLine-append = All-append (λ c. c ≢ 10)

IsLine-show : (n : ℕ) → IsLine (show n)
IsLine-show n = digits-Lacks 10 (show n) (omega arith) (show-IsDigit n)

IsLine-escape_addr : (s : Text) → IsLine (escape_addr s)
unfolding escape_addr is_addr_char
IsLine-escape_addr [] = tt
IsLine-escape_addr (c ∷ s) = elim (Bool-cases (is_addr_char c)) [
  | inl k ↦ rw (k, escape_addr) ((ground arith), IsLine-escape_addr s)
  | inr k ↦ rw (k, escape_addr) (IsLine-escape_addr s)
]

lines-addr_part :
    (prefix : Text) (addr : Option Text) → IsLine prefix → All IsLine (addr_part prefix addr)
unfolding addr_part
lines-addr_part prefix none h = tt
lines-addr_part prefix (some addr) h =
    (IsLine-append prefix (escape_addr addr) h (IsLine-escape_addr addr), tt)

lines-port_part :
    (prefix : Text) (port : Option ℕ) → IsLine prefix → All IsLine (port_part prefix port)
unfolding port_part
lines-port_part prefix none h = tt
lines-port_part prefix (some port) h = (IsLine-append prefix (show port) h (IsLine-show port), tt)

lines-ports :
    (r : FirewallRule)
    → All IsLine
        (port_part (codes "sport ") r.source_port ++ port_part (codes "dport ") r.destination_port)
lines-ports r =
    All-append IsLine (port_part (codes "sport ") r.source_port)
      (port_part (codes "dport ") r.destination_port)
      (lines-port_part (codes "sport ") r.source_port (all-Lacks 10 (codes "sport ") refl))
      (lines-port_part (codes "dport ") r.destination_port (all-Lacks 10 (codes "dport ") refl))

lines-protocol_parts : (r : FirewallRule) → All IsLine (protocol_parts r)
unfolding protocol_parts
lines-protocol_parts r = elim (Option-cases r.protocol) [
  | inl n ↦ rw (n, protocol_parts) tt
  | inr (tcp, n) ↦ rw (n, protocol_parts) (all-Lacks 10 (codes "tcp") refl, lines-ports r)
  | inr (udp, n) ↦ rw (n, protocol_parts) (all-Lacks 10 (codes "udp") refl, lines-ports r)
  | inr (icmp, n) ↦ rw (n, protocol_parts) (all-Lacks 10 (codes "ip protocol icmp") refl, tt)
  | inr (other, n) ↦ rw (n, protocol_parts) tt
]

lines-rule_parts : (r : FirewallRule) → All IsLine (rule_parts r)
unfolding rule_parts
lines-rule_parts r =
    All-append IsLine (addr_part (codes "ip saddr ") r.source)
      (addr_part (codes "ip daddr ") r.destination ++ protocol_parts r)
      (lines-addr_part (codes "ip saddr ") r.source (all-Lacks 10 (codes "ip saddr ") refl))
      (All-append IsLine (addr_part (codes "ip daddr ") r.destination) (protocol_parts r)
        (lines-addr_part (codes "ip daddr ") r.destination (all-Lacks 10 (codes "ip daddr ") refl))
        (lines-protocol_parts r))

IsLine-action_text : (a : RuleAction) → IsLine (action_text a)
unfolding action_text
IsLine-action_text accept = all-Lacks 10 (codes "accept") refl
IsLine-action_text drop = all-Lacks 10 (codes "drop") refl
IsLine-action_text reject = all-Lacks 10 (codes "reject with icmpx admin-prohibited") refl

IsLine-rule_text :
    (parts : List Text) (action : Text)
    → All IsLine parts
    → IsLine action
    → IsLine (rule_text parts action)
unfolding rule_text
IsLine-rule_text [] action hs h =
    IsLine-append (codes "        ") action (all-Lacks 10 (codes "        ") refl) h
IsLine-rule_text (p ∷ parts) action hs h =
    IsLine-append (codes "        ") (join (codes " ") (p ∷ parts) ++ (codes " " ++ action))
      (all-Lacks 10 (codes "        ") refl)
      (IsLine-append (join (codes " ") (p ∷ parts)) (codes " " ++ action)
        (Lacks-join 32 10 (p ∷ parts) (omega arith) hs)
        (IsLine-append (codes " ") action (all-Lacks 10 (codes " ") refl) h))

IsLine-generate_rule :
    (r : FirewallRule) (text : Text) → IsLine r.name → generate_rule r ≡ ok text → IsLine text
unfolding generate_rule
IsLine-generate_rule r text named h = elim (Bool-cases r.enabled) [
  | inr k ↦
      let same : codes "# rule '" ++ (r.name ++ codes "' is disabled") ≡ text = ground arith in
      rw (← same) (
        IsLine-append (codes "# rule '") (r.name ++ codes "' is disabled")
          (all-Lacks 10 (codes "# rule '") refl)
          (IsLine-append r.name (codes "' is disabled") named
            (all-Lacks 10 (codes "' is disabled") refl)))
  | inl k ↦ elim (Result-cases (validate_rule r)) [
    | inr (e, v) ↦ absurd (ground arith)
    | inl (done, v) ↦
        let body = rule_text (rule_parts r) (action_text r.action) in
        let same : body ++ (codes " comment \"" ++ (r.name ++ codes "\"")) ≡ text = ground arith in
        rw (← same) (
          IsLine-append body (codes " comment \"" ++ (r.name ++ codes "\""))
            (IsLine-rule_text (rule_parts r) (action_text r.action) (lines-rule_parts r)
              (IsLine-action_text r.action))
            (IsLine-append (codes " comment \"") (r.name ++ codes "\"")
              (all-Lacks 10 (codes " comment \"") refl)
              (IsLine-append r.name (codes "\"") named (all-Lacks 10 (codes "\"") refl))))
  ]
]

lines-rule_lines :
    (rules : List FirewallRule)
    → All (λ (r : FirewallRule). IsLine r.name) rules
    → All IsLine (rule_lines rules)
unfolding rule_lines
lines-rule_lines [] h = tt
lines-rule_lines (r ∷ rules) h = elim (Result-cases (generate_rule r)) [
  | inr (e, g) ↦ rw (g, rule_lines) (lines-rule_lines rules h.1)
  | inl (text, g) ↦
      rw (g, rule_lines)
        (
          IsLine-append (codes "    ") text (all-Lacks 10 (codes "    ") refl)
              (IsLine-generate_rule r text h.0 g),
          lines-rule_lines rules h.1,
        )
]

-- The test of all lines.
all-lines : (ls : List Text) → all (λ s. all (λ c. not (c == 10)) s) ls ≡ true → All IsLine ls
all-lines [] h = tt
all-lines (s ∷ ls) h = (all-Lacks 10 s (ground (arith, h)), all-lines ls (ground (arith, h)))

lines-generate_chains : (p : FirewallProfile) → All IsLine (generate_chains p)
unfolding generate_chains
lines-generate_chains public = all-lines (generate_chains public) refl
lines-generate_chains private = all-lines (generate_chains private) refl
lines-generate_chains development = all-lines (generate_chains development) refl
lines-generate_chains custom = all-lines (generate_chains custom) refl

-- If no rule has an end of line in its name, the ruleset has the lines of the header and the chains
-- of the profile, one line for each rule that is disabled or valid, and the end, and no others,
-- whatever the addresses of the rules are.
pub generate_ruleset-lines :
    (p : FirewallProfile) (rules : List FirewallRule)
    → All (λ (r : FirewallRule). IsLine r.name) rules
    → split 10 (generate_ruleset p rules) ≡ ruleset_lines p rules
unfolding generate_ruleset ruleset_lines
generate_ruleset-lines p rules h =
    let body = generate_chains p ++ (rule_lines rules ++ codes "}" ∷ [] ∷ []) in
    let lines =
      All-append IsLine (generate_chains p) (rule_lines rules ++ codes "}" ∷ [] ∷ [])
        (lines-generate_chains p)
        (All-append IsLine (rule_lines rules) (codes "}" ∷ [] ∷ []) (lines-rule_lines rules h)
          (all-lines (codes "}" ∷ [] ∷ []) refl)) in
    split-join 10 (codes "#!/usr/sbin/nft -f") ([] ∷ codes "table inet mission_securityd {" ∷ body)
      (
        all-Lacks 10 (codes "#!/usr/sbin/nft -f") refl,
        (tt, (all-Lacks 10 (codes "table inet mission_securityd {") refl, lines)),
      )

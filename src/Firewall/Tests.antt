-- ===== src/Firewall/Tests.antt =====
-- A small router for src/analyzers/iptables_forward_analyzer.py: runs of the analyzer, and the
-- theorems applied to them.
use Prim.Native.Char.{code}
use traceroute_simulator.Prelude.{
  ℕ, ◌-◌, ◌<◌, String, ◌≡◌, refl, subst, ◌↔◌, inl, inr, Bool, true, false, ◌&&◌, Option, none, some,
  List, [], ◌∷◌, arith, leb, ◌==◌, str_eq, if◌then◌else◌, Bool-cases, keep, any, mem_str, ok, Dict,
  get, has,
}
use traceroute_simulator.Ip.{v4, Address, ip_address, mask_prefix, ip_network, is_in, address_eq}
use traceroute_simulator.Ip.V6.{hex_after, hextet, parts, number_of, groups, ipv6}
use traceroute_simulator.Ip.V4.{split, decimal_after, decimal, octet, ipv4}
use traceroute_simulator.Ports.{strip_end, strip_start}
use traceroute_simulator.Router.{Route}
use traceroute_simulator.Router.Rounds.{IsLongest}
use traceroute_simulator.Firewall.Words.{
  Unicode, has_char, count_char, split_once, strip_prefix, str_of, cut, words, digits_after, int,
}
use traceroute_simulator.Firewall.Sets.{
  Ipset, Member, parse_member, lookup_set, build_lookup_sets, with_ipsets, get_set_info,
  port_protocol_matches, in_lookup_set, member_matches, in_members, port_or_any, protocol_or_any,
  check_membership,
}
use traceroute_simulator.Firewall.Sets.Membership.{check_membership-eq-any}
use traceroute_simulator.Firewall.Rules.{
  IptablesRule, match_sets_in, value_option, colon_option, long_option, read_options, read_words,
  parse_rule_criteria, new_rule,
}
use traceroute_simulator.Firewall.Matching.{
  Packet, Analyzer, any_ok, address_le, single_ip_matches, ip_matches, single_port_matches,
  port_matches, port_passes, state_matches, protocol_passes, match_set_passes,
  check_compound_match_set, check_match_sets, matches_packet,
}
use traceroute_simulator.Firewall.Lookup.{
  compare_route, best_route_from, has_both, dev_of, find_outgoing_interface, interface_passes,
}
use traceroute_simulator.Firewall.Routes.{find_outgoing_interface-IsLongest}
use traceroute_simulator.Firewall.MatchSets.{directed, Asked, match_set_passes-dst_src}
use traceroute_simulator.Firewall.Chains.{
  Reason, is_known, action, chain_rules, forward_from, analyze_custom_chain, analyze_packet, denied,
  in_chain, policy,
}
use traceroute_simulator.Firewall.Chains.Rulebook.{Decides, RefersBelow, IsAcyclic}
use traceroute_simulator.Firewall.Chains.Refines.{analyze_packet-refines}
use traceroute_simulator.Firewall.Chains.Total.{Testable, analyze_packet-answers}
use traceroute_simulator.Firewall.Chains.Blame.{Culprit, analyze_packet-Culprit}

-- Of Unicode, the digits and the blank; texts are in the case that they need.
abbrev ascii : Unicode
ascii = record {
  digit = λ c. if leb b'0' (code c) && leb (code c) b'9' then some (code c - b'0') else none;
  is_space = λ c. code c == 32;
  upper = λ s. s;
  lower = λ s. s;
}

abbrev web_rule : IptablesRule
web_rule = new_rule ascii 1 "tcp -- * * 10.0.0.0/8 0.0.0.0/0 dpts:80,443" "CHECK"

abbrev bad_rule : IptablesRule
bad_rule =
    new_rule ascii 1 "all -- * * 10.1.1.1-10.1.1.9 0.0.0.0/0 match-set SERVERS dst,dst" "DROP"

abbrev state_rule : IptablesRule
state_rule = new_rule ascii 2 "-m conntrack --ctstate RELATED,ESTABLISHED" "ACCEPT"

abbrev log_rule : IptablesRule
log_rule = new_rule ascii 3 "all -- eth0 * 0.0.0.0/0 0.0.0.0/0" "LOG"

abbrev unknown_rule : IptablesRule
unknown_rule = new_rule ascii 4 "all -- * * 0.0.0.0/0 0.0.0.0/0" "TARPIT"

abbrev deny_rule : IptablesRule
deny_rule = new_rule ascii 5 "udp -- * wg0 0.0.0.0/0 0.0.0.0/0" "REJECT"

abbrev servers : Dict Ipset
servers =
    ("SERVERS", record { type = "hash:ip,port"; members = "10.2.2.0/24,tcp:443" ∷ "10.2.3.4" ∷ [] })
    ∷ []

abbrev to : String → String → Route
to dst dev = record {
  dst = some dst;
  gateway = none;
  dev = some dev;
  prefsrc = none;
  protocol = none;
  scope = none;
  type = none;
}

abbrev table : List Route
table = to "default" "wg0" ∷ to "10.1.0.0/16" "eth0" ∷ to "10.2.0.0/16" "eth1" ∷ []

abbrev gateway : Analyzer
gateway = record {
  forward_rules = web_rule ∷ state_rule ∷ log_rule ∷ unknown_rule ∷ deny_rule ∷ [];
  custom_chains = ("CHECK", bad_rule ∷ []) ∷ [];
  default_policy = "ACCEPT";
  routing_table = table;
  ipset_parser = with_ipsets ascii servers;
}

abbrev packet : String → String → ℕ → String → Packet
packet src dst port protocol = record {
  src_ip = src;
  src_port = none;
  dest_ip = dst;
  dest_port = some port;
  protocol = protocol;
  connection_state = "NEW";
}

abbrev bad_packet : Packet
bad_packet = packet "10.1.1.5" "10.2.2.7" 443 "tcp"

program : Unit {0}
unfolding split decimal_after decimal octet ipv4 hex_after hextet parts number_of groups ipv6
    ip_address mask_prefix ip_network is_in address_eq strip_end strip_start has_char count_char
    split_once strip_prefix str_of cut words digits_after int parse_member lookup_set
    build_lookup_sets with_ipsets get_set_info port_protocol_matches in_lookup_set member_matches
    in_members check_membership match_sets_in value_option colon_option long_option read_options
    read_words parse_rule_criteria new_rule any_ok address_le single_ip_matches ip_matches
    single_port_matches port_matches port_passes state_matches protocol_passes match_set_passes
    check_compound_match_set check_match_sets compare_route best_route_from find_outgoing_interface
    interface_passes matches_packet is_known action chain_rules forward_from analyze_custom_chain
    analyze_packet keep any mem_str get has
program = tt

web_allowed :
    analyze_packet 1 ascii gateway (packet "10.1.1.10" "10.2.2.7" 443 "tcp")
    ≡ ok (true, policy "ACCEPT")
unfolding program
web_allowed = refl

web_denied : analyze_packet 1 ascii gateway bad_packet ≡ ok (false, in_chain "CHECK" (denied 1))
unfolding program
web_denied = refl

udp_denied :
    analyze_packet 1 ascii gateway (packet "10.1.1.10" "8.8.8.8" 53 "udp") ≡ ok (false, denied 5)
unfolding program
udp_denied = refl

abbrev server : Address
server = record { version = v4; number = 167903751; scope = "" }

abbrev members : List Member
members =
    record { ip = "10.2.2.0/24"; port = "443"; protocol = "tcp" }
    ∷ record { ip = "10.2.3.4"; port = "*"; protocol = "*" }
    ∷ []

server-read : ip_address "10.2.2.7" ≡ some server
unfolding program
server-read = refl

servers-built : get "SERVERS" (with_ipsets ascii servers).ipset_lookup_sets ≡ some members
unfolding program
servers-built = refl

check_membership-eq-any_example :
    check_membership ascii (with_ipsets ascii servers) "10.2.2.7" "SERVERS" (some 443) "tcp"
    ≡ any
        (member_matches server "10.2.2.7" (port_or_any (some 443)) (protocol_or_any ascii "tcp"))
        members
check_membership-eq-any_example =
    check_membership-eq-any ascii (with_ipsets ascii servers) "10.2.2.7" "SERVERS" (some 443) "tcp"
      server members server-read servers-built

find_outgoing_interface-IsLongest_example :
    (o : Option Route) × (find_outgoing_interface table "10.2.2.7" ≡ dev_of o)
    × IsLongest server (keep has_both table) o
find_outgoing_interface-IsLongest_example =
    find_outgoing_interface-IsLongest table "10.2.2.7" server server-read refl

abbrev source : Address
source = record { version = v4; number = 167837957; scope = "" }

source-read : ip_address "10.1.1.5" ≡ some source
unfolding program
source-read = refl

match_set_passes-dst_src_example :
    match_set_passes ascii (with_ipsets ascii servers) bad_packet (directed "SERVERS" "dst,src")
    ≡ any
        (member_matches source "10.1.1.5" (port_or_any (some 443)) (protocol_or_any ascii "tcp"))
        (lookup_set ascii ("10.2.2.0/24,tcp:443" ∷ "10.2.3.4" ∷ []))
unfolding program
match_set_passes-dst_src_example =
    match_set_passes-dst_src ascii servers bad_packet "SERVERS"
      (record { type = "hash:ip,port"; members = "10.2.2.0/24,tcp:443" ∷ "10.2.3.4" ∷ [] })
      "dst,src" "10.1.1.5" (some 443) source refl (inl refl) Asked.dst_src source-read

abbrev no_rank : String → ℕ
no_rank name = 0

chain_body :
    (name : String) (body : List IptablesRule)
    → get name gateway.custom_chains ≡ some body
    → (bad_rule ∷ []) ≡ body
unfolding program
chain_body name body h = elim (Bool-cases (str_eq "CHECK" name)) [
  | inl e ↦ cc (rw e at h)
  | inr e ↦ cc (rw e at h)
]

drop-RefersBelow : RefersBelow no_rank gateway.custom_chains 0 (bad_rule ∷ [])
unfolding program
drop-RefersBelow = ((λ h. cc h), tt)

gateway-IsAcyclic : IsAcyclic no_rank gateway.custom_chains
gateway-IsAcyclic name body h =
    subst (RefersBelow no_rank gateway.custom_chains 0) (chain_body name body h) drop-RefersBelow

no_rank-below : (name : String) → no_rank name < 1
no_rank-below name = omega arith

analyze_packet-refines_example :
    ((reason : Reason) × (analyze_packet 1 ascii gateway bad_packet ≡ ok (false, reason)))
    ↔ Decides ascii gateway bad_packet false
analyze_packet-refines_example =
    analyze_packet-refines ascii gateway bad_packet no_rank 1 gateway-IsAcyclic no_rank-below false

analyze_packet-Culprit_example : Culprit ascii gateway bad_packet gateway.forward_rules
analyze_packet-Culprit_example =
    analyze_packet-Culprit ascii gateway bad_packet 1 (in_chain "CHECK" (denied 1)) refl web_denied

forward-Testable : Testable ascii gateway bad_packet gateway.forward_rules
unfolding program
forward-Testable =
    ((true, refl), ((false, refl), ((true, refl), ((true, refl), ((false, refl), tt)))))

bad_rule-Testable : Testable ascii gateway bad_packet (bad_rule ∷ [])
unfolding program
bad_rule-Testable = ((true, refl), tt)

chains-Testable :
    (name : String) (body : List IptablesRule)
    → get name gateway.custom_chains ≡ some body
    → Testable ascii gateway bad_packet body
chains-Testable name body h =
    subst (Testable ascii gateway bad_packet) (chain_body name body h) bad_rule-Testable

analyze_packet-answers_example :
    (b : Bool) × (reason : Reason) × (analyze_packet 1 ascii gateway bad_packet ≡ ok (b, reason))
analyze_packet-answers_example =
    analyze_packet-answers ascii gateway bad_packet no_rank 1 gateway-IsAcyclic no_rank-below
      forward-Testable chains-Testable

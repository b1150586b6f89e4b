-- ===== src/Firewall/Sets.antt =====
-- The class `IpsetParser` of src/analyzers/iptables_forward_analyzer.py: the sets of addresses that
-- rules refer to, their lookup sets, and the test for membership. A lookup set is a list here.
pub mod Membership
use traceroute_simulator.Prelude.{
  ℕ, String, Bool, true, false, ◌&&◌, ◌||◌, Option, none, some, List, [], ◌∷◌, map, str_eq,
  if◌then◌else◌, keep, any, length, Dict, get,
}
use traceroute_simulator.Ip.{Address, Network, ip_address, ip_network, is_in}
use traceroute_simulator.Firewall.Words.{Unicode, nonempty, has_char, split_once, str_of, strip}

pub record Ipset : Type 0 where
  pub type : String
  pub members : List String

-- `(ip_or_network, port, protocol)`
pub record Member : Type 0 where
  pub ip : String
  pub port : String
  pub protocol : String

pub record IpsetParser : Type 0 where
  pub ipsets : Dict Ipset
  pub ipset_lookup_sets : Dict (List Member)

module _ (u : Unicode) where
  abbrev pub protocol_and_port : String → String × String → Member
  protocol_and_port ip (protocol, port) = record {
    ip = ip;
    port = strip u port;
    protocol = strip u protocol;
  }

  abbrev pub port_member : String → String → Member
  port_member ip s =
      if has_char b':' s
      then protocol_and_port ip (split_once b':' s)
      else record { ip = ip; port = strip u s; protocol = "*" }

  abbrev pub listed_member : String × String → Member
  listed_member (ip, rest) = port_member (strip u ip) (strip u rest)

  unfoldable pub parse_member : String → Member
  parse_member member =
      if has_char b',' member
      then listed_member (split_once b',' member)
      else record { ip = strip u member; port = "*"; protocol = "*" }

  abbrev pub has_ip : Member → Bool
  has_ip m = nonempty m.ip

  unfoldable pub lookup_set : List String → List Member
  lookup_set members = keep has_ip (map parse_member members)

  unfoldable pub build_lookup_sets : Dict Ipset → Dict (List Member)
  build_lookup_sets [] = []
  build_lookup_sets ((name, s) ∷ sets) = (name, lookup_set s.members) ∷ build_lookup_sets sets

  -- `ipset_parser.ipsets = ipsets` and `_build_lookup_sets()`
  unfoldable pub with_ipsets : Dict Ipset → IpsetParser
  with_ipsets ipsets = record { ipsets = ipsets; ipset_lookup_sets = build_lookup_sets ipsets }

unfoldable pub get_set_info : IpsetParser → String → Option Ipset
get_set_info p name = get name p.ipsets

unfoldable pub get_lookup_set_size : IpsetParser → String → ℕ
get_lookup_set_size p name = elim (get name p.ipset_lookup_sets) [ none ↦ 0 | some s ↦ length s ]

unfoldable pub port_protocol_matches : (test_port test_protocol : String) → Member → Bool
port_protocol_matches test_port test_protocol m =
    (str_eq m.port "*" || str_eq m.port test_port)
    && (str_eq m.protocol "*" || str_eq m.protocol test_protocol)

abbrev pub member_eq : String → String → String → Member → Bool
member_eq ip port protocol m = str_eq m.ip ip && str_eq m.port port && str_eq m.protocol protocol

-- `(ip, port, protocol) in lookup_set`
unfoldable pub in_lookup_set : (ip port protocol : String) → List Member → Bool
in_lookup_set ip port protocol s = any (member_eq ip port protocol) s

abbrev pub in_network : Address → Option Network → Bool
in_network a none = false
in_network a (some n) = is_in a n

-- One round of the loop over the members. A network that is none is passed over.
unfoldable pub member_matches : Address → (ip port protocol : String) → Member → Bool
member_matches a ip port protocol m =
    (if has_char b'/' m.ip then in_network a (ip_network m.ip) else str_eq ip m.ip)
    && port_protocol_matches port protocol m

unfoldable pub in_members : Option Address → (ip port protocol : String) → List Member → Bool
in_members none ip port protocol s = false
in_members (some a) ip port protocol s =
    if in_lookup_set ip port protocol s
    then true
    else if in_lookup_set ip "*" "*" s
    then true
    else if in_lookup_set ip port "*" s
    then true
    else if in_lookup_set ip "*" protocol s
    then true
    else any (member_matches a ip port protocol) s

abbrev pub port_or_any : Option ℕ → String
port_or_any none = "*"
port_or_any (some n) = str_of n

abbrev pub protocol_or_any : Unicode → String → String
protocol_or_any u s = if nonempty s then u.lower s else "*"

unfoldable pub check_membership :
    Unicode → IpsetParser → (ip set_name : String) → Option ℕ → String → Bool
check_membership u p ip set_name port protocol = elim (get set_name p.ipset_lookup_sets) [
  | none ↦ false
  | some s ↦ in_members (ip_address ip) ip (port_or_any port) (protocol_or_any u protocol) s
]

-- Kept for older callers.
unfoldable pub ip_in_set : Unicode → IpsetParser → (ip set_name : String) → Option ℕ → String → Bool
ip_in_set u p ip set_name port protocol = check_membership u p ip set_name port protocol

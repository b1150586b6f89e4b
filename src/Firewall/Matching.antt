-- ===== src/Firewall/Matching.antt =====
-- `matches_packet` of src/analyzers/iptables_forward_analyzer.py and the tests that it calls, with
-- the look at the routing table. The analyzer is always given, as `analyze_packet` gives it.
use traceroute_simulator.Prelude.{
  ℕ, String, Bool, true, false, ◌&&◌, ◌||◌, Option, none, some, List, [], ◌∷◌, map, ltb, leb, ◌==◌,
  str_eq, if◌then◌else◌, mem_str, Result, ok, raise, type_error, ◌>>=◌, Dict,
}
use traceroute_simulator.Ip.{
  Address, Network, version_eq, ip_address, ip_network, is_in, address_eq,
}
use traceroute_simulator.Ip.V4.{split}
use traceroute_simulator.Router.{Route}
use traceroute_simulator.Firewall.Words.{
  Unicode, ℤ, pos, negsuc, le_port, port_le, has_char, count_char, split_once, strip_prefix, strip,
  int,
}
use traceroute_simulator.Firewall.Sets.{IpsetParser, get_set_info, check_membership}
use traceroute_simulator.Firewall.Rules.{MatchSet, IptablesRule}
use traceroute_simulator.Firewall.Lookup.{interface_passes}

pub record Packet : Type 0 where
  pub src_ip : String
  pub src_port : Option ℕ
  pub dest_ip : String
  pub dest_port : Option ℕ
  pub protocol : String
  pub connection_state : String

pub record Analyzer : Type 0 where
  pub forward_rules : List IptablesRule
  pub custom_chains : Dict (List IptablesRule)
  pub default_policy : String
  pub routing_table : List Route
  pub ipset_parser : IpsetParser

-- `b and k`, where `b` may raise.
abbrev pub and_then : Result Bool → Result Bool → Result Bool
and_then b k = b >>= λ t. if t then k else ok false

-- A loop that answers `True` at the first item that passes.
unfoldable pub any_ok {ℓ} : {A : Type ℓ} → (A → Result Bool) → List A → Result Bool
any_ok p [] = ok false
any_ok p (x ∷ xs) = let rest = any_ok p xs in p x >>= λ t. if t then ok true else rest

-- `a <= b` on addresses
unfoldable pub address_le : Address → Address → Result Bool
address_le a b =
    if version_eq a.version b.version
    then ok (ltb a.number b.number || address_eq a b)
    else raise type_error

abbrev pub in_range : Option Address → Option Address → Option Address → Result Bool
in_range (some start) (some end) (some test) =
    and_then (address_le start test) (address_le test end)
in_range none end test = ok false
in_range (some start) none test = ok false
in_range (some start) (some end) none = ok false

abbrev pub in_cidr : Option Network → Option Address → Bool
in_cidr (some n) (some a) = is_in a n
in_cidr none a = false
in_cidr (some n) none = false

abbrev pub at_least : Option ℤ → ℕ → Bool
at_least none port = false
at_least (some z) port = le_port z port

abbrev pub at_most : ℕ → Option ℤ → Bool
at_most port none = false
at_most port (some z) = port_le port z

abbrev pub is_int : ℕ → Option ℤ → Bool
is_int port none = false
is_int port (some (pos n)) = port == n
is_int port (some (negsuc n)) = false

module _ (u : Unicode) where
  abbrev pub ip_range : String → String × String → Result Bool
  ip_range ip (start_ip, end_ip) =
      in_range (ip_address (strip u start_ip)) (ip_address (strip u end_ip)) (ip_address ip)

  unfoldable pub single_ip_matches : (ip criteria : String) → Result Bool
  single_ip_matches ip criteria =
      if has_char b'/' criteria
      then ok (in_cidr (ip_network criteria) (ip_address ip))
      else if has_char b'-' criteria && leb 3 (count_char b'.' criteria)
      then ip_range ip (split_once b'-' criteria)
      else ok (str_eq ip criteria)

  unfoldable pub ip_matches : String → Option String → Result Bool
  ip_matches ip none = ok true
  ip_matches ip (some criteria) =
      if has_char b',' criteria
      then any_ok (λ item. single_ip_matches ip (strip u item)) (split b',' criteria)
      else single_ip_matches ip criteria

  abbrev pub port_span : ℕ → String × String → Bool
  port_span port (start, end) = at_least (int u start) port && at_most port (int u end)

  unfoldable pub single_port_matches : ℕ → String → Bool
  single_port_matches port criteria =
      if has_char b':' criteria
      then port_span port (split_once b':' criteria)
      else if has_char b'-' criteria
      then port_span port (split_once b'-' criteria)
      else is_int port (int u criteria)

  any_port : ℕ → List String → Bool
  any_port port [] = false
  any_port port (item ∷ items) = single_port_matches port (strip u item) || any_port port items

  unfoldable pub port_matches : ℕ → String → Bool
  unfolding any_port
  port_matches port criteria =
      if has_char b',' criteria
      then any_port port (split b',' criteria)
      else single_port_matches port criteria

  -- A port is compared only if the rule and the packet have one.
  unfoldable pub port_passes : Option ℕ → Option String → Bool
  port_passes port none = true
  port_passes none (some criteria) = true
  port_passes (some port) (some criteria) = port_matches port criteria

  unfoldable pub state_matches : String → Option String → Bool
  state_matches state none = true
  state_matches state (some criteria) =
      mem_str (u.upper state) (map (λ s. u.upper (strip u s)) (split b',' criteria))

-- `protocol` of the packet may be `all`.
unfoldable pub protocol_passes : String → Option String → Bool
protocol_passes protocol none = true
protocol_passes protocol (some criteria) = str_eq protocol "all" || str_eq criteria protocol

-- The address and the port that a direction names.
abbrev pub field : Packet → String → Option (String × Option ℕ)
field p direction =
    if str_eq direction "src"
    then some (p.src_ip, p.src_port)
    else if str_eq direction "dst"
    then some (p.dest_ip, p.dest_port)
    else none

abbrev pub begins : String → String → Bool
begins prefix s = elim (strip_prefix prefix s) [ none ↦ false | some rest ↦ true ]

module _ (u : Unicode) (parser : IpsetParser) (p : Packet) where
  -- The fields by which a set of two dimensions is asked, by direction.
  abbrev pub compound_field :
      (d e : String) → String × Option ℕ → String × Option ℕ → String × Option ℕ
  compound_field d e (ip1, port1) (ip2, port2) =
      if str_eq d "src"
      then (if str_eq e "src" then (ip1, port1) else (ip1, port2))
      else (if str_eq e "dst" then (ip2, port2) else (ip2, port1))

  abbrev pub is_member : String → String × Option ℕ → Bool
  is_member set_name (ip, port) = check_membership u parser ip set_name port p.protocol

  unfoldable pub check_compound_match_set :
      (set_name d e : String) → String × Option ℕ → String × Option ℕ → Bool
  check_compound_match_set set_name d e f1 f2 = elim (get_set_info parser set_name) [
    | none ↦ false
    | some s ↦
        if begins "hash:ip,port" s.type || begins "hash:net,port" s.type
        then is_member set_name (compound_field d e f1 f2)
        else false
  ]

  abbrev pub single_set : String → Option (String × Option ℕ) → Bool
  single_set set_name none = true
  single_set set_name (some f) = is_member set_name f

  abbrev pub compound_set :
      (set_name d e : String) → Option (String × Option ℕ) → Option (String × Option ℕ) → Bool
  compound_set set_name d e (some f1) (some f2) = check_compound_match_set set_name d e f1 f2
  compound_set set_name d e none f2 = true
  compound_set set_name d e (some f1) none = true

  -- A direction that is not known is passed over.
  abbrev pub directed_set : String → List String → Bool
  directed_set set_name (d ∷ []) = single_set set_name (field p d)
  directed_set set_name (d ∷ e ∷ []) = compound_set set_name d e (field p d) (field p e)
  directed_set set_name _ = true

  unfoldable pub match_set_passes : MatchSet → Bool
  match_set_passes m = directed_set m.set_name (split b',' m.direction)

  unfoldable pub check_match_sets : List MatchSet → Bool
  check_match_sets [] = true
  check_match_sets (m ∷ ms) = match_set_passes m && check_match_sets ms

unfoldable pub matches_packet : Unicode → Analyzer → Packet → IptablesRule → Result Bool
matches_packet u an p rule =
    let c = rule.parsed_criteria in
    and_then (ok (check_match_sets u an.ipset_parser p c.match_sets)) (
      and_then (ip_matches u p.src_ip c.source) (
        and_then (ip_matches u p.dest_ip c.destination) (
          and_then (ok (interface_passes an.routing_table p.src_ip c.in_interface)) (
            and_then (ok (interface_passes an.routing_table p.dest_ip c.out_interface)) (
              and_then (ok (protocol_passes p.protocol c.protocol)) (
                and_then (ok (port_passes u p.src_port c.source_port)) (
                  and_then (ok (port_passes u p.dest_port c.dest_port))
                    (ok (state_matches u p.connection_state c.conntrack_state)))))))))

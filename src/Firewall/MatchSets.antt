-- ===== src/Firewall/MatchSets.antt =====
-- The match sets of two directions in src/analyzers/iptables_forward_analyzer.py.
use traceroute_simulator.Prelude.{
  ℕ, String, ◌≡◌, refl, ◌∙◌, ◌⊎◌, inl, inr, true, Option, none, some, List, [], ◌∷◌, any,
  Bool-cases, str_eq, Dict, get, ap,
}
use traceroute_simulator.Ip.{Address, ip_address}
use traceroute_simulator.Ip.V4.{split}
use traceroute_simulator.Firewall.Words.{Unicode}
use traceroute_simulator.Firewall.Sets.{
  Ipset, Member, IpsetParser, lookup_set, build_lookup_sets, with_ipsets, get_set_info,
  member_matches, port_or_any, protocol_or_any, check_membership,
}
use traceroute_simulator.Firewall.Sets.Membership.{check_membership-eq-any}
use traceroute_simulator.Firewall.Rules.{MatchSet}
use traceroute_simulator.Firewall.Matching.{
  Packet, begins, match_set_passes, check_compound_match_set, compound_field, is_member,
}

abbrev pub directed : String → String → MatchSet
directed set_name direction = record { set_name = set_name; direction = direction }

-- The address and the port of a packet that a set is asked for, by the directions of the rule.
pub data Asked (p : Packet) : String → String → Option ℕ → Type 0 where
  src_src : Asked p "src,src" p.src_ip p.src_port
  src_dst : Asked p "src,dst" p.src_ip p.dest_port
  dst_src : Asked p "dst,src" p.src_ip p.dest_port
  dst_dst : Asked p "dst,dst" p.dest_ip p.dest_port

-- The types of sets of an address or a network with a port.
abbrev pub HasPort : String → Type 0
HasPort type = (begins "hash:ip,port" type ≡ true) ⊎ (begins "hash:net,port" type ≡ true)

abbrev lookup_of : Unicode → Option Ipset → Option (List Member)
lookup_of u none = none
lookup_of u (some s) = some (lookup_set u s.members)

get-build_lookup_sets :
    (u : Unicode) (name : String) (ipsets : Dict Ipset) (s : Ipset)
    → get name ipsets ≡ some s
    → get name (build_lookup_sets u ipsets) ≡ some (lookup_set u s.members)
unfolding get build_lookup_sets
get-build_lookup_sets u name [] s h = cc
get-build_lookup_sets u name ((k, t) ∷ ipsets) s h = elim (Bool-cases (str_eq k name)) [
  | inl e ↦ let same : some t ≡ some s = rw e at h in rw e (ap (lookup_of u) same)
  | inr e ↦ rw e (get-build_lookup_sets u name ipsets s (rw e at h))
]

module _ (u : Unicode) (parser : IpsetParser) (p : Packet) (set_name : String) (s : Ipset) where
  check_compound-member :
      (d e : String) (f g : String × Option ℕ)
      → get_set_info parser set_name ≡ some s
      → HasPort s.type
      → check_compound_match_set u parser p set_name d e f g
        ≡ is_member u parser p set_name (compound_field u parser p d e f g)
  unfolding check_compound_match_set
  check_compound-member d e f g found (inl t) = rw (found, check_compound_match_set) (rw t refl)
  check_compound-member d e f g found (inr t) =
      rw (found, check_compound_match_set)
        (elim (Bool-cases (begins "hash:ip,port" s.type)) [
          | inl t' ↦ rw t' refl
          | inr t' ↦ rw (t', t) refl
        ])

  -- A set with ports is asked for what the directions say.
  passes-check_membership :
      (directions ip : String) (port : Option ℕ)
      → get_set_info parser set_name ≡ some s
      → HasPort s.type
      → Asked p directions ip port
      → match_set_passes u parser p (directed set_name directions)
        ≡ check_membership u parser ip set_name port p.protocol
  unfolding match_set_passes split
  passes-check_membership directions ip port found t src_src =
      check_compound-member "src" "src" (p.src_ip, p.src_port) (p.src_ip, p.src_port) found t
  passes-check_membership directions ip port found t src_dst =
      check_compound-member "src" "dst" (p.src_ip, p.src_port) (p.dest_ip, p.dest_port) found t
  passes-check_membership directions ip port found t dst_src =
      check_compound-member "dst" "src" (p.dest_ip, p.dest_port) (p.src_ip, p.src_port) found t
  passes-check_membership directions ip port found t dst_dst =
      check_compound-member "dst" "dst" (p.dest_ip, p.dest_port) (p.dest_ip, p.dest_port) found t

-- Let a configured set have a type of an address or a network with a port, and let a rule refer to
-- it by two directions. The packet passes exactly if some member of the set matches the address and
-- the port that is asked for, with the packet's protocol: for `src,src` the source's address and
-- port, for `dst,dst` the destination's, and for `src,dst` the source's address with the
-- destination's port. For `dst,src` it is the same as for `src,dst`: never the destination's address
-- with the source's port. The address asked for is valid.
pub match_set_passes-dst_src :
    (u : Unicode) (ipsets : Dict Ipset) (p : Packet) (set_name : String) (s : Ipset)
    (directions ip : String) (port : Option ℕ) (a : Address)
    → get set_name ipsets ≡ some s
    → HasPort s.type
    → Asked p directions ip port
    → ip_address ip ≡ some a
    → match_set_passes u (with_ipsets u ipsets) p (directed set_name directions)
      ≡ any
          (member_matches a ip (port_or_any port) (protocol_or_any u p.protocol))
          (lookup_set u s.members)
unfolding with_ipsets get_set_info
match_set_passes-dst_src u ipsets p set_name s directions ip port a found t asked valid =
    passes-check_membership u (with_ipsets u ipsets) p set_name s directions ip port found t asked
    ∙ check_membership-eq-any u (with_ipsets u ipsets) ip set_name port p.protocol a
        (lookup_set u s.members) valid (get-build_lookup_sets u set_name ipsets s found)

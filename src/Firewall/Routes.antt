-- ===== src/Firewall/Routes.antt =====
-- The look at the routing table in src/analyzers/iptables_forward_analyzer.py, for IPv4.
use traceroute_simulator.Prelude.{
  String, ◌≡◌, refl, sym, subst, ap, inl, inr, true, false, Option, none, some, List, [], ◌∷◌,
  arith, str_eq, Bool-cases, keep,
}
use traceroute_simulator.Ip.{v4, Address, width, ip_address, ip_network, address_eq}
use traceroute_simulator.Router.{Route, Best, or_empty, has_slash, route_of}
use traceroute_simulator.Router.Rounds.{
  host_len, BestLe, Covers, Round, Covers-none, rounds_from, Rounds, IsLongest,
  rounds_from-IsLongest,
}
use traceroute_simulator.Router.Prefixes.{default_Round, network_Round}
use traceroute_simulator.Router.Widths.{prefixlen_bounded}
use traceroute_simulator.Firewall.Lookup.{
  has_both, shorter_than_32, host_route, compare_route, best_route_from, dev_of,
  find_outgoing_interface,
}

BestLe-32 : (best : Best) → shorter_than_32 best ≡ true → BestLe best 32
BestLe-32 none h = tt
BestLe-32 (some (r, n)) h = ground arith

Covers-32 : (best : Best) → shorter_than_32 best ≡ false → Covers (some 32) best
Covers-32 none h = cc
Covers-32 (some (r, n)) h = ground arith

host_route-Round :
    (a : Address) (r : Route) (o : Option Address) (best : Best)
    → width a.version ≡ 32
    → Round a r best (host_len a o) (host_route a r o best)
host_route-Round a r none best w = inl (refl, Covers-none best)
host_route-Round a r (some b) best w = elim (Bool-cases (address_eq a b)) [
  | inr e ↦ rw e (inl (refl, Covers-none best))
  | inl e ↦ elim (Bool-cases (shorter_than_32 best)) [
    | inl s ↦ rw (e, s) (inr (32, refl, ap some w, omega (arith, w), BestLe-32 best s))
    | inr s ↦ rw (e, s) (inl (refl, subst (λ n. Covers (some n) best) (sym w) (Covers-32 best s)))
  ]
]

compare_route-Rounds : (a : Address) → width a.version ≡ 32 → Rounds a (compare_route a)
unfolding compare_route
compare_route-Rounds a w r best k = elim (Bool-cases (str_eq (or_empty r.dst) "default")) [
  | inl d ↦ rw d (default_Round a r best)
  | inr d ↦ elim (Bool-cases (has_slash (or_empty r.dst))) [
    | inl s ↦
        rw (d, s)
          (network_Round a r (ip_network (or_empty r.dst)) best
            (λ n. prefixlen_bounded (or_empty r.dst)))
    | inr s ↦ rw (d, s) (host_route-Round a r (ip_address (or_empty r.dst)) best w)
  ]
]

best_route_from-rounds :
    (a : Address) (table : List Route) (best : Best)
    → best_route_from a table best ≡ rounds_from (compare_route a) (keep has_both table) best
unfolding best_route_from keep
best_route_from-rounds a [] best = refl
best_route_from-rounds a (r ∷ table) best = elim (Bool-cases (has_both r)) [
  | inl e ↦ rw e (best_route_from-rounds a table (compare_route a r best))
  | inr e ↦ rw e (best_route_from-rounds a table best)
]

-- For an IPv4 address the interface is the device of a longest match: `find_outgoing_interface`
-- answers the device of a route that has a destination and a device, matches the address, and has
-- the longest prefix of all these, or no interface, and then none of these matches.
pub find_outgoing_interface-IsLongest :
    (table : List Route) (dest_ip : String) (a : Address)
    → ip_address dest_ip ≡ some a
    → a.version ≡ v4
    → (o : Option Route) × (find_outgoing_interface table dest_ip ≡ dev_of o)
      × IsLongest a (keep has_both table) o
unfolding find_outgoing_interface
find_outgoing_interface-IsLongest table dest_ip a h v = (
  route_of (best_route_from a table none),
  rw h refl,
  subst (λ best. IsLongest a (keep has_both table) (route_of best))
      (sym (best_route_from-rounds a table none))
      (rounds_from-IsLongest a (compare_route a) (compare_route-Rounds a (ap width v))
        (keep has_both table)),
)

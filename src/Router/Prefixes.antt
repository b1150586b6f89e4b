-- ===== src/Router/Prefixes.antt =====
-- Longest prefix matching by `get_best_route` of src/core/traceroute_simulator.py.
use traceroute_simulator.Prelude.{
  ◌≤◌, String, ◌≡◌, refl, sym, subst, inl, inr, true, Option, none, some, List, [], ◌∷◌, arith,
  str_eq, Bool-cases, keep, ok,
}
use traceroute_simulator.Ip.{
  Version, v4, v6, Address, Network, version_eq, width, ip_address, ip_network, is_in, address_eq,
}
use traceroute_simulator.Router.{
  Route, Router, or_empty, Best, longer_than, has_slash, consider, best_from, not_blackhole,
  route_of, get_best_route, host_match, network_match, default_match,
}
use traceroute_simulator.Router.Widths.{prefixlen_bounded}
use traceroute_simulator.Router.Rounds.{
  network_len, host_len, match_len, BestLe, Round, Covers-none, longer_BestLe, shorter_Covers,
  rounds_from, IsLongest, rounds_from-IsLongest,
}

same_version : (v w : Version) → version_eq v w ≡ true → v ≡ w
same_version v4 v4 h = refl
same_version v6 v6 h = refl
same_version v4 v6 h = cc
same_version v6 v4 h = cc

in_version : (a : Address) (n : Network) → is_in a n ≡ true → n.version ≡ a.version
unfolding is_in
in_version a n h = sym (same_version a.version n.version (ground arith))

pub in_width :
    (a : Address) (n : Network)
    → n.prefixlen ≤ width n.version
    → is_in a n ≡ true
    → n.prefixlen ≤ width a.version
in_width a n k h = subst (λ v. n.prefixlen ≤ width v) (in_version a n h) k

host_Round :
    (a : Address) (r : Route) (o : Option Address) (best : Best)
    → BestLe best (width a.version)
    → Round a r best (host_len a o) (host_match a r o best)
host_Round a r none none k = inl (refl, refl)
host_Round a r none (some b) k = inl (refl, tt)
host_Round a r (some b) best k = elim (Bool-cases (address_eq a b)) [
  | inl e ↦ rw e (inr (width a.version, refl, refl, omega arith, k))
  | inr e ↦ rw e (inl (refl, Covers-none best))
]

pub default_Round :
    (a : Address) (r : Route) (best : Best) → Round a r best (some 0) (default_match r best)
default_Round a r none = inr (0, refl, refl, omega arith, tt)
default_Round a r (some (q, n)) = inl (refl, omega arith)

pub network_Round :
    (a : Address) (r : Route) (o : Option Network) (best : Best)
    → ((n : Network) → o ≡ some n → n.prefixlen ≤ width n.version)
    → Round a r best (network_len a o) (network_match a r o best)
network_Round a r none best k = inl (refl, Covers-none best)
network_Round a r (some n) best k = elim (Bool-cases (is_in a n)) [
  | inr e ↦ rw e (inl (refl, Covers-none best))
  | inl e ↦ elim (Bool-cases (longer_than n.prefixlen best)) [
    | inl l ↦
        rw (e, l)
          (inr
            (n.prefixlen, refl, refl, in_width a n (k n refl) e, longer_BestLe n.prefixlen best l))
    | inr l ↦ rw (e, l) (inl (refl, shorter_Covers n.prefixlen best l))
  ]
]

consider-Round :
    (a : Address) (r : Route) (best : Best)
    → BestLe best (width a.version)
    → Round a r best (match_len a r) (consider a r best)
unfolding consider
consider-Round a r best k = elim (Bool-cases (str_eq (or_empty r.dst) "default")) [
  | inl d ↦ rw d (default_Round a r best)
  | inr d ↦ elim (Bool-cases (has_slash (or_empty r.dst))) [
    | inl s ↦
        rw (d, s)
          (network_Round a r (ip_network (or_empty r.dst)) best
            (λ n. prefixlen_bounded (or_empty r.dst)))
    | inr s ↦ rw (d, s) (host_Round a r (ip_address (or_empty r.dst)) best k)
  ]
]

best_from-rounds :
    (a : Address) (routes : List Route) (best : Best)
    → best_from a routes best ≡ rounds_from (consider a) routes best
unfolding best_from
best_from-rounds a [] best = refl
best_from-rounds a (r ∷ routes) best = best_from-rounds a routes (consider a r best)

-- For an address, `get_best_route` answers, and its answer is a route that is no blackhole, matches
-- the address, and has the longest prefix of all these, or is none, and then none matches.
pub get_best_route-IsLongest :
    (router : Router) (dst_ip : String) (a : Address)
    → ip_address dst_ip ≡ some a
    → (o : Option Route) × (get_best_route router dst_ip ≡ ok o)
      × IsLongest a (keep not_blackhole router.routes) o
unfolding get_best_route
get_best_route-IsLongest router dst_ip a h =
    let routes = keep not_blackhole router.routes in
    (
      route_of (best_from a routes none),
      rw h refl,
      subst (λ best. IsLongest a routes (route_of best)) (sym (best_from-rounds a routes none))
          (rounds_from-IsLongest a (consider a) (consider-Round a) routes),
    )

-- ===== src/Simulator/Endings.antt =====
-- How a path of `simulate_traceroute` in src/core/traceroute_simulator.py ends.
use traceroute_simulator.Prelude.{
  ◌-◌, ◌≤◌, String, ◌≡◌, refl, sym, ◌⊎◌, inl, inr, Option, none, some, List, [], ◌∷◌, arith,
  Bool-cases, Option-cases, find, value_error, require, ok, raise, ok_inj, ◌>>=◌, >>=-eq-ok, get,
}
use traceroute_simulator.Ip.{ip_address as parse_ip}
use traceroute_simulator.Router.{Router}
use traceroute_simulator.Simulator.{
  Routers, found, find_router_by_ip, validate_ip_reachability, dev_of, is_connected,
}
use traceroute_simulator.Simulator.Trace.{Hop, Walk, walk_all}
use traceroute_simulator.Simulator.Start.{
  arrow, start_at_owner, start_beside, start_by, is_same, start_router, trace_at,
  simulate_traceroute,
}
use traceroute_simulator.Simulator.Ends.{Reason, walk-Reason}

module _ (getent : String → List String) (routers : Routers) (src_ip dst_ip : String) where
  -- One entry for two interfaces of one router.
  abbrev pub OneRouter : List Hop → Type 0
  OneRouter path = (h : Hop) × (path ≡ h ∷ []) × (h.ip_address ≡ arrow src_ip dst_ip)

  -- The loop went through all its rounds, up to the hop number 31.
  abbrev pub AllRounds : List Hop → Type 0
  AllRounds path = (w : Walk) × (w.path ≡ path) × (w.hop ≡ 31)

  abbrev pub Ends : List Hop → Type 0
  Ends path = OneRouter path ⊎ ((w : Walk) × (w.path ≡ path) × Reason dst_ip w) ⊎ AllRounds path

  walk_all-Ends :
      (start : Walk) {path : List Hop}
      → start.hop ≤ 31
      → (walk_all getent routers dst_ip start >>= λ w. ok w.path) ≡ ok path
      → Ends path
  walk_all-Ends start early h =
      let (w, walked, same) =
        >>=-eq-ok (walk_all getent routers dst_ip start) (λ (v : Walk). ok v.path) h in
      elim (walk-Reason getent routers dst_ip (31 - start.hop) start w walked) [
        | inl why ↦ inr (inl (w, ok_inj same, why))
        | inr all_new ↦ inr (inr (w, ok_inj same, omega (arith, early, all_new.next_hop)))
      ]

  start_by-Ends :
      (o : Option String) (name : String) (router : Router) {path : List Hop}
      → (start_by getent routers src_ip dst_ip o name router >>= λ w.
          walk_all getent routers dst_ip w >>= λ w'. ok w'.path)
        ≡ ok path
      → Ends path
  start_by-Ends (some owner) name router h =
      walk_all-Ends (start_at_owner getent routers src_ip dst_ip name router) (omega arith) h
  start_by-Ends none name router h = elim (Option-cases (parse_ip src_ip)) [
    | inl unread ↦ let never : raise value_error ≡ ok _ = rw unread at h in cc never
    | inr (a, is_read) ↦
        walk_all-Ends
          (start_beside getent routers src_ip dst_ip name router
            (dev_of (find (is_connected a) router.routes)))
          (omega arith) (rw is_read at h)
  ]

  trace_at-Ends :
      (o : Option String) {path : List Hop}
      → trace_at getent routers src_ip dst_ip o ≡ ok path
      → Ends path
  trace_at-Ends none h = cc
  trace_at-Ends (some name) {path} h =
      let (router, there, rest) = >>=-eq-ok (found (get name routers)) _ h in
      elim (Bool-cases (
        is_same getent routers src_ip dst_ip (find_router_by_ip routers src_ip)
          (find_router_by_ip routers dst_ip))) [
            | inl same ↦ inl (_, sym (ok_inj (rw same at rest)), refl)
            | inr other ↦
                start_by-Ends (find_router_by_ip routers src_ip) name router (rw other at rest)
          ]

  pub simulate_traceroute-Ends :
      (path : List Hop) → simulate_traceroute getent routers src_ip dst_ip ≡ ok path → Ends path
  unfolding simulate_traceroute
  simulate_traceroute-Ends path h =
      let (valid, checked, rest) = >>=-eq-ok (validate_ip_reachability routers src_ip) _ h in
      let (unit, required, rest') = >>=-eq-ok (require valid value_error) _ rest in
      let (start, first, rest'') =
        >>=-eq-ok (start_router getent routers src_ip dst_ip (find_router_by_ip routers src_ip)) _
          rest' in
      trace_at-Ends start rest''

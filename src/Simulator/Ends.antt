-- ===== src/Simulator/Ends.antt =====
-- Why the loop of `simulate_traceroute` in src/core/traceroute_simulator.py ends.
use mathlib.Core.List.{append-nil, append_assoc}
use Prim.Native.String.{◌++◌ as text_append}
use traceroute_simulator.Prelude.{
  ℕ, zero, suc, ◌+◌, String, ◌≡◌, refl, sym, ap, subst, ◌∙◌, ◌⊎◌, inl, inr, Bool, true, false, ◌&&◌,
  Option, none, some, List, [], ◌∷◌, ◌++◌, arith, eq_iff, str_eq, Bool-cases, Option-cases, mem_str,
  length, All, All-mono, Distinct, ◌≢◌, ok, raise, ◌>>=◌, >>=-eq-ok, Result-cases, ok_inj, get,
}
use traceroute_simulator.Ip.{ip_address as parse_ip, Address}
use traceroute_simulator.Router.{Router, or_empty, get_best_route, get_type}
use traceroute_simulator.Simulator.{
  Routers, found, find_router_by_ip, dev_of, is_public_ip, is_destination_reachable, NextHop,
  get_next_hop,
}
use traceroute_simulator.Simulator.Trace.{
  Hop, Walk, set_outgoing, shown_ips, Step, with_path, add_hop, owner_hop, connected_hop,
  destination_hop, arrive, no_route, ip_of_out, next_incoming, enter, advance, go_on, step, walk,
}
use traceroute_simulator.Simulator.Walks.{Moved, step-Outcome}

-- The address of the last hop.
abbrev pub LastIp : List Hop → String → Type 0
LastIp path ip = (front : List Hop) × (h : Hop) × (path ≡ front ++ h ∷ []) × (h.ip_address ≡ ip)

-- The last hop is a loop: it has the name of a router that the walk has visited.
abbrev pub IsLoop : Walk → String → Type 0
IsLoop w ip =
    (front : List Hop) × (h : Hop) × (w.path ≡ front ++ h ∷ [])
    × (h.ip_address ≡ text_append ip " (loop detected)")
    × (mem_str h.router_name w.visited ≡ true)

-- The path shows the destination, or its last hop is the destination, has no route, or is a loop.
pub data Reason (dst_ip : String) (w : Walk) : Type 0 where
  shown : mem_str dst_ip (shown_ips w.path) ≡ true → Reason dst_ip w
  reached : LastIp w.path dst_ip → Reason dst_ip w
  unroutable : LastIp w.path "No route" → Reason dst_ip w
  loops : (ip : String) → IsLoop w ip → Reason dst_ip w

-- All rounds are done, and each has entered a router that was not visited before.
pub record AllNew (rounds : ℕ) (w w' : Walk) : Type 0 where
  pub next_hop : w'.hop ≡ w.hop + rounds
  pub entered : List String
  pub visited : w'.visited ≡ w.visited ++ entered
  pub one_each : length entered ≡ rounds
  pub not_before : All (λ name. mem_str name w.visited ≡ false) entered
  pub once : Distinct entered

abbrev StepReason : String → Step → Type 0
StepReason dst_ip (w, true) = Reason dst_ip w
StepReason dst_ip (w, false) = Unit

module _ (getent : String → List String) (routers : Routers) (dst_ip : String) where
  owner_hop-ip :
      (n : ℕ) (current : String) (o : Option String) {h : Hop}
      → owner_hop getent routers dst_ip n current o ≡ ok h
      → h.ip_address ≡ dst_ip
  owner_hop-ip n current none e = sym (ap (λ (h : Hop). h.ip_address) (ok_inj e))
  owner_hop-ip n current (some name) e =
      let (router, there, made) = >>=-eq-ok (found (get name routers)) _ e in
      sym (ap (λ (h : Hop). h.ip_address) (ok_inj made))

  connected_hop-ip :
      (n : ℕ) (current : String) (router : Router) (o : Option Address) {h : Hop}
      → connected_hop getent routers dst_ip n current router o ≡ ok h
      → h.ip_address ≡ dst_ip
  connected_hop-ip n current router none e = cc
  connected_hop-ip n current router (some a) e = sym (ap (λ (h : Hop). h.ip_address) (ok_inj e))

  destination_hop-ip :
      (n : ℕ) (current : String) (router : Router) (is_owned : Bool) {h : Hop}
      → destination_hop getent routers dst_ip n current router is_owned ≡ ok h
      → h.ip_address ≡ dst_ip
  destination_hop-ip n current router true e =
      owner_hop-ip n current (find_router_by_ip routers dst_ip) e
  destination_hop-ip n current router false e =
      connected_hop-ip n current router (parse_ip dst_ip) e

  arrive-Reason :
      (is_owned : Bool) (router : Router) (w w' : Walk)
      → arrive getent routers dst_ip is_owned router w ≡ ok w'
      → Reason dst_ip w'
  unfolding arrive
  arrive-Reason is_owned router w w' h =
      let (o, chosen, rest) = >>=-eq-ok (get_best_route router dst_ip) _ h in
      let path = set_outgoing (or_empty (dev_of o)) w.path in
      let dest = destination_hop getent routers dst_ip w.hop w.current_router router is_owned in
      elim (Bool-cases (mem_str dst_ip (shown_ips path))) [
        | inl there ↦
            let same : ok (with_path path w) ≡ ok w' = rw there at rest in
            subst (Reason dst_ip) (ok_inj same) (shown there)
        | inr new ↦
            let appended : (dest >>= λ h'. ok (add_hop h' (with_path path w))) ≡ ok w' =
              rw new at rest in
            let (dst_hop, made, same) = >>=-eq-ok dest _ appended in
            subst (Reason dst_ip) (ok_inj same) (
              reached (
                path,
                dst_hop,
                refl,
                destination_hop-ip w.hop w.current_router router is_owned made,
              ))
      ]

  no_route-Reason :
      (w : Walk) (s : Step)
      → ok (no_route getent routers dst_ip w, true) ≡ ok s
      → StepReason dst_ip s
  no_route-Reason w s h = subst (StepReason dst_ip) (ok_inj h) (unroutable (w.path, _, refl, refl))

  at_destination :
      (w : Walk) (path : List Hop) (h : Hop) (b : Bool)
      → w.path ≡ path ++ h ∷ []
      → str_eq h.ip_address dst_ip ≡ b
      → StepReason dst_ip (w, b)
  at_destination w path h true e d = reached (path, h, e, (eq_iff h.ip_address dst_ip).0 d)
  at_destination w path h false e d = tt

  enter-Reason :
      (router : Router) (next_router next_ip : String) (out : Option String) (w : Walk) (s : Step)
      → enter getent routers dst_ip router next_router next_ip out w ≡ ok s
      → StepReason dst_ip s
  enter-Reason router next_router next_ip out w s h =
      let (i, found_in, same) =
        >>=-eq-ok
          (next_incoming getent routers dst_ip next_router out
            (ip_of_out getent routers dst_ip router out))
          _ h in
      subst (StepReason dst_ip) (ok_inj same)
        (at_destination _ (set_outgoing (or_empty out) w.path) _ (str_eq next_ip dst_ip) refl refl)

  advance-Reason :
      (router : Router) (w : Walk) (next : NextHop) (s : Step)
      → advance getent routers dst_ip router w next ≡ ok s
      → StepReason dst_ip s
  unfolding advance
  advance-Reason router w (next_router, none, out) s h = no_route-Reason w s h
  advance-Reason router w (none, some next_ip, out) s h = elim (Bool-cases (str_eq next_ip "")) [
    | inl empty ↦ no_route-Reason w s (rw empty at h)
    | inr given ↦
        elim (Bool-cases
          (str_eq next_ip dst_ip && str_eq (get_type router) "gateway" && is_public_ip dst_ip)) [
            | inl internet ↦
                subst (StepReason dst_ip) (ok_inj (rw (given, internet) at h))
                  (reached (set_outgoing (or_empty out) w.path, _, refl, refl))
            | inr nowhere ↦ no_route-Reason w s (rw (given, nowhere) at h)
          ]
  ]
  advance-Reason router w (some next_router, some next_ip, out) s h =
      elim (Bool-cases (str_eq next_ip "")) [
        | inl empty ↦ no_route-Reason w s (rw empty at h)
        | inr given ↦ elim (Bool-cases (mem_str next_router w.visited)) [
          | inl again ↦
              subst (StepReason dst_ip) (ok_inj (rw (given, again) at h))
                (loops next_ip (w.path, _, refl, refl, again))
          | inr new ↦ enter-Reason router next_router next_ip out w s (rw (given, new) at h)
        ]
      ]

  go_on-Reason :
      (w : Walk) (r : Bool × Bool) (s : Step)
      → go_on getent routers dst_ip w r ≡ ok s
      → StepReason dst_ip s
  go_on-Reason w (true, is_owned) s h =
      let (router, here, arrived) = >>=-eq-ok (found (get w.current_router routers)) _ h in
      let (w', made, same) = >>=-eq-ok (arrive getent routers dst_ip is_owned router w) _ arrived in
      subst (StepReason dst_ip) (ok_inj same) (arrive-Reason is_owned router w w' made)
  go_on-Reason w (false, is_owned) s h =
      let (next, chosen, rest) = >>=-eq-ok (get_next_hop routers w.current_router dst_ip) _ h in
      elim (Option-cases (get w.current_router routers)) [
        | inl absent ↦ no_route-Reason w s (rw absent at rest)
        | inr (router, here) ↦ advance-Reason router w next s (rw here at rest)
      ]

  step-Reason : (w : Walk) (s : Step) → step getent routers dst_ip w ≡ ok s → StepReason dst_ip s
  unfolding step
  step-Reason w s h =
      let (r, reachable_or_not, rest) =
        >>=-eq-ok (is_destination_reachable routers w.current_router dst_ip) _ h in
      go_on-Reason w r s rest

  mem_str-append :
      (name : String) (xs ys : List String)
      → mem_str name (xs ++ ys) ≡ false
      → mem_str name xs ≡ false
  unfolding mem_str
  mem_str-append name [] ys h = refl
  mem_str-append name (x ∷ xs) ys h = ground (arith, mem_str-append name xs ys)

  mem_str-last :
      (name last : String) (xs : List String) → mem_str name (xs ++ last ∷ []) ≡ false → name ≢ last
  unfolding mem_str
  mem_str-last name last [] h = λ e. ground (arith, eq_iff last name)
  mem_str-last name last (x ∷ xs) h = mem_str-last name last xs (ground arith)

  no_rounds : (w : Walk) → AllNew 0 w w
  no_rounds w = record {
    next_hop = omega arith;
    entered = [];
    visited = sym (append-nil w.visited);
    one_each = refl;
    not_before = tt;
    once = tt;
  }

  -- A round that enters a new router, before rounds that do.
  AllNew-suc :
      (rounds : ℕ) (w v w' : Walk) → Moved w v → AllNew rounds v w' → AllNew (suc rounds) w w'
  AllNew-suc rounds w v w' m a =
      let name = v.current_router in
      let unseen : All (λ x. mem_str x (w.visited ++ name ∷ []) ≡ false) a.entered =
        subst (λ l. All (λ x. mem_str x l ≡ false) a.entered) m.one_visited a.not_before in
      record {
        next_hop = omega (arith, a.next_hop, m.next_hop);
        entered = name ∷ a.entered;
        visited =
            a.visited
            ∙ ap (λ l. l ++ a.entered) m.one_visited
            ∙ append_assoc w.visited (name ∷ []) a.entered;
        one_each = omega (arith, a.one_each);
        not_before =
            (m.new_router, All-mono (λ x. mem_str-append x w.visited (name ∷ [])) a.entered unseen);
        once = (All-mono (λ x. mem_str-last x name w.visited) a.entered unseen, a.once);
      }

  -- A loop that ends does so because its path shows the destination, because its last hop is the
  -- destination, has no route or names a router that was visited before, or because all its rounds
  -- are done, and then each has advanced the hop number by one and has entered another router, none
  -- of them visited before the loop.
  pub walk-Reason :
      (rounds : ℕ) (w w' : Walk)
      → walk getent routers dst_ip rounds w ≡ ok w'
      → Reason dst_ip w' ⊎ AllNew rounds w w'
  unfolding walk
  walk-Reason zero w w' e = inr (subst (AllNew 0 w) (ok_inj e) (no_rounds w))
  walk-Reason (suc rounds) w w' e = elim (Result-cases (step getent routers dst_ip w)) [
    | inl (x, r) ↦ let never : raise x ≡ ok w' = rw (r, walk) at e in cc never
    | inr ((v, true), r) ↦
        inl (subst (Reason dst_ip) (ok_inj (rw (r, walk) at e)) (step-Reason w (v, true) r))
    | inr ((v, false), r) ↦ elim (walk-Reason rounds v w' (rw (r, walk) at e)) [
      | inl why ↦ inl why
      | inr all_new ↦
          inr (AllNew-suc rounds w v w' (step-Outcome getent routers dst_ip w (v, false) r) all_new)
    ]
  ]

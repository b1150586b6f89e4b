-- ===== src/Simulator/Walks.antt =====
-- The invariant of the walk of `simulate_traceroute` in src/core/traceroute_simulator.py.
use traceroute_simulator.Prelude.{
  ℕ, suc, ◌<◌, String, ◌≡◌, refl, sym, ap, subst, ◌∙◌, ◌≢◌, ◌⊎◌, inl, inr, Bool, true, false, ◌&&◌,
  Option, none, some, List, [], ◌∷◌, ◌++◌, map, arith, eq_iff, str_eq, Bool-cases, Option-cases,
  length, All, All-append, Distinct, mem_str, ok, ◌>>=◌, >>=-eq-ok, get, ok_inj,
}
use traceroute_simulator.Ip.{ip_address as parse_ip, Address}
use traceroute_simulator.Router.{Router, or_empty, get_best_route, get_type}
use traceroute_simulator.Simulator.{
  Routers, found, find_router_by_ip, dev_of, is_public_ip, is_destination_reachable, NextHop,
  get_next_hop,
}
use traceroute_simulator.Simulator.Trace.{
  Hop, Walk, set_outgoing, shown_ips, Step, with_path, add_hop, owner_hop, connected_hop,
  destination_hop, arrive, no_route, ip_of_out, next_incoming, enter, advance, go_on, step,
}

abbrev pub numbers : List Hop → List ℕ
numbers path = map (λ (h : Hop). h.hop_number) path

abbrev pub Ascending : List ℕ → Type 0
Ascending [] = Unit
Ascending (n ∷ ns) = All (λ m. n < m) ns × Ascending ns

pub All-one : (P : ℕ → Type 0) (ns : List ℕ) (n : ℕ) → All P ns → P n → All P (ns ++ n ∷ [])
All-one P ns n h p = All-append P ns (n ∷ []) h (p, tt)

pub Ascending-one :
    (ns : List ℕ) (n : ℕ) → Ascending ns → All (λ m. m < n) ns → Ascending (ns ++ n ∷ [])
Ascending-one [] n a h = (tt, tt)
Ascending-one (m ∷ ns) n a h = (All-one (λ k. m < k) ns n a.0 h.0, Ascending-one ns n a.1 h.1)

numbers-append :
    (path : List Hop) (h : Hop) → numbers (path ++ h ∷ []) ≡ numbers path ++ h.hop_number ∷ []
numbers-append [] h = refl
numbers-append (g ∷ path) h = ap (λ ns. g.hop_number ∷ ns) (numbers-append path h)

numbers-set_outgoing :
    (out : String) (path : List Hop) → numbers (set_outgoing out path) ≡ numbers path
unfolding set_outgoing
numbers-set_outgoing out [] = refl
numbers-set_outgoing out (h ∷ []) = refl
numbers-set_outgoing out (h ∷ g ∷ path) =
    ap (λ ns. h.hop_number ∷ ns) (numbers-set_outgoing out (g ∷ path))

pub mem_str-none : (k : String) (xs : List String) → mem_str k xs ≡ false → All (λ x. k ≢ x) xs
unfolding mem_str
mem_str-none k [] h = tt
mem_str-none k (x ∷ xs) h = ((λ e. ground (arith, eq_iff x k)), mem_str-none k xs (ground arith))

pub Distinct-one :
    (xs : List String) (x : String) → Distinct xs → All (λ y. x ≢ y) xs → Distinct (xs ++ x ∷ [])
Distinct-one [] x d h = (tt, tt)
Distinct-one (y ∷ xs) x d h =
    (All-append (λ z. z ≢ y) xs (x ∷ []) d.0 (h.0, tt), Distinct-one xs x d.1 h.1)

-- Before a round: no router twice, ascending hop numbers, all before the next one.
pub record IsWalk (w : Walk) : Type 0 where
  pub visited_once : Distinct w.visited
  pub ascending : Ascending (numbers w.path)
  pub before_next : All (λ n. n < w.hop) (numbers w.path)
  pub fewer_visited : length w.visited < w.hop

-- What a round that ends the loop leaves as it was; it adds at most the hop of its number.
pub record Ended (w w' : Walk) : Type 0 where
  pub same_visited : w'.visited ≡ w.visited
  pub same_hop : w'.hop ≡ w.hop
  pub at_most_one :
      (numbers w'.path ≡ numbers w.path) ⊎ (numbers w'.path ≡ numbers w.path ++ w.hop ∷ [])

-- A round that moves on adds a router that was not visited.
pub record Moved (w w' : Walk) : Type 0 where
  pub new_router : mem_str w'.current_router w.visited ≡ false
  pub one_visited : w'.visited ≡ w.visited ++ w'.current_router ∷ []
  pub next_hop : w'.hop ≡ suc w.hop
  pub one_number : numbers w'.path ≡ numbers w.path ++ w.hop ∷ []

abbrev pub Outcome : Walk → Step → Type 0
Outcome w (w', true) = Ended w w' ⊎ Moved w w'
Outcome w (w', false) = Moved w w'

pub Moved-Outcome : (w : Walk) (s : Step) → Moved w s.0 → Outcome w s
Moved-Outcome w (w', true) m = inr m
Moved-Outcome w (w', false) m = m

module _ (getent : String → List String) (routers : Routers) (dst_ip : String) where
  add_hop-Ended : (w : Walk) (h : Hop) → h.hop_number ≡ w.hop → Ended w (add_hop h w)
  add_hop-Ended w h e = record {
    same_visited = refl;
    same_hop = refl;
    at_most_one = inr (numbers-append w.path h ∙ ap (λ n. numbers w.path ++ n ∷ []) e);
  }

  set_then_add-Ended :
      (w : Walk) (out : String) (h : Hop)
      → h.hop_number ≡ w.hop
      → Ended w (add_hop h (with_path (set_outgoing out w.path) w))
  set_then_add-Ended w out h e = record {
    same_visited = refl;
    same_hop = refl;
    at_most_one = inr (
        numbers-append (set_outgoing out w.path) h
        ∙ (ap (λ ns. ns ++ h.hop_number ∷ []) (numbers-set_outgoing out w.path)
            ∙ ap (λ n. numbers w.path ++ n ∷ []) e));
  }

  owner_hop-number :
      (n : ℕ) (current : String) (o : Option String) {h : Hop}
      → owner_hop getent routers dst_ip n current o ≡ ok h
      → h.hop_number ≡ n
  owner_hop-number n current none e = sym (ap (λ (h : Hop). h.hop_number) (ok_inj e))
  owner_hop-number n current (some name) e =
      let (router, there, made) = >>=-eq-ok (found (get name routers)) _ e in
      sym (ap (λ (h : Hop). h.hop_number) (ok_inj made))

  connected_hop-number :
      (n : ℕ) (current : String) (router : Router) (o : Option Address) {h : Hop}
      → connected_hop getent routers dst_ip n current router o ≡ ok h
      → h.hop_number ≡ n
  connected_hop-number n current router none e = cc
  connected_hop-number n current router (some a) e = sym (ap (λ (h : Hop). h.hop_number) (ok_inj e))

  destination_hop-number :
      (n : ℕ) (current : String) (router : Router) (is_owned : Bool) {h : Hop}
      → destination_hop getent routers dst_ip n current router is_owned ≡ ok h
      → h.hop_number ≡ n
  destination_hop-number n current router true e =
      owner_hop-number n current (find_router_by_ip routers dst_ip) e
  destination_hop-number n current router false e =
      connected_hop-number n current router (parse_ip dst_ip) e

  arrive-Ended :
      (is_owned : Bool) (router : Router) (w w' : Walk)
      → arrive getent routers dst_ip is_owned router w ≡ ok w'
      → Ended w w'
  unfolding arrive
  arrive-Ended is_owned router w w' h =
      let (o, chosen, rest) = >>=-eq-ok (get_best_route router dst_ip) _ h in
      let path = set_outgoing (or_empty (dev_of o)) w.path in
      elim (Bool-cases (mem_str dst_ip (shown_ips path))) [
        | inl shown ↦
            let same : ok (with_path path w) ≡ ok w' = rw shown at rest in
            subst (Ended w) (ok_inj same) (record {
              same_visited = refl;
              same_hop = refl;
              at_most_one = inl (numbers-set_outgoing (or_empty (dev_of o)) w.path);
            })
        | inr new ↦
            let appended : (destination_hop getent routers dst_ip w.hop w.current_router router
                    is_owned
                  >>= λ h'. ok (add_hop h' (with_path path w)))
                ≡ ok w' =
              rw new at rest in
            let (dst_hop, made, same) =
              >>=-eq-ok
                (destination_hop getent routers dst_ip w.hop w.current_router router is_owned) _
                appended in
            subst (Ended w) (ok_inj same) (
              set_then_add-Ended w (or_empty (dev_of o)) dst_hop
                (destination_hop-number w.hop w.current_router router is_owned made))
      ]

  enter-Moved :
      (router : Router) (next_router next_ip : String) (out : Option String) (w w' : Walk)
      (b : Bool)
      → mem_str next_router w.visited ≡ false
      → enter getent routers dst_ip router next_router next_ip out w ≡ ok (w', b)
      → Moved w w'
  enter-Moved router next_router next_ip out w w' b new h =
      let (i, found_in, same) =
        >>=-eq-ok
          (next_incoming getent routers dst_ip next_router out
            (ip_of_out getent routers dst_ip router out))
          _ h in
      subst (Moved w) (ap (λ (s : Step). s.0) (ok_inj same)) (record {
        new_router = new;
        one_visited = refl;
        next_hop = refl;
        one_number =
            numbers-append (set_outgoing (or_empty out) w.path) _
            ∙ ap (λ ns. ns ++ w.hop ∷ []) (numbers-set_outgoing (or_empty out) w.path);
      })

  no_route-Outcome :
      (w : Walk) (s : Step) → ok (no_route getent routers dst_ip w, true) ≡ ok s → Outcome w s
  no_route-Outcome w s h = subst (Outcome w) (ok_inj h) (inl (add_hop-Ended w _ refl))

  advance-Outcome :
      (router : Router) (w : Walk) (next : NextHop) (s : Step)
      → advance getent routers dst_ip router w next ≡ ok s
      → Outcome w s
  unfolding advance
  advance-Outcome router w (next_router, none, out) s h = no_route-Outcome w s h
  advance-Outcome router w (none, some next_ip, out) s h = elim (Bool-cases (str_eq next_ip "")) [
    | inl empty ↦ no_route-Outcome w s (rw empty at h)
    | inr given ↦
        elim (Bool-cases
          (str_eq next_ip dst_ip && str_eq (get_type router) "gateway" && is_public_ip dst_ip)) [
            | inl internet ↦
                subst (Outcome w) (ok_inj (rw (given, internet) at h))
                  (inl (set_then_add-Ended w (or_empty out) _ refl))
            | inr nowhere ↦ no_route-Outcome w s (rw (given, nowhere) at h)
          ]
  ]
  advance-Outcome router w (some next_router, some next_ip, out) s h =
      elim (Bool-cases (str_eq next_ip "")) [
        | inl empty ↦ no_route-Outcome w s (rw empty at h)
        | inr given ↦ elim (Bool-cases (mem_str next_router w.visited)) [
          | inl again ↦
              subst (Outcome w) (ok_inj (rw (given, again) at h)) (inl (add_hop-Ended w _ refl))
          | inr new ↦
              Moved-Outcome w s
                (enter-Moved router next_router next_ip out w s.0 s.1 new (rw (given, new) at h))
        ]
      ]

  go_on-Outcome :
      (w : Walk) (r : Bool × Bool) (s : Step) → go_on getent routers dst_ip w r ≡ ok s → Outcome w s
  go_on-Outcome w (true, is_owned) s h =
      let (router, here, arrived) = >>=-eq-ok (found (get w.current_router routers)) _ h in
      let (w', made, same) = >>=-eq-ok (arrive getent routers dst_ip is_owned router w) _ arrived in
      subst (Outcome w) (ok_inj same) (inl (arrive-Ended is_owned router w w' made))
  go_on-Outcome w (false, is_owned) s h =
      let (next, chosen, rest) = >>=-eq-ok (get_next_hop routers w.current_router dst_ip) _ h in
      elim (Option-cases (get w.current_router routers)) [
        | inl absent ↦ no_route-Outcome w s (rw absent at rest)
        | inr (router, here) ↦ advance-Outcome router w next s (rw here at rest)
      ]

  pub step-Outcome : (w : Walk) (s : Step) → step getent routers dst_ip w ≡ ok s → Outcome w s
  unfolding step
  step-Outcome w s h =
      let (r, reached, rest) =
        >>=-eq-ok (is_destination_reachable routers w.current_router dst_ip) _ h in
      go_on-Outcome w r s rest

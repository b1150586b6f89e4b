-- ===== src/Simulator/Numbering.antt =====
-- What a finished `simulate_traceroute` of src/core/traceroute_simulator.py shows: at most 30 hops,
-- in ascending order, and no router entered twice.
use traceroute_simulator.Prelude.{
  ℕ, zero, suc, ◌+◌, ◌≤◌, ◌<◌, String, ◌≡◌, refl, sym, subst, ◌⊎◌, inl, inr, true, false, Option,
  none, some, List, [], ◌∷◌, ◌++◌, map, arith, str_eq, Bool-cases, Option-cases, length, take, find,
  length-append, All, Distinct, value_error, ok, raise, ◌>>=◌, require, >>=-eq-ok, Result-cases,
  ok_inj, Dict, get, values,
}
use traceroute_simulator.Ip.{ip_address as parse_ip, Address}
use traceroute_simulator.Router.{Router, or_empty, interfaces}
use traceroute_simulator.Simulator.{
  Routers, found, find_router_by_ip, is_connected, dev_of, validate_ip_reachability,
}
use traceroute_simulator.Simulator.Trace.{Hop, new_hop, Walk, step, walk, walk_all}
use traceroute_simulator.Simulator.Start.{
  start_at_owner, first_ip, start_beside, beside, start_by, is_same, start_router, trace_at,
  simulate_traceroute,
}
use traceroute_simulator.Simulator.Walks.{
  numbers, Ascending, IsWalk, Ended, Moved, All-one, Ascending-one, mem_str-none, Distinct-one,
  step-Outcome,
}

-- After the loop.
pub record IsTrace (w : Walk) : Type 0 where
  pub visited_once : Distinct w.visited
  pub ascending : Ascending (numbers w.path)
  pub at_most_30 : All (λ n. n ≤ 30) (numbers w.path)
  pub few_visited : length w.visited ≤ 30

All-weaken : (n m : ℕ) (ns : List ℕ) → n ≤ suc m → All (λ k. k < n) ns → All (λ k. k ≤ m) ns
All-weaken n m [] h a = tt
All-weaken n m (k ∷ ns) h a = (omega (arith, h, a.0), All-weaken n m ns h a.1)

All-later : (n m : ℕ) (ns : List ℕ) → n ≤ m → All (λ k. k < n) ns → All (λ k. k < m) ns
All-later n m [] h a = tt
All-later n m (k ∷ ns) h a = (omega (arith, h, a.0), All-later n m ns h a.1)

IsWalk-IsTrace : (w : Walk) → IsWalk w → w.hop ≤ 31 → IsTrace w
IsWalk-IsTrace w i h = record {
  visited_once = i.visited_once;
  ascending = i.ascending;
  at_most_30 = All-weaken w.hop 30 (numbers w.path) h i.before_next;
  few_visited = omega (arith, h, i.fewer_visited);
}

Moved-IsWalk : (w w' : Walk) → IsWalk w → Moved w w' → IsWalk w'
Moved-IsWalk w w' i m = record {
  visited_once = subst Distinct (sym m.one_visited) (
      Distinct-one w.visited w'.current_router i.visited_once
        (mem_str-none w'.current_router w.visited m.new_router));
  ascending =
      subst Ascending (sym m.one_number)
        (Ascending-one (numbers w.path) w.hop i.ascending i.before_next);
  before_next =
      subst (λ ns. All (λ n. n < w'.hop) ns) (sym m.one_number)
        (subst (λ k. All (λ n. n < k) (numbers w.path ++ w.hop ∷ [])) (sym m.next_hop)
          (All-one (λ n. n < suc w.hop) (numbers w.path) w.hop
            (All-later w.hop (suc w.hop) (numbers w.path) (omega arith) i.before_next)
            (omega arith)));
  fewer_visited =
      subst (λ xs. length xs < w'.hop) (sym m.one_visited)
        (omega
          (arith, m.next_hop, i.fewer_visited, length-append w.visited (w'.current_router ∷ [])));
}

Ended-IsTrace : (w w' : Walk) → IsWalk w → w.hop ≤ 30 → Ended w w' → IsTrace w'
Ended-IsTrace w w' i h e = record {
  visited_once = subst Distinct (sym e.same_visited) i.visited_once;
  ascending = elim e.at_most_one [
    | inl s ↦ subst Ascending (sym s) i.ascending
    | inr s ↦
        subst Ascending (sym s) (Ascending-one (numbers w.path) w.hop i.ascending i.before_next)
  ];
  at_most_30 = elim e.at_most_one [
    | inl s ↦
        subst (λ ns. All (λ n. n ≤ 30) ns) (sym s)
          (All-weaken w.hop 30 (numbers w.path) (omega (arith, h)) i.before_next)
    | inr s ↦
        subst (λ ns. All (λ n. n ≤ 30) ns) (sym s)
          (All-one (λ n. n ≤ 30) (numbers w.path) w.hop
            (All-weaken w.hop 30 (numbers w.path) (omega (arith, h)) i.before_next) h)
  ];
  few_visited =
      subst (λ xs. length xs ≤ 30) (sym e.same_visited) (omega (arith, h, i.fewer_visited));
}

module _ (getent : String → List String) (routers : Routers) (dst_ip : String) where
  -- Round after round, up to hop 30: a walk that is well-formed at its start ends with no router
  -- visited twice, with at most 30 routers, and with ascending hop numbers of at most 30.
  pub walk-IsTrace :
      (rounds : ℕ) (w w' : Walk)
      → IsWalk w
      → w.hop + rounds ≤ 31
      → walk getent routers dst_ip rounds w ≡ ok w'
      → IsTrace w'
  unfolding walk
  walk-IsTrace zero w w' i h e = subst IsTrace (ok_inj e) (IsWalk-IsTrace w i (omega (arith, h)))
  walk-IsTrace (suc rounds) w w' i h e = elim (Result-cases (step getent routers dst_ip w)) [
    | inl (x, r) ↦ let bad : raise x ≡ ok w' = rw (r, walk) at e in cc bad
    | inr ((v, true), r) ↦
        subst IsTrace (ok_inj (rw (r, walk) at e))
          (elim (step-Outcome getent routers dst_ip w (v, true) r) [
            | inl ended ↦ Ended-IsTrace w v i (omega (arith, h)) ended
            | inr moved ↦
                IsWalk-IsTrace v (Moved-IsWalk w v i moved) (omega (arith, h, moved.next_hop))
          ])
    | inr ((v, false), r) ↦
        let moved = step-Outcome getent routers dst_ip w (v, false) r in
        walk-IsTrace rounds v w' (Moved-IsWalk w v i moved) (omega (arith, h, moved.next_hop))
          (rw (r, walk) at e)
  ]

one_value :
    (name i : String) (vs : List String)
    → (numbers (map (λ ip. new_hop 2 name ip i true "") (take 1 vs)) ≡ [])
      ⊎ (numbers (map (λ ip. new_hop 2 name ip i true "") (take 1 vs)) ≡ 2 ∷ [])
one_value name i [] = inl refl
one_value name i (v ∷ vs) = inr refl

module _ (getent : String → List String) (routers : Routers) (src_ip dst_ip : String) where
  first_ip-numbers :
      (name i : String) (o : Option String) (d : Dict String)
      → (numbers
            (map (λ ip. new_hop 2 name ip i true "") (first_ip getent routers src_ip dst_ip i o d))
          ≡ [])
        ⊎ (numbers (
              map (λ ip. new_hop 2 name ip i true "") (first_ip getent routers src_ip dst_ip i o d))
            ≡ 2 ∷ [])
  first_ip-numbers name i none d = one_value name i (values d)
  first_ip-numbers name i (some ip) d = elim (Bool-cases (str_eq ip "")) [
    | inl empty ↦ rw empty (one_value name i (values d))
    | inr given ↦ rw given (inr refl)
  ]

  start_at_owner-IsWalk :
      (name : String) (router : Router)
      → IsWalk (start_at_owner getent routers src_ip dst_ip name router)
  start_at_owner-IsWalk name router = record {
    visited_once = (tt, tt);
    ascending = (tt, tt);
    before_next = (omega arith, tt);
    fewer_visited = omega arith;
  }

  start_beside-IsWalk :
      (name : String) (router : Router) (i : Option String)
      → IsWalk (start_beside getent routers src_ip dst_ip name router i)
  start_beside-IsWalk name router i =
      let rest =
        first_ip-numbers name (or_empty i) (get (or_empty i) (interfaces router))
          (interfaces router) in
      record {
        visited_once = (tt, tt);
        ascending = elim rest [
          | inl e ↦ rw e (tt, tt)
          | inr e ↦ rw e ((omega arith, tt), (tt, tt))
        ];
        before_next = elim rest [
          | inl e ↦ rw e (omega arith, tt)
          | inr e ↦ rw e (omega arith, (omega arith, tt))
        ];
        fewer_visited = omega arith;
      }

  beside-IsTrace :
      (name : String) (router : Router) (a : Address) {path : List Hop}
      → (beside getent routers src_ip dst_ip name router (some a) >>= λ w.
          walk_all getent routers dst_ip w >>= λ w'. ok w'.path)
        ≡ ok path
      → (w : Walk) × (w.path ≡ path) × IsTrace w
  beside-IsTrace name router a h =
      let i = dev_of (find (is_connected a) router.routes) in
      let start = start_beside getent routers src_ip dst_ip name router i in
      let (w, walked, same) =
        >>=-eq-ok (walk_all getent routers dst_ip start) (λ (v : Walk). ok v.path) h in
      (
        w,
        ok_inj same,
        walk-IsTrace getent routers dst_ip 28 start w (start_beside-IsWalk name router i)
            (omega arith) walked,
      )

  owner-IsTrace :
      (name : String) (router : Router) {path : List Hop}
      → (walk_all getent routers dst_ip (start_at_owner getent routers src_ip dst_ip name router)
          >>= λ w'. ok w'.path)
        ≡ ok path
      → (w : Walk) × (w.path ≡ path) × IsTrace w
  owner-IsTrace name router h =
      let start = start_at_owner getent routers src_ip dst_ip name router in
      let (w, walked, same) =
        >>=-eq-ok (walk_all getent routers dst_ip start) (λ (v : Walk). ok v.path) h in
      (
        w,
        ok_inj same,
        walk-IsTrace getent routers dst_ip 29 start w (start_at_owner-IsWalk name router)
            (omega arith) walked,
      )

  start_by-IsTrace :
      (o : Option String) (name : String) (router : Router) {path : List Hop}
      → (start_by getent routers src_ip dst_ip o name router >>= λ w.
          walk_all getent routers dst_ip w >>= λ w'. ok w'.path)
        ≡ ok path
      → (w : Walk) × (w.path ≡ path) × IsTrace w
  start_by-IsTrace (some owner) name router h = owner-IsTrace name router h
  start_by-IsTrace none name router h = elim (Option-cases (parse_ip src_ip)) [
    | inl unread ↦ let never : raise value_error ≡ ok _ = rw unread at h in cc never
    | inr (a, is_read) ↦ beside-IsTrace name router a (rw is_read at h)
  ]

  trace_at-numbers :
      (o : Option String) {path : List Hop}
      → trace_at getent routers src_ip dst_ip o ≡ ok path
      → Ascending (numbers path) × All (λ n. n ≤ 30) (numbers path)
  trace_at-numbers none h = cc
  trace_at-numbers (some name) {path} h =
      let (router, there, rest) = >>=-eq-ok (found (get name routers)) _ h in
      elim (Bool-cases (
        is_same getent routers src_ip dst_ip (find_router_by_ip routers src_ip)
          (find_router_by_ip routers dst_ip))) [
            | inl same ↦
                subst (λ p. Ascending (numbers p) × All (λ n. n ≤ 30) (numbers p))
                  (ok_inj (rw same at rest)) ((tt, tt), (omega arith, tt))
            | inr other ↦
                let (w, same, trace) =
                  start_by-IsTrace (find_router_by_ip routers src_ip) name router
                    (rw other at rest) in
                subst (λ p. Ascending (numbers p) × All (λ n. n ≤ 30) (numbers p)) same
                  (trace.ascending, trace.at_most_30)
          ]

  -- A path that `simulate_traceroute` answers has ascending hop numbers, of at most 30.
  pub simulate_traceroute-numbers :
      (path : List Hop)
      → simulate_traceroute getent routers src_ip dst_ip ≡ ok path
      → Ascending (numbers path) × All (λ n. n ≤ 30) (numbers path)
  unfolding simulate_traceroute
  simulate_traceroute-numbers path h =
      let (valid, checked, rest) = >>=-eq-ok (validate_ip_reachability routers src_ip) _ h in
      let (unit, required, rest') = >>=-eq-ok (require valid value_error) _ rest in
      let (start, first, rest'') =
        >>=-eq-ok (start_router getent routers src_ip dst_ip (find_router_by_ip routers src_ip)) _
          rest' in
      trace_at-numbers start rest''

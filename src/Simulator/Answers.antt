-- ===== src/Simulator/Answers.antt =====
-- That the loop of `simulate_traceroute` in src/core/traceroute_simulator.py answers.
use mathlib.Core.List.{Memᴰ}
use traceroute_simulator.Prelude.{
  ℕ, zero, suc, String, ◌≡◌, refl, sym, ap, ◌≢◌, inl, inr, Bool, true, false, ◌&&◌, Option, none,
  some, List, [], ◌∷◌, eq_iff, str_eq, Bool-cases, Option-cases, if_ind, any, All, mem_str, Result,
  ok, ◌>>=◌, get, values, get-All-values,
}
use traceroute_simulator.Ip.{ip_address as parse_ip, Address}
use traceroute_simulator.Router.{
  Router, or_empty, is_given, interfaces, get_best_route, get_interface_ip, get_type,
}
use traceroute_simulator.Simulator.{
  Routers, found, find_router_by_ip, is_connected, dev_of, incoming, get_incoming_interface,
  is_public_ip, reachable, is_destination_reachable, NextHop, no_hop, get_next_hop,
}
use traceroute_simulator.Simulator.Trace.{
  Walk, set_outgoing, shown_ips, owner_hop, destination_hop, arrive, ip_of_out, next_incoming,
  advance, go_on, step, walk,
}
use traceroute_simulator.Simulator.Hops.{find_router_by_ip-Owns}

-- No exception is raised.
abbrev pub Answers {ℓ} : {A : Type ℓ} → Result A → Type ℓ
Answers {A = A} r = (a : A) × (r ≡ ok a)

pub bind-Answers :
    {A B : Type 0} (m : Result A) (f : A → Result B)
    → Answers m
    → ((a : A) → Answers (f a))
    → Answers (m >>= f)
bind-Answers m f (a, e) k = rw e (k a)

-- The primary addresses of the interfaces are addresses.
abbrev pub ValidRouters : Routers → Type 0
ValidRouters routers =
    All (λ (r : Router). All (λ ip. parse_ip ip ≢ none) (values (interfaces r))) (values routers)

pub get-Memᴰ :
    (name : String) (routers : Routers) (router : Router)
    → Memᴰ (name, router) routers
    → get name routers ≢ none
unfolding get
get-Memᴰ name [] router mem e = elim mem [ ]
get-Memᴰ name ((n, r) ∷ routers) router (Memᴰ.head same) e =
    let here : str_eq n name ≡ true =
      (eq_iff n name).1 (sym (ap (λ (q : String × Router). q.0) same)) in
    let never : some r ≡ none = rw here at e in cc never
get-Memᴰ name ((n, r) ∷ routers) router (Memᴰ.tail mem) e = elim (Bool-cases (str_eq n name)) [
  | inl here ↦ let never : some r ≡ none = rw here at e in cc never
  | inr other ↦ get-Memᴰ name routers router mem (rw other at e)
]

pub found-Answers : {V : Type 0} (o : Option V) → o ≢ none → Answers (found o)
found-Answers none h = let never : ⊥ = h refl in elim never [ ]
found-Answers (some v) h = (v, refl)

module _ (getent : String → List String) (routers : Routers) (dst_ip : String) (a : Address)
    (dst_valid : parse_ip dst_ip ≡ some a) (valid : ValidRouters routers) where
  best_route-Answers : (router : Router) → Answers (get_best_route router dst_ip)
  unfolding get_best_route
  best_route-Answers router = rw dst_valid (_, refl)

  reachable-Answers : (o : Option Router) → Answers (reachable o dst_ip (some a))
  reachable-Answers none = (_, refl)
  reachable-Answers (some router) =
      if_ind Answers (mem_str dst_ip (values (interfaces router))) (λ _. (_, refl))
        (λ _.
          if_ind Answers (any (is_connected a) router.routes) (λ _. (_, refl))
            (λ _.
              if_ind Answers (str_eq (get_type router) "gateway" && is_public_ip dst_ip)
                (λ _. (_, refl)) (λ _. (_, refl))))

  pub is_destination_reachable-Answers :
      (name : String) → Answers (is_destination_reachable routers name dst_ip)
  unfolding is_destination_reachable
  is_destination_reachable-Answers name = rw dst_valid (reachable-Answers (get name routers))

  owner_hop-Answers :
      (n : ℕ) (current : String) (o : Option String)
      → find_router_by_ip routers dst_ip ≡ o
      → Answers (owner_hop getent routers dst_ip n current o)
  owner_hop-Answers n current none e = (_, refl)
  owner_hop-Answers n current (some name) e =
      let (router, mem, has_ip, no_loopback) = find_router_by_ip-Owns routers dst_ip e in
      bind-Answers (found (get name routers)) _
        (found-Answers (get name routers) (get-Memᴰ name routers router mem)) (λ r. (_, refl))

  destination_hop-Answers :
      (n : ℕ) (current : String) (router : Router) (is_owned : Bool)
      → Answers (destination_hop getent routers dst_ip n current router is_owned)
  destination_hop-Answers n current router true =
      owner_hop-Answers n current (find_router_by_ip routers dst_ip) refl
  destination_hop-Answers n current router false = rw dst_valid (_, refl)

  arrive-Answers :
      (is_owned : Bool) (router : Router) (w : Walk)
      → Answers (arrive getent routers dst_ip is_owned router w)
  unfolding arrive
  arrive-Answers is_owned router w =
      bind-Answers (get_best_route router dst_ip) _ (best_route-Answers router) (λ o.
        if_ind Answers (mem_str dst_ip (shown_ips (set_outgoing (or_empty (dev_of o)) w.path)))
          (λ _. (_, refl))
          (λ _.
            bind-Answers
              (destination_hop getent routers dst_ip w.hop w.current_router router is_owned) _
              (destination_hop-Answers w.hop w.current_router router is_owned) (λ h. (_, refl))))

  incoming-Answers :
      (o : Option Router) (ip : String) → parse_ip ip ≢ none → Answers (incoming o (parse_ip ip))
  incoming-Answers none ip h = (_, refl)
  incoming-Answers (some router) ip h = elim (Option-cases (parse_ip ip)) [
    | inl unread ↦ let never : ⊥ = h unread in elim never [ ]
    | inr (b, is_read) ↦ rw is_read (_, refl)
  ]

  next_incoming-Answers :
      (next_router : String) (out ip : Option String)
      → ((i : String) → ip ≡ some i → parse_ip i ≢ none)
      → Answers (next_incoming getent routers dst_ip next_router out ip)
  unfolding get_incoming_interface
  next_incoming-Answers next_router out none h = (_, refl)
  next_incoming-Answers next_router out (some i) h =
      if_ind Answers (is_given (some i))
        (λ _. incoming-Answers (get next_router routers) i (h i refl)) (λ _. (_, refl))

  out_valid :
      (name : String) (router : Router) (out : Option String)
      → get name routers ≡ some router
      → (i : String) → ip_of_out getent routers dst_ip router out ≡ some i
      → parse_ip i ≢ none
  unfolding get_interface_ip
  out_valid name router out here i e = elim (Bool-cases (is_given out)) [
    | inr none_given ↦ let never : none ≡ some i = rw none_given at e in cc never
    | inl given ↦
        get-All-values (λ ip. parse_ip ip ≢ none) (or_empty out) (interfaces router)
          (get-All-values (λ (r : Router). All (λ ip. parse_ip ip ≢ none) (values (interfaces r)))
            name routers valid here)
          (rw given at e)
  ]

  advance-Answers :
      (router : Router) (w : Walk) (next : NextHop)
      → get w.current_router routers ≡ some router
      → Answers (advance getent routers dst_ip router w next)
  unfolding advance
  advance-Answers router w (next_router, none, out) here = (_, refl)
  advance-Answers router w (none, some next_ip, out) here =
      if_ind Answers (str_eq next_ip "") (λ _. (_, refl))
        (λ _.
          if_ind Answers
            (str_eq next_ip dst_ip && str_eq (get_type router) "gateway" && is_public_ip dst_ip)
            (λ _. (_, refl)) (λ _. (_, refl)))
  advance-Answers router w (some next_router, some next_ip, out) here =
      if_ind Answers (str_eq next_ip "") (λ _. (_, refl))
        (λ _.
          if_ind Answers (mem_str next_router w.visited) (λ _. (_, refl))
            (λ _.
              bind-Answers
                (next_incoming getent routers dst_ip next_router out
                  (ip_of_out getent routers dst_ip router out))
                _
                (next_incoming-Answers next_router out (ip_of_out getent routers dst_ip router out)
                  (out_valid w.current_router router out here))
                (λ i. (_, refl))))

  get_next_hop-Answers : (name : String) → Answers (get_next_hop routers name dst_ip)
  unfolding get_next_hop
  get_next_hop-Answers name = elim (Option-cases (get name routers)) [
    | inl absent ↦ rw absent (_, refl)
    | inr (router, here) ↦
        rw here (
          bind-Answers (get_best_route router dst_ip) _ (best_route-Answers router)
            (λ o. (_, refl)))
  ]

  go_on-Answers :
      (w : Walk) (router : Router) (r : Bool × Bool)
      → get w.current_router routers ≡ some router
      → Answers (go_on getent routers dst_ip w r)
  go_on-Answers w router (true, is_owned) here = rw here (
      bind-Answers (arrive getent routers dst_ip is_owned router w) _
        (arrive-Answers is_owned router w) (λ v. (_, refl)))
  go_on-Answers w router (false, is_owned) here =
      bind-Answers (get_next_hop routers w.current_router dst_ip) _
        (get_next_hop-Answers w.current_router)
        (λ next. rw here (advance-Answers router w next here))

  pub absent_reach :
      (name : String)
      → get name routers ≡ none
      → is_destination_reachable routers name dst_ip ≡ ok (false, false)
  unfolding is_destination_reachable
  absent_reach name absent = rw absent refl

  absent_next :
      (name : String) → get name routers ≡ none → get_next_hop routers name dst_ip ≡ ok no_hop
  unfolding get_next_hop
  absent_next name absent = rw absent refl

  step-Answers : (w : Walk) → Answers (step getent routers dst_ip w)
  unfolding step
  step-Answers w = elim (Option-cases (get w.current_router routers)) [
    | inl absent ↦
        rw (absent_reach w.current_router absent, absent_next w.current_router absent, absent)
          (_, refl)
    | inr (router, here) ↦
        bind-Answers (is_destination_reachable routers w.current_router dst_ip) _
          (is_destination_reachable-Answers w.current_router) (λ r. go_on-Answers w router r here)
  ]

  ended_or_not :
      (rounds : ℕ) (w v : Walk) (done : Bool)
      → step getent routers dst_ip w ≡ ok (v, done)
      → Answers (walk getent routers dst_ip rounds v)
      → Answers (walk getent routers dst_ip (suc rounds) w)
  unfolding walk
  ended_or_not rounds w v true e k = rw (e, walk) (v, refl)
  ended_or_not rounds w v false e k = rw (e, walk) k

  -- For a destination that is an address, and routers whose interfaces have addresses, the loop
  -- answers from any state and for any number of rounds.
  pub walk-Answers : (rounds : ℕ) (w : Walk) → Answers (walk getent routers dst_ip rounds w)
  unfolding walk
  walk-Answers zero w = (w, refl)
  walk-Answers (suc rounds) w =
      let ((v, done), e) = step-Answers w in ended_or_not rounds w v done e (walk-Answers rounds v)

-- ===== src/Simulator/Total.antt =====
-- When `simulate_traceroute` of src/core/traceroute_simulator.py answers, and what it raises else.
use traceroute_simulator.Prelude.{
  ◌-◌, String, ◌≡◌, refl, sym, ap, subst, ◌∙◌, ◌≢◌, ◌⊎◌, inl, inr, true, false, Option, none, some,
  List, [], ◌∷◌, if◌then◌else◌, Bool-cases, if_ind, value_error, raise, ok, get, keys,
}
use traceroute_simulator.Ip.{ip_address as parse_ip, Address}
use traceroute_simulator.Router.{Router}
use traceroute_simulator.Simulator.{
  Routers, found, find_router_by_ip, is_destination_reachable, first_reaching, is_some,
  validate_ip_reachability,
}
use traceroute_simulator.Simulator.Trace.{walk_all}
use traceroute_simulator.Simulator.Start.{
  start_by, is_same, trace_from, start_router, trace_at, simulate_traceroute,
}
use traceroute_simulator.Simulator.Hops.{find_router_by_ip-Owns}
use traceroute_simulator.Simulator.Answers.{
  bind-Answers, ValidRouters, get-Memᴰ, found-Answers, is_destination_reachable-Answers,
  absent_reach, walk-Answers, Answers,
}

module _ (getent : String → List String) (routers : Routers) (src_ip dst_ip : String)
    (a b : Address) (src_valid : parse_ip src_ip ≡ some a) (dst_valid : parse_ip dst_ip ≡ some b)
    (valid : ValidRouters routers) where
  start_by-Answers :
      (o : Option String) (name : String) (router : Router)
      → Answers (start_by getent routers src_ip dst_ip o name router)
  start_by-Answers (some owner) name router = (_, refl)
  start_by-Answers none name router = rw src_valid (_, refl)

  trace_from-Answers :
      (name : String)
      → get name routers ≢ none
      → Answers (trace_from getent routers src_ip dst_ip name)
  trace_from-Answers name there =
      bind-Answers (found (get name routers)) _ (found-Answers (get name routers) there) (λ router.
        if_ind Answers
          (is_same getent routers src_ip dst_ip (find_router_by_ip routers src_ip)
            (find_router_by_ip routers dst_ip))
          (λ _. (_, refl))
          (λ _.
            bind-Answers
              (start_by getent routers src_ip dst_ip (find_router_by_ip routers src_ip) name router)
              _ (start_by-Answers (find_router_by_ip routers src_ip) name router)
              (λ w.
                bind-Answers (walk_all getent routers dst_ip w) _
                  (walk-Answers getent routers dst_ip b dst_valid valid (31 - w.hop) w)
                  (λ v. (_, refl)))))

  reach-Answers : (name : String) → Answers (is_destination_reachable routers name src_ip)
  reach-Answers name = is_destination_reachable-Answers getent routers src_ip a src_valid valid name

  first_reaching-Answers : (names : List String) → Answers (first_reaching routers names src_ip)
  unfolding first_reaching
  first_reaching-Answers [] = (none, refl)
  first_reaching-Answers (name ∷ names) =
      bind-Answers (is_destination_reachable routers name src_ip) _ (reach-Answers name)
        (λ r. if_ind Answers r.0 (λ _. (_, refl)) (λ _. first_reaching-Answers names))

  -- A router that is found reaches the address, and so it is one of the routers.
  first_reaching-there :
      (names : List String) (name : String)
      → first_reaching routers names src_ip ≡ ok (some name)
      → get name routers ≢ none
  unfolding first_reaching
  first_reaching-there [] name h absent = cc
  first_reaching-there (n ∷ names) name h absent =
      let ((reaches, owned), e) = reach-Answers n in
      let rest : (if reaches then ok (some n) else first_reaching routers names src_ip)
          ≡ ok (some name) =
        rw (e, first_reaching) at h in
      elim (Bool-cases reaches) [
        | inr later ↦ first_reaching-there names name (rw later at rest) absent
        | inl first ↦
            let same : ok (some n) ≡ ok (some name) = rw first at rest in
            let none_there : get n routers ≡ none =
              subst (λ m. get m routers ≡ none) (sym (cc same)) absent in
            let unreached = absent_reach getent routers src_ip a src_valid valid n none_there in
            let never : ok (reaches, owned) ≡ ok (false, false) = sym e ∙ unreached in
            cc (first, never)
      ]

  start-there :
      (o : Option String) {name : String}
      → find_router_by_ip routers src_ip ≡ o
      → start_router getent routers src_ip dst_ip o ≡ ok (some name)
      → get name routers ≢ none
  start-there none f h = first_reaching-there (keys routers) _ h
  start-there (some owner) f h =
      let (router, mem, has_ip, no_loopback) = find_router_by_ip-Owns routers src_ip f in
      subst (λ n. get n routers ≢ none) (cc h) (get-Memᴰ owner routers router mem)

  start-Answers : (o : Option String) → Answers (start_router getent routers src_ip dst_ip o)
  start-Answers none = first_reaching-Answers (keys routers)
  start-Answers (some owner) = (some owner, refl)

  trace_at-Answers :
      (o : Option String)
      → start_router getent routers src_ip dst_ip (find_router_by_ip routers src_ip) ≡ ok o
      → o ≢ none
      → Answers (trace_at getent routers src_ip dst_ip o)
  trace_at-Answers none h given = let never : ⊥ = given refl in elim never [ ]
  trace_at-Answers (some name) h given =
      trace_from-Answers name (start-there (find_router_by_ip routers src_ip) refl h)

  validated :
      {o : Option String}
      → first_reaching routers (keys routers) src_ip ≡ ok o
      → validate_ip_reachability routers src_ip ≡ ok (is_some o)
  unfolding validate_ip_reachability
  validated e = rw e refl

  start_given :
      (f o : Option String) {n : String}
      → first_reaching routers (keys routers) src_ip ≡ ok (some n)
      → start_router getent routers src_ip dst_ip f ≡ ok o
      → o ≢ none
  start_given none o {n} e h none_given =
      let same : ok (some n) ≡ ok none = sym e ∙ (h ∙ ap (λ x. ok x) none_given) in cc same
  start_given (some owner) o e h none_given =
      let same : ok (some owner) ≡ ok none = h ∙ ap (λ x. ok x) none_given in cc same

  validated_trace :
      {n : String}
      → first_reaching routers (keys routers) src_ip ≡ ok (some n)
      → Answers (simulate_traceroute getent routers src_ip dst_ip)
  unfolding simulate_traceroute
  validated_trace e =
      let f = find_router_by_ip routers src_ip in
      let (o, started) = start-Answers f in
      rw (validated e, started) (trace_at-Answers o started (start_given f o e started))

  by_first :
      (o : Option String)
      → first_reaching routers (keys routers) src_ip ≡ ok o
      → ((validate_ip_reachability routers src_ip ≡ ok true)
          × Answers (simulate_traceroute getent routers src_ip dst_ip))
        ⊎ ((validate_ip_reachability routers src_ip ≡ ok false)
            × (simulate_traceroute getent routers src_ip dst_ip ≡ raise value_error))
  unfolding simulate_traceroute
  by_first none e = inr (validated e, rw (validated e) refl)
  by_first (some n) e = inl (validated e, validated_trace e)

  -- For addresses, and routers whose interfaces have addresses, `simulate_traceroute` answers a path
  -- if a router reaches the source, and otherwise raises the `ValueError` of its documentation.
  pub simulate_traceroute-Answers :
      ((validate_ip_reachability routers src_ip ≡ ok true)
        × Answers (simulate_traceroute getent routers src_ip dst_ip))
      ⊎ ((validate_ip_reachability routers src_ip ≡ ok false)
          × (simulate_traceroute getent routers src_ip dst_ip ≡ raise value_error))
  simulate_traceroute-Answers = let (o, e) = first_reaching-Answers (keys routers) in by_first o e

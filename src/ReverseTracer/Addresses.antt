-- ===== src/ReverseTracer/Addresses.antt =====
-- Which hops stay in the path of `_step3_reverse_and_combine` of src/core/reverse_path_tracer.py, and
-- in which order: by their addresses.
use mathlib.Core.List.{reverse, reverse-cons}
use Prim.Native.Char.{Char}
use traceroute_simulator.Prelude.{
  ℕ, suc, String, ◌≡◌, refl, sym, ap, ◌∙◌, inl, inr, Bool, true, ◌||◌, Option, none, some, List, [],
  ◌∷◌, ◌++◌, eq_refl, str_eq, if◌then◌else◌, Bool-cases, Option-cases, Result, ok, ok_inj, All,
  All-append, keep, find, not, false,
}
use traceroute_simulator.Simulator.{Routers, find_router_by_ip}
use traceroute_simulator.ReverseTracer.Combine.{
  Hop, HopTuple, nine, eight, ip_of, name_of, is_found, linux_at, final_hop, final_from, temp_path,
  destination_rtt, minimal, reverse_and_combine, resolved_end, find_last_linux_router, inner_hops,
  lacks_ip, to_list, owned_by, is_named,
}
use traceroute_simulator.ReverseTracer.Interfaces.{RouteGet, detect_router_interfaces}
use traceroute_simulator.ReverseTracer.Linked.{first_name, linked, link_hops-eq-linked}
use traceroute_simulator.ReverseTracer.Drafts.{Unpacks, inner_hops-Unpacks}
use traceroute_simulator.ReverseTracer.Routes.{with_interfaces-Same}

-- The router that owns an address is this one.
abbrev pub is_this : String → Option String → Bool
is_this router none = false
is_this router (some name) = str_eq name router

is_this-is_named : (router : String) (o : Option String) → is_named router o ≡ is_this router o
is_this-is_named router none = refl
is_this-is_named router (some name) = refl

module _ {F : Type 0} where
  abbrev pub addresses : List (Hop F) → List String
  addresses [] = []
  addresses (h ∷ hops) = h.ip ∷ addresses hops

  abbrev pub addresses_of : List (HopTuple F) → List String
  addresses_of [] = []
  addresses_of (t ∷ ts) = ip_of t ∷ addresses_of ts

  abbrev address_if : Option (Hop F) → List String
  address_if none = []
  address_if (some h) = h.ip ∷ []

  addresses_of-append :
      (ts us : List (HopTuple F)) → addresses_of (ts ++ us) ≡ addresses_of ts ++ addresses_of us
  addresses_of-append [] us = refl
  addresses_of-append (t ∷ ts) us = ap (λ ips. ip_of t ∷ ips) (addresses_of-append ts us)

  keep-append :
      (p : HopTuple F → Bool) (ts us : List (HopTuple F))
      → keep p (ts ++ us) ≡ keep p ts ++ keep p us
  unfolding keep
  keep-append p [] us = refl
  keep-append p (t ∷ ts) us = elim (Bool-cases (p t)) [
    | inl e ↦ rw (e, keep-append p ts us) refl
    | inr e ↦ rw (e, keep-append p ts us) refl
  ]

module _ {F : Type 0} (routers : Routers) (router src dst : String) where
  -- At an end, or named like the router that traced back, or owned by a Linux router.
  abbrev pub stays : HopTuple F → Bool
  stays t =
      (str_eq (ip_of t) src || str_eq (ip_of t) dst)
      || (str_eq (name_of t) router || is_found (linux_at routers (ip_of t)))

  -- The address of a hop that stays.
  abbrev pub address_of : HopTuple F → List String
  address_of t = if stays t then ip_of t ∷ [] else []

  -- The addresses of the trace back, from its end to its start, without the source.
  abbrev pub backwards : List (HopTuple F) → List String
  backwards [] = []
  backwards (t ∷ ts) = backwards ts ++ (if str_eq (ip_of t) src then [] else address_of t)

  -- The address at which the trace to the destination meets the router first.
  abbrev pub first_met : List (HopTuple F) → List String
  first_met [] = []
  first_met (t ∷ ts) =
      if is_this router (find_router_by_ip routers (ip_of t)) then address_of t else first_met ts

  -- The source, what stays of the trace back and of the router, and the destination.
  abbrev pub expected : (forward backward : List (HopTuple F)) → List String
  expected forward backward = src ∷ (backwards backward ++ first_met forward) ++ dst ∷ []

  one_hop : (t : HopTuple F) → addresses_of (keep stays (t ∷ [])) ≡ address_of t
  unfolding keep
  one_hop t = elim (Bool-cases (stays t)) [ inl e ↦ rw e refl | inr e ↦ rw e refl ]

  left_out_if :
      (t : HopTuple F) (b : Bool)
      → addresses_of (keep stays (if not b then t ∷ [] else [])) ≡ (if b then [] else address_of t)
  left_out_if t true = unfold keep in refl
  left_out_if t false = one_hop t

  unless_source :
      (t : HopTuple F)
      → addresses_of (keep stays (keep (lacks_ip src) (t ∷ [])))
        ≡ (if str_eq (ip_of t) src then [] else address_of t)
  unfolding keep
  unless_source t = left_out_if t (str_eq (ip_of t) src)

  backwards_lem :
      (ts : List (HopTuple F))
      → addresses_of (keep stays (keep (lacks_ip src) (reverse ts))) ≡ backwards ts
  backwards_lem [] = unfold keep in refl
  backwards_lem (t ∷ ts) =
      rw
        (
          reverse-cons t ts,
          keep-append (lacks_ip src) (reverse ts) (t ∷ []),
          keep-append stays (keep (lacks_ip src) (reverse ts)) (keep (lacks_ip src) (t ∷ [])),
          addresses_of-append (keep stays (keep (lacks_ip src) (reverse ts)))
              (keep stays (keep (lacks_ip src) (t ∷ []))),
          backwards_lem ts,
          unless_source t,
        )
        refl

  met_first :
      (t : HopTuple F) (b : Bool) (o : Option (HopTuple F)) (ips : List String)
      → addresses_of (keep stays (to_list o)) ≡ ips
      → addresses_of (keep stays (to_list (if b then some t else o)))
        ≡ (if b then address_of t else ips)
  met_first t true o ips h = one_hop t
  met_first t false o ips h = h

  first_met_lem :
      (ts : List (HopTuple F))
      → addresses_of (keep stays (to_list (find (owned_by routers router) ts))) ≡ first_met ts
  unfolding find
  first_met_lem [] = unfold keep in refl
  first_met_lem (t ∷ ts) = rw (is_this-is_named router (find_router_by_ip routers (ip_of t))) (
      met_first t (is_this router (find_router_by_ip routers (ip_of t)))
        (find (owned_by routers router) ts) (first_met ts) (first_met_lem ts))

  inner_hops-addresses :
      (forward backward : List (HopTuple F))
      → addresses_of (keep stays (inner_hops routers router forward backward src))
        ≡ backwards backward ++ first_met forward
  inner_hops-addresses forward backward =
      rw
        (
          keep-append stays (keep (lacks_ip src) (reverse backward))
              (to_list (find (owned_by routers router) forward)),
          addresses_of-append (keep stays (keep (lacks_ip src) (reverse backward)))
              (keep stays (to_list (find (owned_by routers router) forward))),
          backwards_lem backward,
          first_met_lem forward,
        )
        refl

  module _ (zero_rtt : F) (host_by_addr : String → Option String) where
    abbrev Kept : HopTuple F → Result (Option (Hop F)) → Type 0
    Kept t r =
        (o : Option (Hop F)) × (r ≡ ok o) × (address_if o ≡ (if stays t then ip_of t ∷ [] else []))

    final_hop-Kept :
        (n : ℕ) (t : HopTuple F)
        → Unpacks src t
        → Kept t (final_hop zero_rtt host_by_addr routers router src dst n t)
    unfolding final_hop resolved_end
    final_hop-Kept n (eight k name ip incoming owned next out rtt) at_src =
        rw (at_src, eq_refl src)
          (some (resolved_end zero_rtt host_by_addr routers n src zero_rtt), refl, refl)
    final_hop-Kept n (nine h) u = elim (Bool-cases (str_eq h.ip src || str_eq h.ip dst)) [
      | inl e ↦ rw e (some (resolved_end zero_rtt host_by_addr routers n h.ip h.rtt), refl, refl)
      | inr e ↦ elim (Bool-cases (str_eq h.router_name router)) [
        | inl r ↦ rw (e, r) (some (record h { hop_num = n; prev_hop = "" }), refl, refl)
        | inr r ↦ elim (Option-cases (linux_at routers h.ip)) [
          | inl l ↦ rw (e, r, l) (none, refl, refl)
          | inr (name, l) ↦
              rw (e, r, l)
                (some (record h { hop_num = n; router_name = name; prev_hop = "" }), refl, refl)
        ]
      ]
    ]

    addresses-cons :
        (t : HopTuple F) (ts : List (HopTuple F)) (o : Option (Hop F)) (hops : List (Hop F))
        → address_if o ≡ (if stays t then ip_of t ∷ [] else [])
        → addresses hops ≡ addresses_of (keep stays ts)
        → address_if o ++ addresses hops ≡ addresses_of (keep stays (t ∷ ts))
    unfolding keep
    addresses-cons t ts o hops e es = elim (Bool-cases (stays t)) [
      | inl k ↦ rw (e, es, k) refl
      | inr k ↦ rw (e, es, k) refl
    ]

    abbrev Shows : List (HopTuple F) → Result (List (Hop F)) → Type 0
    Shows ts r =
        (hops : List (Hop F)) × (r ≡ ok hops) × (addresses hops ≡ addresses_of (keep stays ts))

    Shows-cons :
        (n : ℕ) (t : HopTuple F) (ts : List (HopTuple F)) (o : Option (Hop F))
        → final_hop zero_rtt host_by_addr routers router src dst n t ≡ ok o
        → address_if o ≡ (if stays t then ip_of t ∷ [] else [])
        → ((m : ℕ) → Shows ts (final_from zero_rtt host_by_addr routers router src dst m ts))
        → Shows (t ∷ ts) (final_from zero_rtt host_by_addr routers router src dst n (t ∷ ts))
    unfolding final_from
    Shows-cons n t ts none e k rest =
        let (hops, es, ks) = rest n in (hops, rw (e, es) refl, addresses-cons t ts none hops k ks)
    Shows-cons n t ts (some h) e k rest =
        let (hops, es, ks) = rest (suc n) in
        (h ∷ hops, rw (e, es) refl, addresses-cons t ts (some h) hops k ks)

    final_from-Shows :
        (n : ℕ) (ts : List (HopTuple F))
        → All (Unpacks src) ts
        → Shows ts (final_from zero_rtt host_by_addr routers router src dst n ts)
    unfolding final_from keep
    final_from-Shows n [] u = ([], refl, refl)
    final_from-Shows n (t ∷ ts) (u, us) =
        let (o, e, k) = final_hop-Kept n t u in
        Shows-cons n t ts o e k (λ m. final_from-Shows m ts us)

module _ {F : Type 0} (is_space : Char → Bool) (routers : Routers) (route_get : RouteGet)
    (src dst : String) where
  linked-addresses :
      (prev : String) (hops : List (Hop F))
      → addresses (detect_router_interfaces is_space routers route_get src dst (linked prev hops))
        ≡ addresses hops
  unfolding detect_router_interfaces
  linked-addresses prev [] = refl
  linked-addresses prev (h ∷ hops) =
      rw
        (
          (with_interfaces-Same is_space routers route_get src dst
              (record h { prev_hop = prev; next_hop = first_name "" hops })).ip,
          linked-addresses h.router_name hops,
        )
        refl

module _ {F : Type 0} (is_space : Char → Bool) (route_get : RouteGet) (zero_rtt : F)
    (host_by_addr : String → Option String) (routers : Routers) (router src dst : String) where
  destination_stays : (rtt : F) → stays routers router src dst (minimal dst rtt) ≡ true
  destination_stays rtt = elim (Bool-cases (str_eq dst src)) [
    | inl e ↦ rw e refl
    | inr e ↦ rw (e, eq_refl dst) refl
  ]

  temp_path-expected :
      (forward backward : List (HopTuple F))
      → addresses_of (
          keep
            (stays routers router src dst)
            (temp_path zero_rtt host_by_addr routers router forward backward src dst))
        ≡ expected routers router src dst forward backward
  unfolding temp_path keep
  temp_path-expected forward backward =
      rw
        (
          eq_refl src,
          keep-append (stays routers router src dst)
              (inner_hops routers router forward backward src)
              (minimal dst (destination_rtt zero_rtt host_by_addr routers dst forward) ∷ []),
          addresses_of-append
              (keep (stays routers router src dst) (inner_hops routers router forward backward src))
              (keep (stays routers router src dst)
                (minimal dst (destination_rtt zero_rtt host_by_addr routers dst forward) ∷ [])),
          inner_hops-addresses routers router src dst forward backward,
          destination_stays (destination_rtt zero_rtt host_by_addr routers dst forward),
        )
        refl

  temp_path-Unpacks :
      (forward backward : List (HopTuple F))
      → All (Unpacks src) forward
      → All (Unpacks src) backward
      → All (Unpacks src) (temp_path zero_rtt host_by_addr routers router forward backward src dst)
  unfolding temp_path
  temp_path-Unpacks forward backward f b = (
    tt,
    All-append (Unpacks src) (inner_hops routers router forward backward src)
        (minimal dst (destination_rtt zero_rtt host_by_addr routers dst forward) ∷ [])
        (inner_hops-Unpacks src routers router forward backward f b) (tt, tt),
  )

  pub reverse_and_combine-addresses :
      (forward backward : List (HopTuple F)) (hops : List (Hop F))
      → find_last_linux_router routers forward ≡ some router
      → All (Unpacks src) forward
      → All (Unpacks src) backward
      → reverse_and_combine zero_rtt host_by_addr routers forward backward src dst ≡ ok hops
      → addresses (detect_router_interfaces is_space routers route_get src dst hops)
        ≡ expected routers router src dst forward backward
  unfolding reverse_and_combine
  reverse_and_combine-addresses forward backward hops last f b combined =
      let (made, e, shows) =
        final_from-Shows routers router src dst zero_rtt host_by_addr 1
          (temp_path zero_rtt host_by_addr routers router forward backward src dst)
          (temp_path-Unpacks forward backward f b) in
      let same : hops ≡ linked "" made =
        sym (ok_inj ((rw (last, e) refl) ∙ combined)) ∙ link_hops-eq-linked made in
      ap (λ hs. addresses (detect_router_interfaces is_space routers route_get src dst hs)) same
      ∙ linked-addresses is_space routers route_get src dst "" made
      ∙ shows
      ∙ temp_path-expected forward backward

-- ===== src/Simulator/Hops.antt =====
-- What the lookups and `_get_next_hop` of src/core/traceroute_simulator.py promise.
use mathlib.Core.List.{Memᴰ}
use traceroute_simulator.Prelude.{
  String, ◌≡◌, refl, sym, ap, subst, ◌∙◌, ◌≢◌, ◌⊎◌, inl, inr, Bool, true, not, ◌&&◌, Option, none,
  some, List, [], ◌∷◌, arith, eq_iff, str_eq, if◌then◌else◌, Bool-cases, Option-cases, if_ind, keep,
  mem_str, ok, ok_inj, >>=-eq-ok, Dict, get, put, values, get-put,
}
use traceroute_simulator.Router.{
  Route, Router, or_empty, is_given, interfaces, get_all_ip_addresses, get_best_route,
  get_interface_ip, get_type,
}
use traceroute_simulator.Simulator.{
  Routers, put_all, owned_ip, ip_lookup_from, build_comprehensive_ip_lookup, find_router_by_ip,
  is_public_ip, get_gateway_public_interface, NextHop, no_hop, neighbor_with, direct_hop,
  internet_hop, next_by, get_next_hop,
}

later : (x k : String) (xs : List String) → mem_str k xs ≡ true → mem_str k (x ∷ xs) ≡ true
unfolding mem_str
later x k xs h = ground (arith, h)

mem_str-keep :
    (p : String → Bool) (k : String) (xs : List String)
    → mem_str k (keep p xs) ≡ true
    → (p k ≡ true) × (mem_str k xs ≡ true)
unfolding keep mem_str
mem_str-keep p k [] h = cc
mem_str-keep p k (x ∷ xs) h = elim (Bool-cases (p x)) [
  | inr fails ↦ let (pk, there) = mem_str-keep p k xs (rw fails at h) in (pk, later x k xs there)
  | inl passes ↦ elim (Bool-cases (str_eq x k)) [
    | inl same ↦ (subst (λ y. p y ≡ true) ((eq_iff x k).0 same) passes, rw same refl)
    | inr other ↦
        let (pk, there) = mem_str-keep p k xs (rw (passes, other) at h) in (pk, later x k xs there)
  ]
]

-- After some addresses were put, an address has the name it had, or the new one.
get-put_all :
    (name ip : String) (ips : List String) (lookup : Dict String) {n : String}
    → get ip (put_all name ips lookup) ≡ some n
    → (get ip lookup ≡ some n) ⊎ ((n ≡ name) × (mem_str ip ips ≡ true))
unfolding mem_str
get-put_all name ip [] lookup h = inl h
get-put_all name ip (x ∷ ips) lookup {n} h = elim (get-put_all name ip ips (put x name lookup) h) [
  | inr (same, there) ↦ inr (same, later x ip ips there)
  | inl before ↦
      let put_first : (if str_eq x ip then some name else get ip lookup) ≡ some n =
        sym (get-put x ip name lookup) ∙ before in
      elim (Bool-cases (str_eq x ip)) [
        | inl new ↦
            let put_here : some name ≡ some n = rw new at put_first in
            inr (sym (cc put_here), rw new refl)
        | inr old ↦ inl (rw old at put_first)
      ]
]

-- A router of that name has the address, and the address is no loopback address.
abbrev pub Owns : Routers → String → String → Type 0
Owns routers ip name =
    (router : Router) × Memᴰ (name, router) routers
    × (mem_str ip (get_all_ip_addresses router) ≡ true)
    × (owned_ip ip ≡ true)

ip_lookup_from-Owns :
    (ip : String) (lookup : Dict String) (routers : Routers) {name : String}
    → get ip (ip_lookup_from lookup routers) ≡ some name
    → (get ip lookup ≡ some name) ⊎ Owns routers ip name
unfolding ip_lookup_from
ip_lookup_from-Owns ip lookup [] h = inl h
ip_lookup_from-Owns ip lookup ((n, router) ∷ routers) h =
    let ips = keep owned_ip (get_all_ip_addresses router) in
    elim (ip_lookup_from-Owns ip (put_all n ips lookup) routers h) [
      | inr (r, mem, has_ip, owned) ↦ inr (r, Memᴰ.tail mem, has_ip, owned)
      | inl before ↦ elim (get-put_all n ip ips lookup before) [
        | inl earlier ↦ inl earlier
        | inr (same, there) ↦
            let (owned, has_ip) = mem_str-keep owned_ip ip (get_all_ip_addresses router) there in
            inr (router, Memᴰ.head (ap (λ m. (m, router)) same), has_ip, owned)
      ]
    ]

pub find_router_by_ip-Owns :
    (routers : Routers) (ip : String) {name : String}
    → find_router_by_ip routers ip ≡ some name
    → Owns routers ip name
unfolding find_router_by_ip build_comprehensive_ip_lookup get
find_router_by_ip-Owns routers ip h = elim (ip_lookup_from-Owns ip [] routers h) [
  | inl nowhere ↦ cc
  | inr owns ↦ owns
]

-- Another router has the address as the primary one of an interface.
abbrev pub Neighbors : Routers → String → String → String → Type 0
Neighbors routers current ip name =
    (router : Router) × Memᴰ (name, router) routers
    × (mem_str ip (values (interfaces router)) ≡ true)
    × (name ≢ current)

neighbor_with-Neighbors :
    (current ip : String) (routers : Routers) {name : String}
    → neighbor_with current ip routers ≡ some name
    → Neighbors routers current ip name
unfolding neighbor_with
neighbor_with-Neighbors current ip [] h = cc
neighbor_with-Neighbors current ip ((n, router) ∷ routers) {name} h =
    let test = not (str_eq n current) && mem_str ip (values (interfaces router)) in
    elim (Bool-cases test) [
      | inr fails ↦
          let (r, mem, has_ip, other) =
            neighbor_with-Neighbors current ip routers (rw fails at h) in
          (r, Memᴰ.tail mem, has_ip, other)
      | inl passes ↦
          let same : some n ≡ some name = rw passes at h in
          let named : name ≡ n = sym (cc same) in
          (
            router,
            Memᴰ.head (ap (λ m. (m, router)) named),
            ground (arith, passes),
            λ e. ground (arith, passes, eq_iff n current, sym named ∙ e),
          )
    ]

-- The next hop is the route's gateway and a router that owns it, or the destination itself and
-- another router with this address.
abbrev pub Follows : Routers → String → String → Route → String → String → Type 0
Follows routers current dst_ip route next_router next_ip =
    ((route.gateway ≡ some next_ip) × Owns routers next_ip next_router)
    ⊎ ((next_ip ≡ dst_ip) × Neighbors routers current dst_ip next_router)

-- A next hop with a router comes from the chosen route.
abbrev Sound : Routers → String → String → Router → NextHop → Type 0
Sound routers current dst_ip router (none, ip, out) = Unit
Sound routers current dst_ip router (some n, none, out) = Unit
Sound routers current dst_ip router (some n, some ip, out) =
    (route : Route) × (get_best_route router dst_ip ≡ ok (some route))
    × Follows routers current dst_ip route n ip
    × (out ≡ route.dev)

module _ (routers : Routers) (current dst_ip : String) (router : Router) where
  internet-Sound : (i : Option String) → Sound routers current dst_ip router (internet_hop dst_ip i)
  internet-Sound none = tt
  internet-Sound (some i) =
      if_ind (Sound routers current dst_ip router) (str_eq i "") (λ _. tt) (λ _. tt)

  module _ (route : Route) (chosen : get_best_route router dst_ip ≡ ok (some route)) where
    gateway-Sound :
        (o g : Option String)
        → find_router_by_ip routers (or_empty g) ≡ o
        → route.gateway ≡ g
        → Sound routers current dst_ip router (o, g, route.dev)
    gateway-Sound none g f e = tt
    gateway-Sound (some n) none f e = tt
    gateway-Sound (some n) (some ip) f e =
        (route, chosen, inl (e, find_router_by_ip-Owns routers ip f), refl)

    direct-Sound :
        (o : Option String)
        → neighbor_with current dst_ip routers ≡ o
        → Sound routers current dst_ip router (direct_hop dst_ip route.dev o)
    direct-Sound none e = tt
    direct-Sound (some n) e =
        (route, chosen, inr (refl, neighbor_with-Neighbors current dst_ip routers e), refl)

  next_by-Sound :
      (o : Option Route)
      → get_best_route router dst_ip ≡ ok o
      → Sound routers current dst_ip router (next_by routers current router dst_ip o)
  next_by-Sound none chosen =
      if_ind (Sound routers current dst_ip router)
        (str_eq (get_type router) "gateway" && is_public_ip dst_ip)
        (λ _. internet-Sound (get_gateway_public_interface routers current)) (λ _. tt)
  next_by-Sound (some route) chosen =
      if_ind (Sound routers current dst_ip router) (is_given route.gateway)
        (λ _.
          gateway-Sound route chosen (find_router_by_ip routers (or_empty route.gateway))
            route.gateway refl refl)
        (λ _.
          if_ind (Sound routers current dst_ip router)
            (is_given route.dev && is_given (get_interface_ip router (or_empty route.dev)))
            (λ _. direct-Sound route chosen (neighbor_with current dst_ip routers) refl) (λ _. tt))

-- A next hop to a router follows the route that the current router's table chooses for the
-- destination: it leaves by the route's interface, and is either the route's gateway, which the
-- next router owns, or the destination itself, which another router has on an interface.
pub get_next_hop-Follows :
    (routers : Routers) (current dst_ip next_router next_ip : String) (out : Option String)
    → get_next_hop routers current dst_ip ≡ ok (some next_router, some next_ip, out)
    → (router : Router) × (get current routers ≡ some router)
      × ((route : Route) × (get_best_route router dst_ip ≡ ok (some route))
          × Follows routers current dst_ip route next_router next_ip
          × (out ≡ route.dev))
unfolding get_next_hop
get_next_hop-Follows routers current dst_ip next_router next_ip out h =
    elim (Option-cases (get current routers)) [
      | inl absent ↦
          let never : ok no_hop ≡ ok (some next_router, some next_ip, out) = rw absent at h in
          cc never
      | inr (router, here) ↦
          let (o, chosen, same) = >>=-eq-ok (get_best_route router dst_ip) _ (rw here at h) in
          (
            router,
            here,
            subst (Sound routers current dst_ip router) (ok_inj same)
                (next_by-Sound routers current dst_ip router o chosen),
          )
    ]

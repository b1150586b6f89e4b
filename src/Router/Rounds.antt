-- ===== src/Router/Rounds.antt =====
-- Choosing the longest match in rounds over routes, as src/core/traceroute_simulator.py and
-- src/analyzers/iptables_forward_analyzer.py do, each with a step of its own.
use mathlib.Core.List.{Memᴰ}
use traceroute_simulator.Prelude.{
  ℕ, ◌≤◌, ◌≡◌, refl, sym, ap, subst, ◌∙◌, ◌⊎◌, inl, inr, true, false, Option, none, some, List, [],
  ◌∷◌, arith, str_eq, if◌then◌else◌, All,
}
use traceroute_simulator.Ip.{Address, Network, width, ip_address, ip_network, is_in, address_eq}
use traceroute_simulator.Router.{Route, or_empty, Best, longer_than, has_slash, route_of}

abbrev pub network_len : Address → Option Network → Option ℕ
network_len a none = none
network_len a (some n) = if is_in a n then some n.prefixlen else none

abbrev pub host_len : Address → Option Address → Option ℕ
host_len a none = none
host_len a (some b) = if address_eq a b then some (width a.version) else none

-- The length of the prefix by which a route matches an address, if it does.
abbrev pub match_len : Address → Route → Option ℕ
match_len a r =
    if str_eq (or_empty r.dst) "default"
    then some 0
    else if has_slash (or_empty r.dst)
    then network_len a (ip_network (or_empty r.dst))
    else host_len a (ip_address (or_empty r.dst))

-- A length that is at most `n`, if there is one.
abbrev pub AtMost : ℕ → Option ℕ → Type 0
AtMost n none = Unit
AtMost n (some m) = m ≤ n

-- The best match so far is no shorter than a match of length `len`.
abbrev pub Covers : Option ℕ → Best → Type 0
Covers len none = len ≡ none
Covers len (some (r, n)) = AtMost n len

abbrev pub BestLe : Best → ℕ → Type 0
BestLe none n = Unit
BestLe (some (r, m)) n = m ≤ n

-- A round keeps the best match, which covers the route's, or takes the route, which is no shorter.
abbrev pub Round : Address → Route → Best → Option ℕ → Best → Type 0
Round a r best len new =
    ((new ≡ best) × Covers len best)
    ⊎ ((n : ℕ) × (new ≡ some (r, n)) × (len ≡ some n) × (n ≤ width a.version) × BestLe best n)

pub Covers-none : (best : Best) → Covers none best
Covers-none none = refl
Covers-none (some b) = tt

pub longer_BestLe : (n : ℕ) (best : Best) → longer_than n best ≡ true → BestLe best n
longer_BestLe n none h = tt
longer_BestLe n (some (r, m)) h = ground arith

pub shorter_Covers : (n : ℕ) (best : Best) → longer_than n best ≡ false → Covers (some n) best
shorter_Covers n none h = cc
shorter_Covers n (some (r, m)) h = ground arith

-- The best match after a round for each route.
abbrev pub rounds_from : (Route → Best → Best) → List Route → Best → Best
rounds_from step [] best = best
rounds_from step (r ∷ routes) best = rounds_from step routes (step r best)

module _ (a : Address) where
  wider :
      (best : Best) (covered : Option ℕ) (n : ℕ)
      → BestLe best n
      → Covers covered best
      → AtMost n covered
  wider none none n k h = tt
  wider none (some m) n k h = cc
  wider (some (r, m)) none n k h = tt
  wider (some (r, m)) (some l) n k h = omega (arith, k, h)

  -- What covered a length before a round covers it after.
  Round-Covers :
      (r : Route) (best new : Best) (len covered : Option ℕ)
      → Round a r best len new
      → Covers covered best
      → Covers covered new
  Round-Covers r best new len covered (inl (e, c)) h = subst (Covers covered) (sym e) h
  Round-Covers r best new len covered (inr (n, e, l, w, k)) h =
      subst (Covers covered) (sym e) (wider best covered n k h)

  Round-own :
      (r : Route) (best new : Best) (len : Option ℕ) → Round a r best len new → Covers len new
  Round-own r best new len (inl (e, c)) = subst (Covers len) (sym e) c
  Round-own r best new len (inr (n, e, l, w, k)) =
      subst (Covers len) (sym e) (subst (AtMost n) (sym l) (omega arith))

  Round-width :
      (r : Route) (best new : Best) (len : Option ℕ)
      → Round a r best len new
      → BestLe best (width a.version)
      → BestLe new (width a.version)
  Round-width r best new len (inl (e, c)) h = subst (λ b. BestLe b (width a.version)) (sym e) h
  Round-width r best new len (inr (n, e, l, w, k)) h =
      subst (λ b. BestLe b (width a.version)) (sym e) w

  -- Where the best match comes from: it is the one at the start, or a route's own.
  abbrev Origin : Best → List Route → Best → Type 0
  Origin start routes best =
      (best ≡ start)
      ⊎ ((r : Route) × (n : ℕ) × (best ≡ some (r, n)) × Memᴰ r routes × (match_len a r ≡ some n))

  Origin-step :
      (r : Route) (routes : List Route) (best new last : Best)
      → Round a r best (match_len a r) new
      → Origin new routes last
      → Origin best (r ∷ routes) last
  Origin-step r routes best new last (inl (e, c)) (inl o) = inl (o ∙ e)
  Origin-step r routes best new last (inr (n, e, l, w, k)) (inl o) =
      inr (r, n, o ∙ e, Memᴰ.head refl, l)
  Origin-step r routes best new last round (inr (q, n, o, m, l)) = inr (q, n, o, Memᴰ.tail m, l)

  -- A step that keeps the longest match.
  abbrev pub Rounds : (Route → Best → Best) → Type 0
  Rounds step =
      (r : Route) (best : Best)
      → BestLe best (width a.version)
      → Round a r best (match_len a r) (step r best)

  module _ (step : Route → Best → Best) (each : Rounds step) where
    rounds_from-Covers :
        (routes : List Route) (best : Best) (covered : Option ℕ)
        → BestLe best (width a.version)
        → Covers covered best
        → Covers covered (rounds_from step routes best)
    rounds_from-Covers [] best covered k h = h
    rounds_from-Covers (r ∷ routes) best covered k h =
        let round = each r best k in
        rounds_from-Covers routes (step r best) covered
          (Round-width r best (step r best) (match_len a r) round k)
          (Round-Covers r best (step r best) (match_len a r) covered round h)

    All-Covered :
        (routes : List Route) (best : Best)
        → BestLe best (width a.version)
        → All (λ r. Covers (match_len a r) (rounds_from step routes best)) routes
    All-Covered [] best k = tt
    All-Covered (r ∷ routes) best k =
        let round = each r best k in
        let k' = Round-width r best (step r best) (match_len a r) round k in
        (
          rounds_from-Covers routes (step r best) (match_len a r) k'
              (Round-own r best (step r best) (match_len a r) round),
          All-Covered routes (step r best) k',
        )

    rounds_from-Origin :
        (routes : List Route) (best : Best)
        → BestLe best (width a.version)
        → Origin best routes (rounds_from step routes best)
    rounds_from-Origin [] best k = inl refl
    rounds_from-Origin (r ∷ routes) best k =
        let round = each r best k in
        Origin-step r routes best (step r best) (rounds_from step routes (step r best)) round (
          rounds_from-Origin routes (step r best)
            (Round-width r best (step r best) (match_len a r) round k))

-- A chosen route is among the routes and matches, and no route matches by a longer prefix; without
-- a choice no route matches.
abbrev pub IsLongest : Address → List Route → Option Route → Type 0
IsLongest a routes none = All (λ q. match_len a q ≡ none) routes
IsLongest a routes (some r) =
    Memᴰ r routes
    × ((n : ℕ) × (match_len a r ≡ some n) × All (λ q. AtMost n (match_len a q)) routes)

chosen-IsLongest :
    (a : Address) (routes : List Route) (best : Best)
    → Origin a none routes best
    → All (λ r. Covers (match_len a r) best) routes
    → IsLongest a routes (route_of best)
chosen-IsLongest a routes none o c = c
chosen-IsLongest a routes (some (r, n)) (inl e) c = cc
chosen-IsLongest a routes (some (r, n)) (inr (q, m, e, mem, l)) c =
    let same_route : r ≡ q = cc e in
    let same_len : n ≡ m = cc e in
    (
      subst (λ x. Memᴰ x routes) (sym same_route) mem,
      (n, subst (λ x. match_len a x ≡ some n) (sym same_route) (l ∙ ap some (sym same_len)), c),
    )

pub rounds_from-IsLongest :
    (a : Address) (step : Route → Best → Best)
    → Rounds a step
    → (routes : List Route) → IsLongest a routes (route_of (rounds_from step routes none))
rounds_from-IsLongest a step each routes =
    chosen-IsLongest a routes (rounds_from step routes none)
      (rounds_from-Origin a step each routes none tt) (All-Covered a step each routes none tt)

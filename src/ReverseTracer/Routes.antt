-- ===== src/ReverseTracer/Routes.antt =====
-- The path that `_step3_reverse_and_combine` of src/core/reverse_path_tracer.py makes: numbered,
-- linked, from the source to the destination, with Linux routers between them.
use Prim.Native.Char.{Char}
use traceroute_simulator.Prelude.{
  ℕ, suc, ◌≤◌, String, ◌≡◌, refl, sym, ap, subst, ◌∙◌, inl, inr, Bool, Option, some, List, [], ◌∷◌,
  arith, eq_refl, Bool-cases, ok, All, length,
}
use traceroute_simulator.Simulator.{Routers}
use traceroute_simulator.ReverseTracer.Combine.{
  Hop, HopTuple, linux_at, find_last_linux_router, final_hop, final_from, temp_path, final_path,
  destination_rtt, resolved_end, reverse_and_combine, inner_hops,
}
use traceroute_simulator.ReverseTracer.Interfaces.{
  RouteGet, with_interfaces, detect_router_interfaces,
}
use traceroute_simulator.ReverseTracer.Linked.{first_name, linked, link_hops-eq-linked}
use traceroute_simulator.ReverseTracer.Drafts.{
  OnPath, Draft, Unpacks, final_from-Draft, inner_hops-Unpacks,
}

module _ {F : Type 0} where
  -- What the interfaces leave as it is.
  pub record Same (h k : Hop F) : Type 0 where
    pub hop_num : h.hop_num ≡ k.hop_num
    pub router_name : h.router_name ≡ k.router_name
    pub ip : h.ip ≡ k.ip
    pub prev_hop : h.prev_hop ≡ k.prev_hop
    pub next_hop : h.next_hop ≡ k.next_hop

  pub with_interfaces-Same :
      (is_space : Char → Bool) (routers : Routers) (route_get : RouteGet) (src dst : String)
      (h : Hop F)
      → Same (with_interfaces is_space routers route_get src dst h) h
  with_interfaces-Same is_space routers route_get src dst h = elim (Bool-cases h.is_router) [
    | inl e ↦
        rw e
          record { hop_num = refl; router_name = refl; ip = refl; prev_hop = refl; next_hop = refl }
    | inr e ↦
        rw e
          record { hop_num = refl; router_name = refl; ip = refl; prev_hop = refl; next_hop = refl }
  ]

module _ {F : Type 0} (routers : Routers) (router src dst : String) where
  -- The hops from number `n` on, after the one with the name `prev`, up to the destination: numbered
  -- one after the other, and each with the names of the hops before and after it.
  abbrev pub Route : ℕ → String → List (Hop F) → Type 0
  Route n prev [] = ⊥
  Route n prev (h ∷ []) = (h.hop_num ≡ n) × (h.prev_hop ≡ prev) × (h.next_hop ≡ "") × (h.ip ≡ dst)
  Route n prev (h ∷ k ∷ hops) =
      (h.hop_num ≡ n)
      × (h.prev_hop ≡ prev)
      × (h.next_hop ≡ k.router_name)
      × OnPath routers router src dst h
      × Route (suc n) h.router_name (k ∷ hops)

  abbrev pub Starts : List (Hop F) → Type 0
  Starts [] = ⊥
  Starts (h ∷ hops) = h.ip ≡ src

  -- A path from the source to the destination.
  abbrev pub IsPath : List (Hop F) → Type 0
  IsPath hops = Starts hops × Route 1 "" hops × (2 ≤ length hops)

  Same-OnPath :
      (h k : Hop F) → Same h k → OnPath routers router src dst k → OnPath routers router src dst h
  Same-OnPath h k s (inl e) = inl (s.ip ∙ e)
  Same-OnPath h k s (inr (inl e)) = inr (inl (s.ip ∙ e))
  Same-OnPath h k s (inr (inr (inl e))) = inr (inr (inl (s.router_name ∙ e)))
  Same-OnPath h k s (inr (inr (inr e))) =
      inr (inr (inr (ap (linux_at routers) s.ip ∙ e ∙ ap some (sym s.router_name))))

  module _ (is_space : Char → Bool) (route_get : RouteGet) where
    abbrev detected : List (Hop F) → List (Hop F)
    detected hops = detect_router_interfaces is_space routers route_get src dst hops

    abbrev shown : Hop F → Hop F
    shown h = with_interfaces is_space routers route_get src dst h

    linked-Route :
        (n : ℕ) (prev : String) (hops : List (Hop F))
        → Draft routers router src dst n hops
        → Route n prev (detected (linked prev hops))
    unfolding detect_router_interfaces
    linked-Route n prev [] d = elim d [ ]
    linked-Route n prev (h ∷ []) (num, at_dst) =
        let h' : Hop F = record h { prev_hop = prev; next_hop = "" } in
        let s : Same (shown h') h' = with_interfaces-Same is_space routers route_get src dst h' in
        (s.hop_num ∙ num, s.prev_hop, s.next_hop, s.ip ∙ at_dst)
    linked-Route n prev (h ∷ k ∷ hops) (num, on, d) =
        let h' : Hop F = record h { prev_hop = prev; next_hop = k.router_name } in
        let k' : Hop F = record k { prev_hop = h.router_name; next_hop = first_name "" hops } in
        let s : Same (shown h') h' = with_interfaces-Same is_space routers route_get src dst h' in
        let s' : Same (shown k') k' = with_interfaces-Same is_space routers route_get src dst k' in
        (
          s.hop_num ∙ num,
          s.prev_hop,
          s.next_hop ∙ sym s'.router_name,
          Same-OnPath (shown h') h' s on,
          subst (λ name. Route (suc n) name (detected (linked h.router_name (k ∷ hops))))
              (sym s.router_name) (linked-Route (suc n) h.router_name (k ∷ hops) d),
        )

module _ {F : Type 0} (zero_rtt : F) (host_by_addr : String → Option String) (routers : Routers)
    (router src dst : String) (is_space : Char → Bool) (route_get : RouteGet) where
  -- The final path, before the links.
  final_path-Draft :
      (forward backward : List (HopTuple F))
      → All (Unpacks src) forward
      → All (Unpacks src) backward
      → (hops : List (Hop F)) × (final_path zero_rtt host_by_addr routers
            (some router)
            forward
            backward
            src
            dst
          ≡ ok (resolved_end zero_rtt host_by_addr routers 1 src zero_rtt ∷ hops))
        × Draft routers router src dst 2 hops
  unfolding final_from final_hop temp_path
  final_path-Draft forward backward f b =
      let (hops, e, d) =
        final_from-Draft routers router src dst zero_rtt host_by_addr 2
          (inner_hops routers router forward backward src)
          (destination_rtt zero_rtt host_by_addr routers dst forward)
          (inner_hops-Unpacks src routers router forward backward f b) in
      (hops, rw (eq_refl src, e) refl, d)

  Draft-cons-IsPath :
      (h : Hop F) (hops : List (Hop F))
      → h.hop_num ≡ 1
      → h.ip ≡ src
      → Draft routers router src dst 2 hops
      → IsPath routers router src dst
          (detected routers router src dst is_space route_get (linked "" (h ∷ hops)))
  unfolding detect_router_interfaces
  Draft-cons-IsPath h [] num at_src d = elim d [ ]
  Draft-cons-IsPath h (k ∷ hops) num at_src d = (
    (with_interfaces-Same is_space routers route_get src dst
          (record h { prev_hop = ""; next_hop = k.router_name })).ip
        ∙ at_src,
    linked-Route routers router src dst is_space route_get 1 "" (h ∷ k ∷ hops) (num, inl at_src, d),
    omega arith,
  )

  pub reverse_and_combine-IsPath :
      (forward backward : List (HopTuple F))
      → find_last_linux_router routers forward ≡ some router
      → All (Unpacks src) forward
      → All (Unpacks src) backward
      → (hops : List (Hop F)) × (reverse_and_combine zero_rtt host_by_addr routers forward backward
            src dst
          ≡ ok hops)
        × IsPath routers router src dst (detected routers router src dst is_space route_get hops)
  unfolding reverse_and_combine resolved_end
  reverse_and_combine-IsPath forward backward last f b =
      let (hops, e, d) = final_path-Draft forward backward f b in
      let first : Hop F = resolved_end zero_rtt host_by_addr routers 1 src zero_rtt in
      (
        linked "" (first ∷ hops),
        rw (last, e, link_hops-eq-linked (first ∷ hops)) refl,
        Draft-cons-IsPath first hops refl refl d,
      )

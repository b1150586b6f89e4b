-- ===== src/ReverseTracer/Drafts.antt =====
-- The loop over `temp_path` in `_step3_reverse_and_combine` of src/core/reverse_path_tracer.py: it
-- unpacks every hop, numbers what stays, and ends with the destination.
use mathlib.Core.List.{reverse, reverse_aux}
use traceroute_simulator.Prelude.{
  Bool, false, All-append, All-keep, keep, find, ℕ, suc, String, ◌≡◌, refl, ◌⊎◌, inl, inr, Option,
  none, some, List, [], ◌∷◌, ◌++◌, eq_iff, eq_refl, str_eq, Bool-cases, Result, ok, All,
}
use traceroute_simulator.Simulator.{Routers}
use traceroute_simulator.ReverseTracer.Combine.{
  lacks_ip, to_list, owned_by, inner_hops, Hop, HopTuple, nine, eight, ip_of, linux_at, rtt_of,
  resolved_end, if_linux, final_hop, final_from, minimal,
}

-- A tuple of the old format is at the source.
abbrev pub Unpacks : {F : Type 0} → String → HopTuple F → Type 0
Unpacks src (nine h) = Unit
Unpacks src (eight n name ip incoming owned next out rtt) = ip ≡ src

-- What does not fail to unpack stays so in every part of the path.
module _ {F : Type 0} (src : String) where
  All-reverse_aux :
      (ts done : List (HopTuple F))
      → All (Unpacks src) ts
      → All (Unpacks src) done
      → All (Unpacks src) (reverse_aux ts done)
  All-reverse_aux [] done h k = k
  All-reverse_aux (t ∷ ts) done (h, hs) k = All-reverse_aux ts (t ∷ done) hs (h, k)

  All-find :
      (p : HopTuple F → Bool) (ts : List (HopTuple F))
      → All (Unpacks src) ts
      → All (Unpacks src) (to_list (find p ts))
  unfolding find
  All-find p [] h = tt
  All-find p (t ∷ ts) (h, hs) = elim (Bool-cases (p t)) [
    | inl e ↦ rw e (h, tt)
    | inr e ↦ rw e (All-find p ts hs)
  ]

  pub inner_hops-Unpacks :
      (routers : Routers) (router : String) (forward backward : List (HopTuple F))
      → All (Unpacks src) forward
      → All (Unpacks src) backward
      → All (Unpacks src) (inner_hops routers router forward backward src)
  inner_hops-Unpacks routers router forward backward f b =
      All-append (Unpacks src) (keep (lacks_ip src) (reverse backward))
        (to_list (find (owned_by routers router) forward))
        (All-keep (Unpacks src) (lacks_ip src) (reverse backward)
          (All-reverse_aux backward [] b tt))
        (All-find (owned_by routers router) forward f)

module _ {F : Type 0} (routers : Routers) (router src dst : String) where
  -- A hop at an end's address, or with the name of the router that traced back, or with the name of
  -- the Linux router that owns its address.
  abbrev pub OnPath : Hop F → Type 0
  OnPath h =
      (h.ip ≡ src)
      ⊎ (h.ip ≡ dst)
      ⊎ (h.router_name ≡ router)
      ⊎ (linux_at routers h.ip ≡ some h.router_name)

  -- The hops from number `n` on, up to the destination.
  abbrev pub Draft : ℕ → List (Hop F) → Type 0
  Draft n [] = ⊥
  Draft n (h ∷ []) = (h.hop_num ≡ n) × (h.ip ≡ dst)
  Draft n (h ∷ k ∷ hops) = (h.hop_num ≡ n) × OnPath h × Draft (suc n) (k ∷ hops)

  Draft-cons :
      (n : ℕ) (h : Hop F) (hops : List (Hop F))
      → h.hop_num ≡ n
      → OnPath h
      → Draft (suc n) hops
      → Draft n (h ∷ hops)
  Draft-cons n h [] e o d = elim d [ ]
  Draft-cons n h (k ∷ hops) e o d = (e, o, d)

  module _ (zero_rtt : F) (host_by_addr : String → Option String) where
    -- The hop goes, or stays with its number on the path.
    abbrev Stays : ℕ → Result (Option (Hop F)) → Type 0
    Stays n r = (r ≡ ok none) ⊎ ((h : Hop F) × (r ≡ ok (some h)) × (h.hop_num ≡ n) × OnPath h)

    resolved_end-Stays :
        (n : ℕ) (ip : String) (rtt : F)
        → (ip ≡ src) ⊎ (ip ≡ dst)
        → Stays n (ok (some (resolved_end zero_rtt host_by_addr routers n ip rtt)))
    unfolding resolved_end
    resolved_end-Stays n ip rtt (inl e) =
        inr (resolved_end zero_rtt host_by_addr routers n ip rtt, refl, refl, inl e)
    resolved_end-Stays n ip rtt (inr e) =
        inr (resolved_end zero_rtt host_by_addr routers n ip rtt, refl, refl, inr (inl e))

    if_linux-Stays :
        (n : ℕ) (h : Hop F) (o : Option String)
        → linux_at routers h.ip ≡ o
        → Stays n (if_linux zero_rtt host_by_addr routers n (nine h) o)
    if_linux-Stays n h none e = inl refl
    if_linux-Stays n h (some name) e =
        inr (
          record h { hop_num = n; router_name = name; prev_hop = "" },
          refl,
          refl,
          inr (inr (inr e)),
        )

    inner-Stays :
        (n : ℕ) (t : HopTuple F)
        → Unpacks src t
        → str_eq (ip_of t) src ≡ false
        → str_eq (ip_of t) dst ≡ false
        → Stays n (final_hop zero_rtt host_by_addr routers router src dst n t)
    unfolding final_hop
    inner-Stays n (eight k name ip incoming owned next out rtt) at_src s d =
        cc (s, at_src, eq_refl src)
    inner-Stays n (nine h) u s d = elim (Bool-cases (str_eq h.router_name router)) [
      | inl e ↦
          rw (s, d, e)
            (inr (
              record h { hop_num = n; prev_hop = "" },
              refl,
              refl,
              inr (inr (inl ((eq_iff h.router_name router).0 e))),
            ))
      | inr e ↦ rw (s, d, e) (if_linux-Stays n h (linux_at routers h.ip) refl)
    ]

    final_hop-Stays :
        (n : ℕ) (t : HopTuple F)
        → Unpacks src t
        → Stays n (final_hop zero_rtt host_by_addr routers router src dst n t)
    unfolding final_hop
    final_hop-Stays n t u = elim (Bool-cases (str_eq (ip_of t) src)) [
      | inl s ↦
          rw s
            (resolved_end-Stays n (ip_of t) (rtt_of zero_rtt t) (inl ((eq_iff (ip_of t) src).0 s)))
      | inr s ↦ elim (Bool-cases (str_eq (ip_of t) dst)) [
        | inl d ↦
            rw (s, d)
              (resolved_end-Stays n (ip_of t) (rtt_of zero_rtt t)
                (inr ((eq_iff (ip_of t) dst).0 d)))
        | inr d ↦ inner-Stays n t u s d
      ]
    ]

    -- The loop over any hops and the destination's.
    pub final_from-Draft :
        (n : ℕ) (ts : List (HopTuple F)) (rtt : F)
        → All (Unpacks src) ts
        → (hops : List (Hop F)) × (final_from zero_rtt host_by_addr routers router src dst n
              (ts ++ minimal dst rtt ∷ [])
            ≡ ok hops)
          × Draft n hops
    unfolding final_from final_hop resolved_end
    final_from-Draft n [] rtt u = elim (Bool-cases (str_eq dst src)) [
      | inl s ↦ (resolved_end zero_rtt host_by_addr routers n dst rtt ∷ [], rw s refl, (refl, refl))
      | inr s ↦ (
        resolved_end zero_rtt host_by_addr routers n dst rtt ∷ [],
        rw (s, eq_refl dst) refl,
        (refl, refl),
      )
    ]
    final_from-Draft n (t ∷ ts) rtt (u, us) = elim (final_hop-Stays n t u) [
      | inl gone ↦ let (hops, e, d) = final_from-Draft n ts rtt us in (hops, rw (gone, e) refl, d)
      | inr (h, stays, num, on) ↦
          let (hops, e, d) = final_from-Draft (suc n) ts rtt us in
          (h ∷ hops, rw (stays, e) refl, Draft-cons n h hops num on d)
    ]

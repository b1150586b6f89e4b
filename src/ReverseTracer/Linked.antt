-- ===== src/ReverseTracer/Linked.antt =====
-- The two passes of `_step3_reverse_and_combine` in src/core/reverse_path_tracer.py: together they
-- are one pass from the source.
use mathlib.Core.List.{reverse_aux, append-nil}
use traceroute_simulator.Prelude.{String, ◌≡◌, refl, ◌∙◌, List, [], ◌∷◌, ◌++◌}
use traceroute_simulator.ReverseTracer.Combine.{Hop, set_prev_hops, next_hops_from, link_hops}

module _ {F : Type 0} where
  -- The name of the first hop, or else the given one.
  abbrev pub first_name : String → List (Hop F) → String
  first_name name [] = name
  first_name name (h ∷ hops) = h.router_name

  -- Each hop with the name of the hop before and of the hop after.
  abbrev pub linked : String → List (Hop F) → List (Hop F)
  linked name [] = []
  linked name (h ∷ hops) =
      record h { prev_hop = name; next_hop = first_name "" hops } ∷ linked h.router_name hops

  abbrev with_next : String → List (Hop F) → List (Hop F)
  with_next name [] = []
  with_next name (h ∷ hops) = record h { next_hop = first_name name hops } ∷ with_next name hops

  next_hops_from-reverse :
      (name : String) (done hops rest : List (Hop F))
      → next_hops_from name done (reverse_aux hops rest)
        ≡ next_hops_from (first_name name hops) (with_next name hops ++ done) rest
  unfolding next_hops_from
  next_hops_from-reverse name done [] rest = refl
  next_hops_from-reverse name done (h ∷ hops) rest =
      next_hops_from-reverse name done hops (h ∷ rest)

  first_name-set_prev_hops :
      (prev : String) (hops : List (Hop F))
      → first_name "" (set_prev_hops prev hops) ≡ first_name "" hops
  unfolding set_prev_hops
  first_name-set_prev_hops prev [] = refl
  first_name-set_prev_hops prev (h ∷ hops) = refl

  with_next-set_prev_hops :
      (prev : String) (hops : List (Hop F))
      → with_next "" (set_prev_hops prev hops) ≡ linked prev hops
  unfolding set_prev_hops
  with_next-set_prev_hops prev [] = refl
  with_next-set_prev_hops prev (h ∷ hops) =
      rw (first_name-set_prev_hops h.router_name hops, with_next-set_prev_hops h.router_name hops)
        refl

  pub link_hops-eq-linked : (hops : List (Hop F)) → link_hops hops ≡ linked "" hops
  unfolding link_hops next_hops_from
  link_hops-eq-linked hops =
      next_hops_from-reverse "" [] (set_prev_hops "" hops) []
      ∙ append-nil (with_next "" (set_prev_hops "" hops))
      ∙ with_next-set_prev_hops "" hops

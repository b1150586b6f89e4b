-- ===== src/ReverseTracer/Answers.antt =====
-- `perform_reverse_trace` of src/core/reverse_path_tracer.py: it always answers, with a path or with
-- the exit code of a failure.
use traceroute_simulator.Prelude.{
  ℕ, suc, String, ◌≡◌, refl, ◌≢◌, ◌⊎◌, inl, inr, true, false, Option, none, some, List, [], ◌∷◌,
  All, Result, ok,
}
use traceroute_simulator.ReverseTracer.Combine.{Hop, HopTuple, find_last_linux_router}
use traceroute_simulator.ReverseTracer.Interfaces.{detect_router_interfaces}
use traceroute_simulator.Mtr.{MtrHop, Mtr, answered, no_linux_routers, failed, Executor}
use traceroute_simulator.ReverseTracer.{
  World, Answer, failure, traced, number_hops, forward_answer, controller_to_destination,
  convert_mtr, backward_answer, trace_forward, trace_back, combined, destination_to_source,
  perform_reverse_trace,
}
use traceroute_simulator.ReverseTracer.Drafts.{Unpacks}
use traceroute_simulator.ReverseTracer.Addresses.{
  addresses, expected, reverse_and_combine-addresses,
}
use traceroute_simulator.ReverseTracer.Routes.{IsPath, reverse_and_combine-IsPath}

module _ {F : Type 0} (w : World F) (src : String) where
  -- A trace whose hops can be unpacked, or a failure.
  abbrev Trace : Answer (HopTuple F) → Type 0
  Trace r =
      ((r.success ≡ true) × All (Unpacks src) r.path) ⊎ ((r.success ≡ false) × (r.exit_code ≢ 0))

  number_hops-Unpacks : (n : ℕ) (hops : List (MtrHop F)) → All (Unpacks src) (number_hops w n hops)
  unfolding number_hops
  number_hops-Unpacks n [] = tt
  number_hops-Unpacks n (h ∷ hops) = (tt, number_hops-Unpacks (suc n) hops)

  forward_answer-Trace : (controller : String) (m : Mtr F) → Trace (forward_answer w controller m)
  forward_answer-Trace controller (answered [] filtered) = inr (refl, (λ e. cc e))
  forward_answer-Trace controller (answered (h ∷ hops) filtered) =
      inl (refl, (tt, number_hops-Unpacks 2 (h ∷ hops)))
  forward_answer-Trace controller no_linux_routers = inr (refl, (λ e. cc e))
  forward_answer-Trace controller failed = inr (refl, (λ e. cc e))

  trace_forward-Trace :
      (mtr : Option (Executor F)) (controller dst : String)
      → Trace (trace_forward w mtr controller dst)
  trace_forward-Trace none controller dst = inr (refl, (λ e. cc e))
  trace_forward-Trace (some mtr) controller dst =
      forward_answer-Trace controller (mtr controller dst)

  controller_to_destination-Trace :
      (controller dst : String) → Trace (controller_to_destination w controller dst)
  unfolding controller_to_destination
  controller_to_destination-Trace controller dst = trace_forward-Trace w.mtr controller dst

  convert_mtr-Unpacks : (hops : List (MtrHop F)) → All (Unpacks src) (convert_mtr w hops)
  unfolding convert_mtr
  convert_mtr-Unpacks [] = tt
  convert_mtr-Unpacks (h ∷ hops) = (tt, convert_mtr-Unpacks hops)

  backward_answer-Trace : (m : Mtr F) → Trace (backward_answer w src m)
  backward_answer-Trace (answered [] filtered) = inr (refl, (λ e. cc e))
  backward_answer-Trace (answered (h ∷ hops) []) = inl (refl, (refl, tt))
  backward_answer-Trace (answered (h ∷ hops) (l ∷ filtered)) =
      inl (refl, convert_mtr-Unpacks (l ∷ filtered))
  backward_answer-Trace no_linux_routers = inl (refl, (refl, tt))
  backward_answer-Trace failed = inr (refl, (λ e. cc e))

  trace_back-Trace :
      (mtr : Option (Executor F)) (router : String) → Trace (trace_back w (some router) mtr src)
  trace_back-Trace none router = inr (refl, (λ e. cc e))
  trace_back-Trace (some mtr) router = backward_answer-Trace (mtr router src)

  module _ (dst : String) where
    -- A path by the router that traced back, or a failure with nothing.
    abbrev pub Outcome : (forward backward : List (HopTuple F)) → Answer (Hop F) → Type 0
    Outcome forward backward a =
        ((a.success ≡ true)
          × (a.exit_code ≡ 0)
          × (router : String) × (find_last_linux_router w.routers forward ≡ some router)
          × IsPath w.routers router src dst a.path
          × (addresses a.path ≡ expected w.routers router src dst forward backward))
        ⊎ ((a.success ≡ false) × (a.path ≡ []) × (a.exit_code ≢ 0))

    abbrev pub Answered : (forward backward : List (HopTuple F)) → Result (Answer (Hop F)) → Type 0
    Answered forward backward r = (a : Answer (Hop F)) × (r ≡ ok a) × Outcome forward backward a

    combined-Answered :
        (forward : List (HopTuple F)) (router : String) (back : Answer (HopTuple F))
        → find_last_linux_router w.routers forward ≡ some router
        → All (Unpacks src) forward
        → Trace back
        → Answered forward back.path (combined w forward src dst back)
    combined-Answered forward router back last f (inr (no_trace, code)) =
        rw no_trace (failure back.exit_code, refl, inr (refl, refl, code))
    combined-Answered forward router back last f (inl (success, b)) =
        let (hops, e, path) =
          reverse_and_combine-IsPath w.zero_rtt w.host_by_addr w.routers router src dst w.is_space
            w.route_get forward back.path last f b in
        let shown =
          reverse_and_combine-addresses w.is_space w.route_get w.zero_rtt w.host_by_addr w.routers
            router src dst forward back.path hops last f b e in
        rw (success, e)
          (
            traced (detect_router_interfaces w.is_space w.routers w.route_get src dst hops),
            refl,
            inl (refl, refl, router, last, path, shown),
          )

    back-Answered :
        (forward : List (HopTuple F)) (o : Option String)
        → find_last_linux_router w.routers forward ≡ o
        → All (Unpacks src) forward
        → Answered forward
            (trace_back w o w.mtr src).path
            (combined w forward src dst (trace_back w o w.mtr src))
    back-Answered forward none e f = (failure 4, refl, inr (refl, refl, (λ h. cc h)))
    back-Answered forward (some router) e f =
        combined-Answered forward router (trace_back w (some router) w.mtr src) e f
          (trace_back-Trace w.mtr router)

    -- `perform_reverse_trace` always answers. Either it failed, with no path and an exit code that is
    -- not 0; or it succeeded with the code 0 and a path from the source to the destination. The path
    -- has at least two hops, numbered from 1, each with the names of the hops before and after it,
    -- the first at the source and the last at the destination; in between are hops at these two, the
    -- router that traced back, which is the last Linux router of the trace to the destination, and
    -- other hops with the name of the Linux router that owns their address. The addresses of the path
    -- are, in this order, the source's; then, of the trace back without the source, from its end to
    -- its start, and of the first hop of the trace to the destination at the router that traced back,
    -- those of every hop at the destination, with that router's name, or of a Linux router; and the
    -- destination's.
    pub perform_reverse_trace-Outcome :
        (controller : String)
        → let forward = (controller_to_destination w controller dst).path in
          Answered forward
            (destination_to_source w forward src).path
            (perform_reverse_trace w controller src dst)
    unfolding perform_reverse_trace destination_to_source
    perform_reverse_trace-Outcome controller =
        let forward = (controller_to_destination w controller dst).path in
        elim (controller_to_destination-Trace controller dst) [
          | inl (success, f) ↦
              rw success (back-Answered forward (find_last_linux_router w.routers forward) refl f)
          | inr (no_trace, code) ↦ rw no_trace (
            failure (controller_to_destination w controller dst).exit_code,
            refl,
            inr (refl, refl, code),
          )
        ]

-- ===== src/ReverseTracer.antt =====
-- The class `ReversePathTracer` of src/core/reverse_path_tracer.py: a path from the source to the
-- destination of two traces, from the controller to the destination and from the last Linux router
-- back to the source. Times are values that are handed on; what mtr, the name services and the
-- routers answer is a parameter. An mtr hop has its four keys.
pub mod Combine
pub mod Interfaces
pub mod Linked
pub mod Drafts
pub mod Routes
pub mod Addresses
pub mod Answers
mod Tests
use Prim.Native.Char.{Char}
use traceroute_simulator.Prelude.{
  ℕ, suc, String, Bool, true, false, Option, none, some, List, [], ◌∷◌, str_eq, if◌then◌else◌,
  Result, ok, ◌>>=◌, find,
}
use traceroute_simulator.Firewall.Words.{nonempty}
use traceroute_simulator.Mtr.{MtrHop, Mtr, answered, no_linux_routers, failed, Executor}
use traceroute_simulator.Simulator.{Routers, resolve_ip_to_name}
use traceroute_simulator.ReverseTracer.Combine.{
  HopTuple, Hop, nine, eight, end_hop, linux_at, is_found, find_last_linux_router,
  reverse_and_combine,
}
use traceroute_simulator.ReverseTracer.Interfaces.{RouteGet, detect_router_interfaces}

-- What the tracer asks; `mtr` is none where there is no executor.
pub record World (F : Type 0) : Type 0 where
  pub zero_rtt : F
  pub routers : Routers
  pub getent : String → List String
  pub host_by_addr : String → Option String
  pub mtr : Option (Executor F)
  pub route_get : RouteGet
  pub is_space : Char → Bool

-- `success`, `path` and `exit_code`
pub record Answer (A : Type 0) : Type 0 where
  pub success : Bool
  pub path : List A
  pub exit_code : ℕ

abbrev pub failure : {A : Type 0} → ℕ → Answer A
failure code = record { success = false; path = []; exit_code = code }

abbrev pub traced : {A : Type 0} → List A → Answer A
traced path = record { success = true; path = path; exit_code = 0 }

module _ {F : Type 0} (w : World F) where
  abbrev pub label : MtrHop F → String
  label h = if nonempty h.hostname then h.hostname else h.ip

  -- A hop of mtr in step 1, with its number.
  abbrev pub numbered : ℕ → MtrHop F → HopTuple F
  numbered n h = nine (end_hop n (label h) h.ip (is_found (linux_at w.routers h.ip)) h.rtt)

  unfoldable pub number_hops : ℕ → List (MtrHop F) → List (HopTuple F)
  number_hops n [] = []
  number_hops n (h ∷ hops) = numbered n h ∷ number_hops (suc n) hops

  abbrev pub forward_answer : String → Mtr F → Answer (HopTuple F)
  forward_answer controller (answered [] filtered) = failure 1
  forward_answer controller (answered (h ∷ hops) filtered) = traced (
      nine
        (end_hop 1 (resolve_ip_to_name w.getent w.routers controller) controller false w.zero_rtt)
      ∷ number_hops 2 (h ∷ hops))
  forward_answer controller no_linux_routers = failure 2
  forward_answer controller failed = failure 2

  abbrev pub trace_forward : Option (Executor F) → String → String → Answer (HopTuple F)
  trace_forward none controller dst = failure 2
  trace_forward (some mtr) controller dst = forward_answer controller (mtr controller dst)

  -- `_step1_controller_to_destination`
  unfoldable pub controller_to_destination : String → String → Answer (HopTuple F)
  controller_to_destination controller dst = trace_forward w.mtr controller dst

  -- `_convert_mtr_to_simulator_format`
  unfoldable pub convert_mtr : List (MtrHop F) → List (HopTuple F)
  convert_mtr [] = []
  convert_mtr (h ∷ hops) = nine (end_hop h.hop (label h) h.ip true h.rtt) ∷ convert_mtr hops

  abbrev pub is_at : String → MtrHop F → Bool
  is_at ip h = str_eq h.ip ip

  abbrev pub time_of : Option (MtrHop F) → F
  time_of none = w.zero_rtt
  time_of (some h) = h.rtt

  -- The path of one hop, in the old format.
  abbrev pub simple_path : String → F → List (HopTuple F)
  simple_path src rtt =
      eight 1 (resolve_ip_to_name w.getent w.routers src) src "" false "" "" rtt ∷ []

  abbrev pub backward_answer : String → Mtr F → Answer (HopTuple F)
  backward_answer src (answered [] filtered) = failure 2
  backward_answer src (answered (h ∷ hops) []) =
      traced (simple_path src (time_of (find (is_at src) (h ∷ hops))))
  backward_answer src (answered (h ∷ hops) (l ∷ filtered)) = traced (convert_mtr (l ∷ filtered))
  backward_answer src no_linux_routers = traced (simple_path src w.zero_rtt)
  backward_answer src failed = failure 2

  abbrev pub trace_back : Option String → Option (Executor F) → String → Answer (HopTuple F)
  trace_back none mtr src = failure 4
  trace_back (some router) none src = failure 1
  trace_back (some router) (some mtr) src = backward_answer src (mtr router src)

  -- `_step2_destination_to_source`
  unfoldable pub destination_to_source : List (HopTuple F) → String → Answer (HopTuple F)
  destination_to_source forward src =
      trace_back (find_last_linux_router w.routers forward) w.mtr src

  -- `_step3_reverse_and_combine`
  abbrev pub combined :
      List (HopTuple F) → String → String → Answer (HopTuple F) → Result (Answer (Hop F))
  combined forward src dst back =
      if back.success
      then (reverse_and_combine w.zero_rtt w.host_by_addr w.routers forward back.path src dst
          >>= λ hops.
              ok (traced (detect_router_interfaces w.is_space w.routers w.route_get src dst hops)))
      else ok (failure back.exit_code)

  unfoldable pub perform_reverse_trace : String → String → String → Result (Answer (Hop F))
  perform_reverse_trace controller src dst =
      let forward = controller_to_destination controller dst in
      if forward.success
      then combined forward.path src dst (destination_to_source forward.path src)
      else ok (failure forward.exit_code)

-- ===== src/Simulator/Fallback.antt =====
-- `simulate_traceroute_with_fallback` of src/core/traceroute_simulator.py, with the two questions that
-- it asks src/core/route_formatter.py. The answers of mtr are a parameter.
use traceroute_simulator.Prelude.{
  String, Bool, true, false, not, ◌||◌, Option, none, some, List, [], ◌∷◌, str_eq, if◌then◌else◌,
  any, find, keys, value_error, Result, ok, raise, ◌>>=◌,
}
use traceroute_simulator.Firewall.Words.{strip_prefix}
use traceroute_simulator.Mtr.{MtrHop, Mtr, answered, no_linux_routers, failed, Executor}
use traceroute_simulator.Simulator.{
  Routers, find_router_by_ip, resolve_ip_to_fqdn, name_or, first_reaching,
}
use traceroute_simulator.Simulator.Trace.{Hop, new_hop, has_arrow}
use traceroute_simulator.Simulator.Start.{simulate_traceroute}

abbrev pub is_some {ℓ} : {A : Type ℓ} → Option A → Bool
is_some none = false
is_some (some a) = true

-- `part in s`
unfoldable pub has_text : String → String → Bool
has_text part String.[] = is_some (strip_prefix part String.[])
has_text part (String.◌∷◌ c s) = is_some (strip_prefix part (String.◌∷◌ c s)) || has_text part s

abbrev pub is_failure : Hop → Bool
is_failure h = str_eq h.router_name "* * *" || has_text "No route" h.ip_address

unfoldable pub has_route_failure : List Hop → Bool
has_route_failure path = any is_failure path

-- A hop that `get_last_linux_router` passes over.
abbrev pub is_skipped : Hop → Bool
is_skipped h = (str_eq h.router_name "* * *" || not h.is_router_owned) || has_arrow h.router_name

unfoldable pub last_router_from : Option String → List Hop → Option String
last_router_from last [] = last
last_router_from last (h ∷ path) =
    last_router_from (if is_skipped h then last else some h.router_name) path

unfoldable pub get_last_linux_router : List Hop → Option String
get_last_linux_router path = last_router_from none path

-- The path data: of the simulation, of two hops with their times, or of mtr.
pub data PathData (F : Type 0) : Type 0 where
  simulated : List Hop → PathData F
  simple : (source : Hop) (source_rtt : F) (destination : Hop) (destination_rtt : F) → PathData F
  mtr_results : (all filtered : List (MtrHop F)) (src_ip dst_ip : String) → PathData F

-- The path data, and whether mtr was used.
abbrev pub Traced : Type 0 → Type 0
Traced F = PathData F × Bool

module _ {F : Type 0} (zero_rtt : F) (getent : String → List String) (routers : Routers)
    (src_ip dst_ip : String) where
  -- A router that owns the source, or else the first that reaches it.
  abbrev pub near_source : Option String → Result (Option String)
  near_source (some name) = ok (some name)
  near_source none = first_reaching routers (keys routers) src_ip

  abbrev pub or_near_source : Option String → Result (Option String)
  or_near_source (some name) = ok (some name)
  or_near_source none = near_source (find_router_by_ip routers src_ip)

  abbrev pub mtr_source : List Hop → Result (Option String)
  mtr_source path = or_near_source (get_last_linux_router path)

  abbrev pub is_destination : MtrHop F → Bool
  is_destination h = str_eq h.ip dst_ip

  abbrev pub source_to_destination : Option (MtrHop F) → Result (Traced F)
  source_to_destination none = raise value_error
  source_to_destination (some h) = ok (
    simple
        (new_hop 1 (name_or (resolve_ip_to_fqdn getent src_ip) (find_router_by_ip routers src_ip))
          src_ip "" (is_some (find_router_by_ip routers src_ip)) "")
        zero_rtt (new_hop 2 (resolve_ip_to_fqdn getent dst_ip) dst_ip "" false "") h.rtt,
    true,
  )

  -- Every exception of this part becomes a ValueError.
  abbrev pub from_mtr : Mtr F → Result (Traced F)
  from_mtr (answered all []) = source_to_destination (find is_destination all)
  from_mtr (answered all (l ∷ filtered)) = ok (mtr_results all (l ∷ filtered) src_ip dst_ip, true)
  from_mtr no_linux_routers = raise value_error
  from_mtr failed = raise value_error

  abbrev pub mtr_at : Executor F → Option String → Result (Traced F)
  mtr_at mtr none = raise value_error
  mtr_at mtr (some router) = from_mtr (mtr router dst_ip)

  -- What is done where the simulation has no complete path.
  abbrev pub by_mtr : Option (Executor F) → List Hop → Result (Traced F)
  by_mtr none path = raise value_error
  by_mtr (some mtr) path = mtr_source path >>= mtr_at mtr

  -- A simulated path is complete also where there is no formatter, which comes with mtr.
  abbrev pub complete : Option (Executor F) → List Hop → Bool
  complete mtr path = not (is_some mtr) || not (has_route_failure path)

  abbrev pub after_simulation : Option (Executor F) → Result (List Hop) → Result (Traced F)
  after_simulation mtr (ok path) =
      if complete mtr path then ok (simulated path, false) else by_mtr mtr path
  after_simulation mtr (raise value_error) = by_mtr mtr []
  after_simulation mtr (raise e) = raise e

  unfoldable pub simulate_traceroute_with_fallback : Option (Executor F) → Result (Traced F)
  simulate_traceroute_with_fallback mtr =
      after_simulation mtr (simulate_traceroute getent routers src_ip dst_ip)

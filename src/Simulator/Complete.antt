-- ===== src/Simulator/Complete.antt =====
-- When `simulate_traceroute_with_fallback` of src/core/traceroute_simulator.py asks mtr, and what its
-- paths show if it does not.
use traceroute_simulator.Prelude.{
  String, ◌≡◌, ◌≢◌, ◌⊎◌, true, false, List, [], ◌++◌, mem_str, value_error, Result, ok, raise,
}
use Prim.Native.String.{◌++◌ as text_append}
use traceroute_simulator.Simulator.{Routers}
use traceroute_simulator.Mtr.{Mtr, Executor}
use traceroute_simulator.Simulator.Trace.{Hop, shown_ips}
use traceroute_simulator.Simulator.Start.{simulate_traceroute}
use traceroute_simulator.Simulator.Ends.{LastIp}
use traceroute_simulator.Simulator.Fallback.{
  has_route_failure, simulated, simple, mtr_results, Traced,
}
use traceroute_simulator.Simulator.Endings.{OneRouter, AllRounds, Ends}

module _ {F : Type 0} (zero_rtt : F) (getent : String → List String) (routers : Routers)
    (src_ip dst_ip : String) (mtr : Executor F) where
  abbrev simulation : Result (List Hop)
  simulation = simulate_traceroute getent routers src_ip dst_ip

  -- The simulation has no complete path.
  abbrev pub Fails : Type 0
  Fails =
      (simulation ≡ raise value_error)
      ⊎ ((path : List Hop) × (simulation ≡ ok path) × (has_route_failure path ≡ true))

  -- How a path without a failure ends.
  abbrev pub Complete : List Hop → Type 0
  Complete path =
      OneRouter getent routers src_ip dst_ip path
      ⊎ (mem_str dst_ip (shown_ips path) ≡ true)
      ⊎ LastIp path dst_ip
      ⊎ ((ip : String) × LastIp path (text_append ip " (loop detected)"))
      ⊎ AllRounds getent routers src_ip dst_ip path

  abbrev pub Outcome : Traced F → Type 0
  Outcome (simulated path, used) =
      (used ≡ false) × (simulation ≡ ok path) × (has_route_failure path ≡ false) × Complete path
  Outcome (simple source s destination d, used) =
      (used ≡ true) × Fails × (source.ip_address ≡ src_ip) × (destination.ip_address ≡ dst_ip)
  Outcome (mtr_results all filtered s d, used) = (used ≡ true) × Fails × (filtered ≢ [])

-- ===== src/Registry/Neighbors.antt =====
-- The ARP-neighbour leases of src/core/registry_manager.py: `acquire_neighbor_lease` and
-- `release_neighbor_lease`. Unlike a host lease, one that is not held is released without an error.
pub mod Deletion
use Prim.Native.String.{◌++◌ as text_append}
use traceroute_simulator.Prelude.{
  ℕ, String, Bool, true, false, not, Option, none, some, List, [], ◌∷◌, ◌++◌, str_eq, length, keep,
  value_error, Result, ok, raise, Dict, get, put, remove,
}
use traceroute_simulator.Registry.Files.{File, System, atomic_update, locked}

pub record NeighborLease : Type 0 where
  pub run_id : String
  pub pid : ℕ
  pub allocated_at : ℕ

pub record Neighbor : Type 0 where
  pub host_name : String
  pub neighbor_ip : String
  pub leases : List NeighborLease

-- `f"{host_name}:{neighbor_ip}"`
abbrev pub neighbor_key : String → String → String
neighbor_key host_name neighbor_ip = text_append host_name (text_append ":" neighbor_ip)

abbrev pub new_neighbor_lease : System → String → NeighborLease
new_neighbor_lease sys run_id = record { run_id = run_id; pid = sys.getpid; allocated_at = sys.now }

abbrev pub neighbor_or_new : String → String → Option Neighbor → Neighbor
neighbor_or_new host_name neighbor_ip none = record {
  host_name = host_name;
  neighbor_ip = neighbor_ip;
  leases = [];
}
neighbor_or_new host_name neighbor_ip (some e) = e

abbrev pub set_neighbor_leases : List NeighborLease → Neighbor → Neighbor
set_neighbor_leases ls e = record {
  host_name = e.host_name;
  neighbor_ip = e.neighbor_ip;
  leases = ls;
}

unfoldable pub acquire_neighbor_update :
    String → String → NeighborLease → Dict Neighbor → Result (ℕ × Dict Neighbor)
acquire_neighbor_update host_name neighbor_ip l leases =
    let key = neighbor_key host_name neighbor_ip in
    let entry = neighbor_or_new host_name neighbor_ip (get key leases) in
    let longer = set_neighbor_leases (entry.leases ++ l ∷ []) entry in
    ok (length longer.leases, put key longer leases)

unfoldable pub acquire_neighbor_lease :
    System → String → String → String → File Neighbor → Result ℕ × File Neighbor
acquire_neighbor_lease sys run_id host_name neighbor_ip file =
    locked sys
      (atomic_update sys
        (acquire_neighbor_update host_name neighbor_ip (new_neighbor_lease sys run_id)) file)
      file

abbrev pub others_lease : String → NeighborLease → Bool
others_lease run_id l = not (str_eq l.run_id run_id)

abbrev pub release_left :
    String → Neighbor → List NeighborLease → Dict Neighbor → Result ((ℕ × Bool) × Dict Neighbor)
release_left key e [] leases = ok ((0, true), remove key leases)
release_left key e (l ∷ left) leases =
    ok ((length (l ∷ left), false), put key (set_neighbor_leases (l ∷ left) e) leases)

abbrev pub release_neighbor :
    String → String → Dict Neighbor → Option Neighbor → Result ((ℕ × Bool) × Dict Neighbor)
release_neighbor run_id key leases none = raise value_error
release_neighbor run_id key leases (some e) =
    release_left key e (keep (others_lease run_id) e.leases) leases

unfoldable pub release_neighbor_update :
    String → String → Dict Neighbor → Result ((ℕ × Bool) × Dict Neighbor)
release_neighbor_update run_id key leases = release_neighbor run_id key leases (get key leases)

unfoldable pub release_neighbor_lease :
    System → String → String → String → File Neighbor → Result (ℕ × Bool) × File Neighbor
release_neighbor_lease sys run_id host_name neighbor_ip file =
    locked sys
      (atomic_update sys (release_neighbor_update run_id (neighbor_key host_name neighbor_ip)) file)
      file

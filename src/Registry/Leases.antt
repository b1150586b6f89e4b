-- ===== src/Registry/Leases.antt =====
-- The source-host leases of src/core/registry_manager.py: `acquire_source_host_lease`,
-- `release_source_host_lease`, `get_host_lease_count` and `list_host_leases`.
pub mod Counts
use traceroute_simulator.Prelude.{
  ℕ, String, Bool, true, false, not, Option, none, some, List, [], ◌∷◌, ◌++◌, map, ◌==◌, str_eq,
  if◌then◌else◌, length, keep, value_error, Result, ok, raise, ◌>>=◌, Dict, get, put, remove,
}
use traceroute_simulator.Registry.Files.{File, System, atomic_read, atomic_update, locked}
use traceroute_simulator.Registry.Hosts.{Host, get_host_info}

pub record Lease : Type 0 where
  pub run_id : String
  pub pid : ℕ
  pub job_type : String
  pub dscp : Option ℕ
  pub allocated_at : ℕ

pub record HostLeases : Type 0 where
  pub router : String
  pub leases : List Lease

abbrev pub new_lease : System → String → String → Option ℕ → Lease
new_lease sys run_id job_type dscp = record {
  run_id = run_id;
  pid = sys.getpid;
  job_type = job_type;
  dscp = dscp;
  allocated_at = sys.now;
}

-- The entry of a host, made anew where it has none.
abbrev pub entry_or_new : String → Option HostLeases → HostLeases
entry_or_new router_name none = record { router = router_name; leases = [] }
entry_or_new router_name (some e) = e

abbrev pub add_lease : Lease → HostLeases → HostLeases
add_lease l e = record { router = e.router; leases = e.leases ++ l ∷ [] }

-- The data with the lease, and `len(new_leases[host_name]['leases'])`.
unfoldable pub acquire_update :
    String → String → Lease → Dict HostLeases → Result (ℕ × Dict HostLeases)
acquire_update host_name router_name l leases =
    let entry = add_lease l (entry_or_new router_name (get host_name leases)) in
    ok (length entry.leases, put host_name entry leases)

-- The lock that is asked for is the one on the leases. The hosts are read without a lock.
unfoldable pub acquire_source_host_lease :
    System
    → String
    → String
    → String
    → String
    → Option ℕ
    → File Host
    → File HostLeases
    → Result ℕ × File HostLeases
acquire_source_host_lease sys run_id host_name job_type router_name dscp hosts file =
    elim (get_host_info host_name hosts) [
      | raise e ↦ (raise e, file)
      | ok none ↦ (raise value_error, file)
      | ok (some h) ↦
          locked sys
            (atomic_update sys
              (acquire_update host_name router_name (new_lease sys run_id job_type dscp)) file)
            file
    ]

abbrev pub held_by_other : String → Lease → Bool
held_by_other run_id l = not (str_eq l.run_id run_id)

abbrev pub set_leases : List Lease → HostLeases → HostLeases
set_leases ls e = record { router = e.router; leases = ls }

-- The tail of `update_fn`, from the count that is left.
abbrev pub release_rest :
    String → HostLeases → List Lease → Dict HostLeases → Result ((ℕ × Bool) × Dict HostLeases)
release_rest host_name e left leases =
    if length left == length e.leases
    then raise value_error
    else if length left == 0
    then ok ((0, true), remove host_name leases)
    else ok ((length left, false), put host_name (set_leases left e) leases)

abbrev pub release_entry :
    String → String → Dict HostLeases → Option HostLeases → Result ((ℕ × Bool) × Dict HostLeases)
release_entry run_id host_name leases none = raise value_error
release_entry run_id host_name leases (some e) =
    release_rest host_name e (keep (held_by_other run_id) e.leases) leases

unfoldable pub release_update :
    String → String → Dict HostLeases → Result ((ℕ × Bool) × Dict HostLeases)
release_update run_id host_name leases =
    release_entry run_id host_name leases (get host_name leases)

unfoldable pub release_source_host_lease :
    System → String → String → File HostLeases → Result (ℕ × Bool) × File HostLeases
release_source_host_lease sys run_id host_name file =
    locked sys (atomic_update sys (release_update run_id host_name) file) file

abbrev pub count_of : Option HostLeases → ℕ
count_of none = 0
count_of (some e) = length e.leases

unfoldable pub get_host_lease_count : String → File HostLeases → Result ℕ
get_host_lease_count host_name file =
    atomic_read file >>= λ leases. ok (count_of (get host_name leases))

-- With a name, one entry, which is empty (`none`) where the host has no lease.
unfoldable pub list_host_leases :
    Option String → File HostLeases → Result (Dict (Option HostLeases))
list_host_leases none file =
    atomic_read file >>= λ leases. ok (map (λ ((k, e) : String × HostLeases). (k, some e)) leases)
list_host_leases (some host_name) file = atomic_read file >>= λ leases.
    if str_eq host_name ""
    then ok (map (λ ((k, e) : String × HostLeases). (k, some e)) leases)
    else ok ((host_name, get host_name leases) ∷ [])

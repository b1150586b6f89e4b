-- ===== src/Registry/Tests.antt =====
-- Example runs of the registries of src/core/registry_manager.py, with the theorems applied to them.
use traceroute_simulator.Prelude.{
  suc, ◌+◌, ◌≤◌, String, ◌≡◌, refl, ◌≢◌, ◌↔◌, true, false, none, some, [], ◌∷◌, map, keep, ok, get,
  put, remove,
}
use traceroute_simulator.Registry.Files.{
  File, missing, System, atomic_read, atomic_write, atomic_update, locked, entries,
}
use traceroute_simulator.Registry.Hosts.{
  Host, ip_only, collides, any_collision, register_update, check_and_register_host, get_host_info,
}
use traceroute_simulator.Registry.Hosts.Collisions.{IsUnique}
use traceroute_simulator.Registry.Hosts.Register.{
  register, unregister, perform_all, register_true, perform_all-IsUnique,
}
use traceroute_simulator.Registry.Leases.{
  HostLeases, acquire_update, acquire_source_host_lease, release_update, release_source_host_lease,
}
use traceroute_simulator.Registry.Leases.Counts.{lease_count, held, acquire_counts, release_counts}
use traceroute_simulator.Registry.Neighbors.{Neighbor, acquire_neighbor_lease}

abbrev good : System
good = record { now = 5; getpid = 7; lock_granted = true; writable = true }

abbrev broken : System
broken = record { now = 5; getpid = 7; lock_granted = true; writable = false }

-- Two hosts with one address on two routers.
abbrev two_hosts : File Host
two_hosts =
    perform_all
      ((good, register "source_1" "10.0.0.1/24" "hq-gw" "02:00:00:00:00:01" none)
        ∷ (good, register "source_2" "10.0.0.1/16" "br-gw" "02:00:00:00:00:02" none)
        ∷ [])
      missing

two_registered :
    map (λ ((k, h) : String × Host). k) (entries two_hosts) ≡ "source_1" ∷ "source_2" ∷ []
unfolding check_and_register_host register_update any_collision collides ip_only put locked
    atomic_update atomic_read atomic_write
two_registered = refl

same_place_refused :
    (check_and_register_host good "source_3" "10.0.0.1/8" "hq-gw" "02:00:00:00:00:03" none
      two_hosts).0
    ≡ ok false
unfolding check_and_register_host register_update any_collision collides ip_only put locked
    atomic_update atomic_read atomic_write
same_place_refused = refl

register_true_example :
    (any_collision "source_4" "10.0.0.4/24" "hq-gw" "02:00:00:00:00:04" (entries two_hosts) ≡ false)
    × (get "source_1" (
          entries
            (check_and_register_host good "source_4" "10.0.0.4/24" "hq-gw" "02:00:00:00:00:04" none
              two_hosts).1)
        ≡ get "source_1" (entries two_hosts))
unfolding check_and_register_host register_update any_collision collides ip_only put locked
    atomic_update atomic_read atomic_write get
register_true_example =
    register_true good "source_4" "10.0.0.4/24" "hq-gw" "02:00:00:00:00:04" none "source_1"
      two_hosts refl

perform_all-IsUnique_example : IsUnique (
    entries (
      perform_all
        ((good, register "source_1" "10.0.0.1/24" "hq-gw" "02:00:00:00:00:01" none)
          ∷ (broken, register "source_2" "10.0.0.2/24" "hq-gw" "02:00:00:00:00:02" none)
          ∷ (good, unregister "source_1")
          ∷ (good, register "source_5" "10.0.0.1/24" "hq-gw" "02:00:00:00:00:01" none)
          ∷ [])
        missing))
perform_all-IsUnique_example =
    perform_all-IsUnique
      ((good, register "source_1" "10.0.0.1/24" "hq-gw" "02:00:00:00:00:01" none)
        ∷ (broken, register "source_2" "10.0.0.2/24" "hq-gw" "02:00:00:00:00:02" none)
        ∷ (good, unregister "source_1")
        ∷ (good, register "source_5" "10.0.0.1/24" "hq-gw" "02:00:00:00:00:01" none)
        ∷ [])
      missing (tt, (tt, (tt, (tt, tt)))) (record { names = tt; apart = tt })

-- Two runs on one host.
abbrev one_lease : File HostLeases
one_lease =
    (acquire_source_host_lease good "run-1" "source_1" "quick" "hq-gw" (some 32) two_hosts
      missing).1

abbrev two_leases : File HostLeases
two_leases =
    (acquire_source_host_lease good "run-2" "source_1" "quick" "hq-gw" (some 33) two_hosts
      one_lease).1

acquire_counts_example :
    (get "source_1" (entries two_hosts) ≢ none)
    × (2 ≡ suc (lease_count "source_1" one_lease))
    × (lease_count "source_1" two_leases ≡ 2)
unfolding acquire_source_host_lease acquire_update get_host_info check_and_register_host
    register_update any_collision collides ip_only put locked atomic_update atomic_read atomic_write
    get
acquire_counts_example =
    acquire_counts good "run-2" "source_1" "quick" "hq-gw" (some 33) two_hosts one_lease "source_1"
      refl

release_counts_example :
    (1 ≤ held "run-1" "source_1" two_leases)
    × (1 + held "run-1" "source_1" two_leases ≡ lease_count "source_1" two_leases)
    × ((false ≡ true) ↔ (lease_count "source_1" one_lease ≡ 0))
    × (lease_count "source_1" (release_source_host_lease good "run-1" "source_1" two_leases).1 ≡ 1)
unfolding acquire_source_host_lease acquire_update get_host_info check_and_register_host
    register_update any_collision collides ip_only put locked atomic_update atomic_read atomic_write
    get release_source_host_lease release_update keep remove
release_counts_example = release_counts good "run-1" "source_1" "source_1" two_leases refl

abbrev one_neighbor : File Neighbor
one_neighbor = (acquire_neighbor_lease good "run-1" "source_1" "10.0.0.254" missing).1

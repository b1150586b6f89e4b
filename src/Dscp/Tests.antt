-- ===== src/Dscp/Tests.antt =====
-- A registry of two values: runs of wsgi/services/tsim_dscp_registry.py, and the theorems applied.
use traceroute_simulator.Prelude.{
  ℕ, String, ◌≡◌, refl, ◌≢◌, ◌↔◌, true, false, not, none, some, [], ◌∷◌, arith, eq_iff, ◌==◌,
  str_eq, if◌then◌else◌, keep, runtime_error, ok, raise, get, has, put, remove,
}
use traceroute_simulator.Dscp.{
  Allocation, Registry, File, missing, readable, Config, System, validate_range, load_registry,
  save_registry, is_process_alive, is_stale, stale_jobs, remove_all, cleanup_stale, range, mem,
  smallest, used_dscps, available_dscps, allocate_in, allocate_dscp, release_dscp, get_job_dscp,
  cleanup_stale_allocations,
}
use traceroute_simulator.Dscp.Stale.{unless_stale, get-cleanup_stale}
use traceroute_simulator.Dscp.Lowest.{InRange}
use traceroute_simulator.Dscp.Invariant.{IsSound}
use traceroute_simulator.Dscp.Allocate.{allocations_of, methods-IsSound}
use traceroute_simulator.Dscp.Capacity.{AddsUp, status-AddsUp}
use traceroute_simulator.Dscp.Status.{
  difference, Report, enabled, insert_sorted, sorted, entries, get_allocation_status,
}
use traceroute_simulator.Firewall.Words.{pos, negsuc, str_of}
use traceroute_simulator.Dscp.Promises.{held, allocate_dscp_exclusive, release_dscp_frees}
use traceroute_simulator.Dscp.Free.{allocate_dscp_exhausted}

abbrev config : Config
config = record { dscp_min = 32; dscp_max = 33; max_age = 3600; enabled = true }

-- Process 9 is gone.
abbrev system : System
system = record { now = 5000; getpid = 7; kill_0 = λ p. not (p == 9); writable = true }

abbrev entry : String → ℕ → ℕ → ℕ → Allocation
entry job dscp at pid = record {
  dscp = dscp;
  job_id = job;
  username = "ann";
  allocated_at = at;
  pid = pid;
  status = "active";
}

abbrev two : Registry
two = record {
  version = 1;
  created_at = 0;
  updated_at = 4000;
  allocations = ("a", entry "a" 32 4000 7) ∷ ("b", entry "b" 33 4000 8) ∷ [];
}

-- Job `a` is of a process that is gone.
abbrev one_dead : Registry
one_dead = record two { allocations = ("a", entry "a" 32 4000 9) ∷ ("b", entry "b" 33 4000 8) ∷ [] }

program : Unit {0}
unfolding allocate_dscp allocate_in cleanup_stale stale_jobs remove_all is_stale is_process_alive
    load_registry save_registry available_dscps smallest range mem keep get has put remove
    release_dscp get_job_dscp validate_range get_allocation_status sorted insert_sorted difference
    entries str_of cleanup_stale_allocations
program = tt

full_registry : allocate_dscp config system "c" none (readable two) ≡ (ok none, readable two)
unfolding program
full_registry = refl

-- The stale entry's value goes to the next job.
value_reused : (allocate_dscp config system "c" none (readable one_dead)).0 ≡ ok (some 32)
unfolding program
value_reused = refl

not_writable :
    allocate_dscp config (record system { writable = false }) "c" none (readable one_dead)
    ≡ (raise runtime_error, readable one_dead)
unfolding program
not_writable = refl

text_ne : (s t : String) → str_eq s t ≡ false → s ≢ t
text_ne s t h e = cc (h, (eq_iff s t).1 e)

two-IsSound : IsSound config (allocations_of (readable two))
unfolding program
two-IsSound = record {
  one_each = ((text_ne "b" "a" refl, tt), (tt, tt));
  exclusive = ((omega arith, tt), (tt, tt));
  in_range = ((omega arith, omega arith), ((omega arith, omega arith), tt));
}

one_dead-IsSound : IsSound config (allocations_of (readable one_dead))
unfolding program
one_dead-IsSound = record {
  one_each = ((text_ne "b" "a" refl, tt), (tt, tt));
  exclusive = ((omega arith, tt), (tt, tt));
  in_range = ((omega arith, omega arith), ((omega arith, omega arith), tt));
}

get-cleanup_stale_example :
    get "a" (cleanup_stale config system one_dead).1.allocations
    ≡ unless_stale config system (get "a" one_dead.allocations)
get-cleanup_stale_example = get-cleanup_stale config system one_dead "a" one_dead-IsSound.one_each

methods-IsSound_example :
    IsSound config (allocations_of (allocate_dscp config system "c" none (readable one_dead)).1)
    × IsSound config (allocations_of (release_dscp config system "c" (readable one_dead)).1)
    × IsSound config
        (allocations_of (cleanup_stale_allocations config system (readable one_dead)).1)
methods-IsSound_example =
    methods-IsSound config system (readable one_dead) one_dead-IsSound "c" none

allocate_dscp_exclusive_example :
    InRange config 32
    × ((get_job_dscp config system "b" (allocate_dscp config system "c" none (readable one_dead)).1
          ≡ some 32)
        ↔ ◌≡◌ {A = String} "b" "c")
unfolding program
allocate_dscp_exclusive_example =
    allocate_dscp_exclusive config system "c" none (readable one_dead) 32 system "b" refl
      one_dead-IsSound refl

allocate_dscp_exhausted_example :
    mem 33
      (used_dscps (cleanup_stale config system (load_registry system (readable two))).1.allocations)
    ≡ true
unfolding program
allocate_dscp_exhausted_example =
    allocate_dscp_exhausted config system "c" none (readable two) 33 refl refl
      (omega arith, omega arith)

abbrev none_yet : File
none_yet = missing

release_dscp_frees_example :
    held "b" (release_dscp config system "a" (readable two)).1
    ≡ (if str_eq "a" "b" then none else held "b" (readable two))
unfolding program
release_dscp_frees_example = release_dscp_frees config system "a" (readable two) "b" refl refl

status-AddsUp_example :
    (r : Report) × (get_allocation_status config system (readable two) ≡ enabled r)
    × AddsUp config system (readable two) r
unfolding program
status-AddsUp_example = status-AddsUp config system (readable two) refl refl two-IsSound

-- A registry with more entries than its range has values, as after a change of the range.
overfull :
    get_allocation_status (record config { dscp_max = 32 }) system (readable two)
    ≡ enabled (record {
      dscp_range = "32-32";
      total_capacity = pos 1;
      total_allocations = 2;
      available_slots = negsuc 0;
      used_dscps = 32 ∷ 33 ∷ [];
      allocations =
          ("a", record { dscp = 32; username = "ann"; allocated_at = 4000; age_seconds = pos 1000 })
          ∷ (
            "b",
            record { dscp = 33; username = "ann"; allocated_at = 4000; age_seconds = pos 1000 },
          )
          ∷ [];
    })
unfolding program
overfull = refl

-- ===== src/Registry/Locks/Tests.antt =====
-- Example runs of the router locks of src/core/registry_manager.py.
use traceroute_simulator.Prelude.{
  ◌+◌, ◌≡◌, refl, true, false, [], ◌∷◌, map, if◌then◌else◌, mem_str, get, put, String,
  runtime_error, Result, raise,
}
use traceroute_simulator.Registry.Locks.{
  Locks, value, poll, acquire, release, insert_name, sort_names, acquire_each,
  acquire_multiple_sorted, release_multiple, lock_name, acquire_router_lock,
  acquire_all_router_locks_atomic, router_lock,
}
use traceroute_simulator.Registry.Locks.Atomic.{count, quiet, acquire_all_or_none}
use traceroute_simulator.Registry.Locks.Blocks.{router_lock-restores}
use traceroute_simulator.Registry.Locks.Released.{release_twice}

-- Another process holds the lock of r2.
abbrev r2_held : Locks
r2_held = record {
  values = ("tsim-router-r2", 0) ∷ [];
  opened = "tsim-router-r1" ∷ [];
  notified = [];
  lock_files = [];
}

sorted : sort_names ("r2" ∷ "r10" ∷ "r1" ∷ []) ≡ "r1" ∷ "r10" ∷ "r2" ∷ []
unfolding sort_names insert_name
sorted = refl

all_or_none_run :
    map
      (λ names. (acquire_all_router_locks_atomic names (quiet 5) r2_held).0)
      (("r3" ∷ "r1" ∷ []) ∷ ("r3" ∷ "r2" ∷ []) ∷ ("r1" ∷ "r1" ∷ []) ∷ [])
    ≡ true ∷ false ∷ false ∷ []
unfolding acquire_all_router_locks_atomic acquire_multiple_sorted sort_names insert_name
    acquire_each acquire poll get put mem_str release_multiple release
all_or_none_run = refl

-- The other process gives its lock back after the second poll.
waits_for_r2 : (acquire_router_lock "r2" ((λ d. d) ∷ put "tsim-router-r2" 1 ∷ []) r2_held).0 ≡ true
unfolding acquire_router_lock acquire poll get put mem_str
waits_for_r2 = refl

acquire_all_or_none_example :
    1
    ≡ value "tsim-router-r1"
        (acquire_all_router_locks_atomic ("r2" ∷ "r1" ∷ []) (quiet 2) r2_held).1.values
      + (if (acquire_all_router_locks_atomic ("r2" ∷ "r1" ∷ []) (quiet 2) r2_held).0
          then count "tsim-router-r1" (map lock_name ("r2" ∷ "r1" ∷ []))
          else 0)
unfolding get
acquire_all_or_none_example = acquire_all_or_none ("r2" ∷ "r1" ∷ []) 2 r2_held "tsim-router-r1"

release_twice_example :
    ((release "tsim-router-r1" r2_held).0 ≡ true)
    × ((release "tsim-router-r1" (release "tsim-router-r1" r2_held).1).0 ≡ true)
    × (value "tsim-router-r1"
          (release "tsim-router-r1" (release "tsim-router-r1" r2_held).1).1.values
        ≡ value "tsim-router-r1" r2_held.values + 2)
unfolding mem_str
release_twice_example = release_twice "tsim-router-r1" r2_held refl

abbrev failing : Locks → Result String × Locks
failing locks = (raise runtime_error, locks)

router_lock-restores_example :
    value "tsim-router-r1" (router_lock "r1" [] failing r2_held).1.values ≡ 1
unfolding get
router_lock-restores_example =
    router_lock-restores "r1" failing (record { same_values = λ l. refl; same_opened = λ l. refl })
      r2_held "tsim-router-r1"

-- ===== src/Registry/Locks/Blocks.antt =====
-- The block of `with router_lock(...)` of src/core/registry_manager.py.
use traceroute_simulator.Prelude.{
  ◌+◌, String, ◌≡◌, refl, sym, ap, subst, Bool, true, false, ◌&&◌, [], arith, str_eq, mem_str,
  Result,
}
use traceroute_simulator.Registry.Locks.{
  Locks, value, acquire, release, one_if, lock_name, acquire_router_lock, notify_if,
  release_router_lock, run_block, router_lock,
}
use traceroute_simulator.Registry.Locks.Atomic.{release-gives, acquire-takes, acquire-opens}

-- A block that leaves the semaphores as they are, and what is open.
pub record LeavesLocks {A : Type 0} (block : Locks → Result A × Locks) : Type 0 where
  pub same_values : (l : Locks) → (block l).1.values ≡ l.values
  pub same_opened : (l : Locks) → (block l).1.opened ≡ l.opened

notify_if-values : (name : String) (r : Bool × Locks) → (notify_if name r).1.values ≡ r.1.values
notify_if-values name (true, locks) = refl
notify_if-values name (false, locks) = refl

release_router_lock-gives :
    (name : String) (locks : Locks)
    → mem_str (lock_name name) locks.opened ≡ true
    → (k : String)
    → value k (release_router_lock name locks).1.values
      ≡ value k locks.values + one_if (str_eq (lock_name name) k)
unfolding release_router_lock
release_router_lock-gives name locks h k =
    rw (notify_if-values name (release (lock_name name) locks))
      (release-gives (lock_name name) locks h k)

module _ {A : Type 0} (name : String) (block : Locks → Result A × Locks)
    (leaves : LeavesLocks block) where
  run_block-values :
      (before : Locks) (r : Bool × Locks) (k : String)
      → mem_str (lock_name name) r.1.opened ≡ true
      → value k before.values ≡ value k r.1.values + one_if (r.0 && str_eq (lock_name name) k)
      → value k (run_block name block r).1.values ≡ value k before.values
  run_block-values before (false, locks) k o h = omega (arith, h)
  run_block-values before (true, locks) k o h =
      let after = (block locks).1 in
      let still : mem_str (lock_name name) after.opened ≡ true =
        subst (λ x. mem_str (lock_name name) x ≡ true) (sym (leaves.same_opened locks)) o in
      let kept : value k after.values ≡ value k locks.values =
        ap (value k) (leaves.same_values locks) in
      omega (arith, h, kept, release_router_lock-gives name after still k)

  -- With no time to wait, whether the lock is had or not, and whether the block then returns or
  -- raises: where the block itself leaves the semaphores alone, every semaphore has its value again.
  pub router_lock-restores :
      (locks : Locks) (k : String)
      → value k (router_lock name [] block locks).1.values ≡ value k locks.values
  unfolding router_lock acquire_router_lock
  router_lock-restores locks k =
      run_block-values locks (acquire (lock_name name) [] locks) k
        (acquire-opens (lock_name name) locks) (acquire-takes (lock_name name) k locks)

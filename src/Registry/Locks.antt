-- ===== src/Registry/Locks.antt =====
-- The semaphores of src/core/registry_manager.py: `_TsimLockManager` and the router locks of the
-- manager. A semaphore that nobody has created has the value 1 that it is created with. What other
-- processes do between two polls, and when the time is over, is a parameter.
pub mod Atomic
pub mod Released
pub mod Blocks
mod Tests
use Prim.Native.String.{compare, ◌++◌ as text_append}
use Prim.Native.Nat.{Ordering}
use traceroute_simulator.Prelude.{
  ℕ, zero, suc, ◌+◌, String, Bool, true, false, not, ◌||◌, Option, none, some, List, [], ◌∷◌, ◌++◌,
  map, if◌then◌else◌, mem_str, Dict, get, put, values, ◌&&◌, lock_timeout, Result, raise,
}

-- The values of the semaphores, the names that this process has opened, the routers whose notify
-- file was touched, and the other files of the lock directory.
pub record Locks : Type 0 where
  pub values : Dict ℕ
  pub opened : List String
  pub notified : List String
  pub lock_files : List String

-- What the other processes do between two polls, for as long as the time lasts.
abbrev pub Polls : Type 0
Polls = List (Dict ℕ → Dict ℕ)

abbrev pub value_or_1 : Option ℕ → ℕ
value_or_1 none = 1
value_or_1 (some n) = n

abbrev pub value : String → Dict ℕ → ℕ
value name values = value_or_1 (get name values)

-- `sem.acquire(timeout=0.1)`, again after each `BusyError` until the time is over.
unfoldable pub poll : String → Polls → ℕ → Dict ℕ → Bool × Dict ℕ
poll name polls (suc n) values = (true, put name n values)
poll name [] zero values = (false, values)
poll name (others ∷ polls) zero values =
    poll name polls (value name (others values)) (others values)

abbrev pub open_name : String → List String → List String
open_name name opened = if mem_str name opened then opened else name ∷ opened

abbrev pub polled : String → Locks → Bool × Dict ℕ → Bool × Locks
polled name locks (got, values) = (
  got,
  record {
    values = values;
    opened = open_name name locks.opened;
    notified = locks.notified;
    lock_files = locks.lock_files;
  },
)

-- `_TsimLockManager.acquire`
unfoldable pub acquire : String → Polls → Locks → Bool × Locks
acquire name polls locks =
    polled name locks (poll name polls (value name locks.values) locks.values)

abbrev pub given_back : String → Locks → Locks
given_back name locks = record {
  values = put name (suc (value name locks.values)) locks.values;
  opened = locks.opened;
  notified = locks.notified;
  lock_files = locks.lock_files;
}

-- `_TsimLockManager.release`: any name that was opened, whether it is held or not.
unfoldable pub release : String → Locks → Bool × Locks
release name locks =
    if mem_str name locks.opened then (true, given_back name locks) else (false, locks)

-- `sorted(names)`
abbrev pub precedes : String → String → Bool
precedes s t = elim (compare s t) [ Ordering.gt ↦ false | _ ↦ true ]

unfoldable pub insert_name : String → List String → List String
insert_name s [] = s ∷ []
insert_name s (t ∷ ts) =
    let rest = insert_name s ts in if precedes s t then s ∷ t ∷ ts else t ∷ rest

unfoldable pub sort_names : List String → List String
sort_names [] = []
sort_names (s ∷ ss) = insert_name s (sort_names ss)

-- Whether there is time left before each lock, and then the polls of its acquisition.
abbrev pub Schedule : Type 0
Schedule = List Polls

-- The loop of `acquire_multiple_sorted`, with the names acquired. A schedule that ends is a timeout.
unfoldable pub acquire_each : List String → Schedule → Locks → (Bool × List String) × Locks
acquire_each [] schedule locks = ((true, []), locks)
acquire_each (name ∷ names) [] locks = ((false, []), locks)
acquire_each (name ∷ names) (polls ∷ schedule) locks =
    let (got, locks') = acquire name polls locks in
    let ((success, acquired), locks'') = acquire_each names schedule locks' in
    if got then ((success, name ∷ acquired), locks'') else ((false, []), locks')

unfoldable pub acquire_multiple_sorted :
    List String → Schedule → Locks → (Bool × List String) × Locks
acquire_multiple_sorted names schedule locks = acquire_each (sort_names names) schedule locks

abbrev pub one_if : Bool → ℕ
one_if true = 1
one_if false = 0

-- `release_multiple`, with the number released
unfoldable pub release_multiple : List String → Locks → ℕ × Locks
release_multiple [] locks = (0, locks)
release_multiple (name ∷ names) locks =
    let (released, locks') = release name locks in
    let (n, locks'') = release_multiple names locks' in (one_if released + n, locks'')

abbrev pub lock_name : String → String
lock_name router_name = text_append "tsim-router-" router_name

unfoldable pub acquire_router_lock : String → Polls → Locks → Bool × Locks
acquire_router_lock router_name polls locks = acquire (lock_name router_name) polls locks

abbrev pub notify : String → Locks → Locks
notify router_name locks = record {
  values = locks.values;
  opened = locks.opened;
  notified = locks.notified ++ router_name ∷ [];
  lock_files = locks.lock_files;
}

abbrev pub notify_if : String → Bool × Locks → Bool × Locks
notify_if router_name (true, locks) = (true, notify router_name locks)
notify_if router_name (false, locks) = (false, locks)

unfoldable pub release_router_lock : String → Locks → Bool × Locks
release_router_lock router_name locks =
    notify_if router_name (release (lock_name router_name) locks)

-- A file of the lock's name, which no operation here makes.
unfoldable pub is_router_locked : String → Locks → Bool
is_router_locked router_name locks = mem_str (lock_name router_name) locks.lock_files

abbrev pub all_or_none : (Bool × List String) × Locks → Bool × Locks
all_or_none ((true, acquired), locks) = (true, locks)
all_or_none ((false, acquired), locks) = (false, (release_multiple acquired locks).1)

unfoldable pub acquire_all_router_locks_atomic : List String → Schedule → Locks → Bool × Locks
acquire_all_router_locks_atomic router_names schedule locks =
    all_or_none (acquire_multiple_sorted (map lock_name router_names) schedule locks)

unfoldable pub release_all_router_locks : List String → Locks → ℕ × Locks
release_all_router_locks [] locks = (0, locks)
release_all_router_locks (name ∷ names) locks =
    let (released, locks') = release_router_lock name locks in
    let (n, locks'') = release_all_router_locks names locks' in (one_if released + n, locks'')

-- `wait_for_router`: whether the file is gone at the first look, or at one of those that the time
-- allows.
unfoldable pub wait_for_router : String → List Locks → Locks → Bool
wait_for_router router_name [] locks = not (is_router_locked router_name locks)
wait_for_router router_name (later ∷ looks) locks =
    not (is_router_locked router_name locks) || wait_for_router router_name looks later

-- Before each router, whether there is time left, and the looks that it allows.
unfoldable pub wait_for_all_routers : List String → List (Bool × List Locks) → Locks → Bool
wait_for_all_routers [] times locks = true
wait_for_all_routers (name ∷ names) [] locks = false
wait_for_all_routers (name ∷ names) ((in_time, looks) ∷ times) locks =
    in_time && wait_for_router name looks locks && wait_for_all_routers names times locks

-- The lock is released whether the block returns or raises.
abbrev pub run_block :
    {A : Type 0} → String → (Locks → Result A × Locks) → Bool × Locks → Result A × Locks
run_block router_name block (false, locks) = (raise lock_timeout, locks)
run_block router_name block (true, locks) =
    let (result, locks') = block locks in (result, (release_router_lock router_name locks').1)

-- `with router_lock(...)`
unfoldable pub router_lock :
    {A : Type 0} → String → Polls → (Locks → Result A × Locks) → Locks → Result A × Locks
router_lock router_name polls block locks =
    run_block router_name block (acquire_router_lock router_name polls locks)

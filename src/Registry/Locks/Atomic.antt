-- ===== src/Registry/Locks/Atomic.antt =====
-- All-or-nothing acquisition by `acquire_all_router_locks_atomic` of src/core/registry_manager.py.
use traceroute_simulator.Prelude.{
  ℕ, zero, suc, ◌+◌, String, ◌≡◌, refl, sym, ap, subst, inl, inr, Bool, true, false, ◌&&◌, Option,
  some, List, [], ◌∷◌, map, arith, eq_iff, eq_refl, str_eq, if◌then◌else◌, Bool-cases, if_ind, All,
  mem_str, Dict, get, put, values, get-put,
}
use traceroute_simulator.Registry.Locks.{
  Locks, value_or_1, value, poll, open_name, acquire, release, sort_names, Schedule, acquire_each,
  acquire_multiple_sorted, one_if, release_multiple, lock_name, all_or_none,
  acquire_all_router_locks_atomic, precedes, insert_name,
}

-- How often a name stands in a list.
abbrev pub count : String → List String → ℕ
count k [] = 0
count k (x ∷ xs) = one_if (str_eq x k) + count k xs

-- Time for some attempts, while no other process changes a semaphore.
abbrev pub quiet : ℕ → Schedule
quiet zero = []
quiet (suc n) = [] ∷ quiet n

value_or_1_if :
    (b : Bool) (n : ℕ) (o : Option ℕ)
    → value_or_1 (if b then some n else o) ≡ (if b then n else value_or_1 o)
value_or_1_if true n o = refl
value_or_1_if false n o = refl

pub value-put :
    (name k : String) (n : ℕ) (values : Dict ℕ)
    → value k (put name n values) ≡ (if str_eq name k then n else value k values)
value-put name k n values =
    rw (get-put name k n values) (value_or_1_if (str_eq name k) n (get k values))

more_by_one :
    (name k : String) (values : Dict ℕ)
    → (if str_eq name k then suc (value name values) else value k values)
      ≡ value k values + one_if (str_eq name k)
more_by_one name k values = elim (Bool-cases (str_eq name k)) [
  | inl e ↦ rw e (
      subst (λ j. suc (value name values) ≡ value j values + 1) ((eq_iff name k).0 e) (omega arith))
  | inr e ↦ rw e (omega arith)
]

pub release-gives :
    (name : String) (locks : Locks)
    → mem_str name locks.opened ≡ true
    → (k : String)
    → value k (release name locks).1.values ≡ value k locks.values + one_if (str_eq name k)
unfolding release
release-gives name locks h k =
    rw (h, value-put name k (suc (value name locks.values)) locks.values)
      (more_by_one name k locks.values)

pub release-opened : (name : String) (locks : Locks) → (release name locks).1.opened ≡ locks.opened
unfolding release
release-opened name locks =
    if_ind (λ (r : Bool × Locks). r.1.opened ≡ locks.opened) (mem_str name locks.opened) (λ _. refl)
      (λ _. refl)

AllOpen : List String → Locks → Type 0
AllOpen names locks = All (λ n. mem_str n locks.opened ≡ true) names

release_multiple-gives :
    (names : List String) (locks : Locks)
    → AllOpen names locks
    → (k : String)
    → value k (release_multiple names locks).1.values ≡ value k locks.values + count k names
unfolding release_multiple AllOpen
release_multiple-gives [] locks h k = omega arith
release_multiple-gives (name ∷ names) locks h k =
    let locks' = (release name locks).1 in
    omega (
      arith,
      release-gives name locks h.0 k,
      release_multiple-gives names locks'
          (subst (λ o. All (λ n. mem_str n o ≡ true) names) (sym (release-opened name locks)) h.1)
          k,
    )

-- An attempt with no time to wait takes one from the semaphore, or nothing.
poll-takes :
    (name k : String) (values : Dict ℕ) (n : ℕ)
    → value name values ≡ n
    → value k values
      ≡ value k (poll name [] n values).1 + one_if ((poll name [] n values).0 && str_eq name k)
unfolding poll
poll-takes name k values zero e = omega arith
poll-takes name k values (suc n) e =
    rw (value-put name k n values) (elim (Bool-cases (str_eq name k)) [
      | inl s ↦ rw s (subst (λ j. value j values ≡ n + 1) ((eq_iff name k).0 s) (omega (arith, e)))
      | inr s ↦ rw s (omega arith)
    ])

pub acquire-takes :
    (name k : String) (locks : Locks)
    → value k locks.values
      ≡ value k (acquire name [] locks).1.values
        + one_if ((acquire name [] locks).0 && str_eq name k)
unfolding acquire
acquire-takes name k locks = poll-takes name k locks.values (value name locks.values) refl

open_name-keeps :
    (name n : String) (opened : List String)
    → mem_str n opened ≡ true
    → mem_str n (open_name name opened) ≡ true
unfolding mem_str
open_name-keeps name n opened h =
    if_ind (λ o. mem_str n o ≡ true) (mem_str name opened) (λ _. h) (λ _. ground (arith, h))

open_name-opens :
    (name : String) (opened : List String) → mem_str name (open_name name opened) ≡ true
unfolding mem_str
open_name-opens name opened =
    if_ind (λ o. mem_str name o ≡ true) (mem_str name opened) (λ e. e) (λ _. rw (eq_refl name) refl)

acquire_each-opened :
    (names : List String) (m : ℕ) (locks : Locks) (n : String)
    → mem_str n locks.opened ≡ true
    → mem_str n (acquire_each names (quiet m) locks).1.opened ≡ true
unfolding acquire_each acquire
acquire_each-opened [] m locks n h = h
acquire_each-opened (name ∷ names) zero locks n h = h
acquire_each-opened (name ∷ names) (suc m) locks n h =
    let kept = open_name-keeps name n locks.opened h in
    if_ind (λ (r : (Bool × List String) × Locks). mem_str n r.1.opened ≡ true)
      (acquire name [] locks).0 (λ _. acquire_each-opened names m (acquire name [] locks).1 n kept)
      (λ _. kept)

-- From one state of the locks to another some names were taken, which are all open.
record Took (names : List String) (before after : Locks) : Type 0 where
  less : (k : String) → value k before.values ≡ value k after.values + count k names
  opened : AllOpen names after

pub acquire-opens :
    (name : String) (locks : Locks) → mem_str name (acquire name [] locks).1.opened ≡ true
unfolding acquire
acquire-opens name locks = open_name-opens name locks.opened

pub taken_one :
    (name k : String) (locks : Locks)
    → (acquire name [] locks).0 ≡ true
    → value k locks.values ≡ value k (acquire name [] locks).1.values + one_if (str_eq name k)
taken_one name k locks got =
    subst
      (λ b.
        value k locks.values
        ≡ value k (acquire name [] locks).1.values + one_if (b && str_eq name k))
      got (acquire-takes name k locks)

pub taken_none :
    (name k : String) (locks : Locks)
    → (acquire name [] locks).0 ≡ false
    → value k locks.values ≡ value k (acquire name [] locks).1.values + 0
taken_none name k locks missed =
    subst
      (λ b.
        value k locks.values
        ≡ value k (acquire name [] locks).1.values + one_if (b && str_eq name k))
      missed (acquire-takes name k locks)

acquire_each-Took :
    (names : List String) (m : ℕ) (locks : Locks)
    → Took (acquire_each names (quiet m) locks).0.1 locks (acquire_each names (quiet m) locks).1
unfolding acquire_each AllOpen
acquire_each-Took [] m locks = record { less = λ k. omega arith; opened = tt }
acquire_each-Took (name ∷ names) zero locks = record { less = λ k. omega arith; opened = tt }
acquire_each-Took (name ∷ names) (suc m) locks =
    if_ind (λ (r : (Bool × List String) × Locks). Took r.0.1 locks r.1) (acquire name [] locks).0
      (λ got.
        let rest = acquire_each-Took names m (acquire name [] locks).1 in
        record {
          less = λ k. omega (arith, taken_one name k locks got, rest.less k);
          opened = (
            acquire_each-opened names m (acquire name [] locks).1 name (acquire-opens name locks),
            rest.opened,
          );
        })
      (λ missed. record { less = λ k. taken_none name k locks missed; opened = tt })

acquire_each-all :
    (names : List String) (m : ℕ) (locks : Locks)
    → (acquire_each names (quiet m) locks).0.0 ≡ true
    → (acquire_each names (quiet m) locks).0.1 ≡ names
unfolding acquire_each
acquire_each-all [] m locks h = refl
acquire_each-all (name ∷ names) zero locks h = cc
acquire_each-all (name ∷ names) (suc m) locks h = elim (Bool-cases (acquire name [] locks).0) [
  | inl got ↦
      rw got
        (ap (λ ns. name ∷ ns) (acquire_each-all names m (acquire name [] locks).1 (rw got at h)))
  | inr missed ↦ let never : false ≡ true = rw missed at h in cc never
]

all_or_none-lem :
    (r : (Bool × List String) × Locks) (names : List String) (before : Locks)
    → Took r.0.1 before r.1
    → (r.0.0 ≡ true → r.0.1 ≡ names)
    → (k : String)
    → value k before.values
      ≡ value k (all_or_none r).1.values + (if (all_or_none r).0 then count k names else 0)
all_or_none-lem ((true, acquired), locks) names before t all k =
    subst (λ ns. value k before.values ≡ value k locks.values + count k ns) (all refl) (t.less k)
all_or_none-lem ((false, acquired), locks) names before t all k =
    omega (arith, t.less k, release_multiple-gives acquired locks t.opened k)

count-insert_name :
    (k s : String) (ts : List String)
    → count k (insert_name s ts) ≡ one_if (str_eq s k) + count k ts
unfolding insert_name
count-insert_name k s [] = refl
count-insert_name k s (t ∷ ts) =
    if_ind (λ ns. count k ns ≡ one_if (str_eq s k) + count k (t ∷ ts)) (precedes s t) (λ _. refl)
      (λ _. omega (arith, count-insert_name k s ts))

count-sort_names : (k : String) (ss : List String) → count k (sort_names ss) ≡ count k ss
unfolding sort_names
count-sort_names k [] = refl
count-sort_names k (s ∷ ss) =
    omega (arith, count-insert_name k s (sort_names ss), count-sort_names k ss)

-- While no other process changes a semaphore, `acquire_all_router_locks_atomic` either answers
-- `True` and has taken one from the semaphore of each router as often as it is named, or answers
-- `False` and every semaphore has the value that it had.
pub acquire_all_or_none :
    (router_names : List String) (attempts : ℕ) (locks : Locks) (k : String)
    → value k locks.values
      ≡ value k (acquire_all_router_locks_atomic router_names (quiet attempts) locks).1.values
        + (if (acquire_all_router_locks_atomic router_names (quiet attempts) locks).0
            then count k (map lock_name router_names)
            else 0)
unfolding acquire_all_router_locks_atomic acquire_multiple_sorted
acquire_all_or_none router_names attempts locks k =
    let names = sort_names (map lock_name router_names) in
    let r = acquire_each names (quiet attempts) locks in
    subst
      (λ n.
        value k locks.values
        ≡ value k (all_or_none r).1.values + (if (all_or_none r).0 then n else 0))
      (count-sort_names k (map lock_name router_names))
      (all_or_none-lem r names locks (acquire_each-Took names attempts locks)
        (acquire_each-all names attempts locks) k)

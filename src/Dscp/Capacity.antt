-- ===== src/Dscp/Capacity.antt =====
-- The numbers of `get_allocation_status` in wsgi/services/tsim_dscp_registry.py: a sound registry
-- holds no more entries than its range has values.
use traceroute_simulator.Prelude.{
  ℕ, zero, suc, ◌+◌, ◌-◌, String, true, Option, none, some, get, str_eq, ◌≤◌, ◌<◌, ◌≡◌, refl, sym,
  subst, inl, inr, Bool, not, List, [], ◌∷◌, arith, leb, ◌==◌, ==_iff, Bool-cases, length, keep,
  All, All-keep, ok, Dict, values,
}
use traceroute_simulator.Dscp.{
  Allocation, File, Config, System, validate_range, load_registry, used_dscps, dscp_of,
  get_job_dscp,
}
use traceroute_simulator.Dscp.Status.{
  difference, Entry, Report, enabled, insert_sorted, sorted, entries, report, get_allocation_status,
}
use traceroute_simulator.Firewall.Words.{pos}
use traceroute_simulator.Dscp.Invariant.{HasOther, DistinctDscps, HasInRange, IsSound}
use traceroute_simulator.Dscp.Allocate.{allocations_of, load-allocations_of}

abbrev DistinctValues : List Allocation → Type 0
DistinctValues [] = Unit
DistinctValues (a ∷ as') = All (HasOther a.dscp) as' × DistinctValues as'

DistinctDscps-values : (d : Dict Allocation) → DistinctDscps d → DistinctValues (values d)
DistinctDscps-values [] h = tt
DistinctDscps-values ((k, a) ∷ d) h = (h.0, DistinctDscps-values d h.1)

abbrev has_other : ℕ → Allocation → Bool
has_other n a = not (a.dscp == n)

DistinctValues-keep :
    (p : Allocation → Bool) (xs : List Allocation) → DistinctValues xs → DistinctValues (keep p xs)
unfolding keep
DistinctValues-keep p [] h = tt
DistinctValues-keep p (x ∷ xs) h =
    ground (arith, DistinctValues-keep p xs h.1, All-keep (HasOther x.dscp) p xs h.0)

-- Where all hold other values than `n`, all are kept.
length-keep_others :
    (n : ℕ) (xs : List Allocation)
    → All (HasOther n) xs
    → length (keep (has_other n) xs) ≡ length xs
unfolding keep
length-keep_others n [] h = refl
length-keep_others n (x ∷ xs) h = ground (arith, length-keep_others n xs h.1)

-- One value takes one entry at most.
length-le-suc-keep :
    (n : ℕ) (xs : List Allocation)
    → DistinctValues xs
    → length xs ≤ suc (length (keep (has_other n) xs))
unfolding keep
length-le-suc-keep n [] h = omega arith
length-le-suc-keep n (x ∷ xs) h = elim (Bool-cases (x.dscp == n)) [
  | inl same ↦
      let e : x.dscp ≡ n = (==_iff x.dscp n).0 same in
      let others = subst (λ m. All (HasOther m) xs) e h.0 in
      rw same (omega (arith, length-keep_others n xs others))
  | inr other ↦ rw other (omega (arith, length-le-suc-keep n xs h.1))
]

abbrev Between : ℕ → ℕ → Allocation → Type 0
Between a n x = (a ≤ x.dscp) × (x.dscp < a + n)

Between-keep :
    (a n : ℕ) (xs : List Allocation)
    → All (Between a (suc n)) xs
    → All (Between a n) (keep (has_other (a + n)) xs)
unfolding keep
Between-keep a n [] h = tt
Between-keep a n (x ∷ xs) h = elim (Bool-cases (x.dscp == a + n)) [
  | inl same ↦ rw same (Between-keep a n xs h.1)
  | inr other ↦ rw other ((h.0.0, ground arith), Between-keep a n xs h.1)
]

-- Pairwise different values among `n` numbers are `n` at most.
pigeonhole :
    (a n : ℕ) (xs : List Allocation) → DistinctValues xs → All (Between a n) xs → length xs ≤ n
pigeonhole a zero [] d h = omega arith
pigeonhole a zero (x ∷ xs) d h = absurd (omega (arith, h.0.0, h.0.1))
pigeonhole a (suc n) xs d h = omega (
  arith,
  length-le-suc-keep (a + n) xs d,
  pigeonhole a n (keep (has_other (a + n)) xs) (DistinctValues-keep (has_other (a + n)) xs d)
      (Between-keep a n xs h),
)

HasInRange-Between :
    (c : Config) (xs : List Allocation)
    → c.dscp_min ≤ c.dscp_max
    → All (HasInRange c) xs
    → All (Between c.dscp_min (c.dscp_max + 1 - c.dscp_min)) xs
HasInRange-Between c [] le h = tt
HasInRange-Between c (x ∷ xs) le h =
    ((h.0.0, omega (arith, h.0.0, h.0.1)), HasInRange-Between c xs le h.1)

length-values : (d : Dict Allocation) → length (values d) ≡ length d
length-values [] = refl
length-values ((k, a) ∷ d) = omega (arith, length-values d)

length-insert_sorted : (n : ℕ) (xs : List ℕ) → length (insert_sorted n xs) ≡ suc (length xs)
unfolding insert_sorted
length-insert_sorted n [] = refl
length-insert_sorted n (x ∷ xs) = ground (arith, length-insert_sorted n xs)

length-sorted_used : (d : Dict Allocation) → length (sorted (used_dscps d)) ≡ length d
unfolding sorted
length-sorted_used [] = refl
length-sorted_used ((k, a) ∷ d) =
    omega (arith, length-insert_sorted a.dscp (sorted (used_dscps d)), length-sorted_used d)

-- The value that the status lists for a job.
abbrev pub reported : Option Entry → Option ℕ
reported none = none
reported (some e) = some e.dscp

get-entries :
    (sys : System) (job_id : String) (d : Dict Allocation)
    → reported (get job_id (entries sys d)) ≡ dscp_of (get job_id d)
unfolding get entries
get-entries sys job_id [] = refl
get-entries sys job_id ((k, a) ∷ d) = elim (Bool-cases (str_eq k job_id)) [
  | inl e ↦ rw e refl
  | inr e ↦ rw e (get-entries sys job_id d)
]

difference-add : (a b m : ℕ) → m ≡ a + b → difference m a ≡ pos b
unfolding difference
difference-add a b m e =
    let same : m - a ≡ b = omega (arith, e) in
    let le : leb a m ≡ true = ground (arith, e) in rw (le, same) refl

-- The status of a registry adds up: `free` values are available.
abbrev pub AddsUp : Config → System → File → Report → Type 0
AddsUp c sys file r =
    (free : ℕ) × (r.available_slots ≡ pos free)
    × (r.total_capacity ≡ pos (r.total_allocations + free))
    × (r.total_allocations + free ≤ 64)
    × (length r.used_dscps ≡ r.total_allocations)
    × ((job_id : String) → reported (get job_id r.allocations) ≡ get_job_dscp c sys job_id file)

-- Let a registry be enabled, its range have passed the constructor's check and its file be sound.
-- Then the status is the one with `enabled` true, and it adds up: the available slots are not
-- negative, the allocations and the available slots make the capacity, which is 64 at most, as many
-- values are listed as there are allocations, and every job is listed with the value that
-- `get_job_dscp` has for it, or not listed where it has none.
pub status-AddsUp :
    (c : Config) (sys : System) (file : File)
    → c.enabled ≡ true
    → validate_range c ≡ ok c
    → IsSound c (allocations_of file)
    → (r : Report) × (get_allocation_status c sys file ≡ enabled r) × AddsUp c sys file r
unfolding validate_range get_allocation_status get_job_dscp
status-AddsUp c sys file on v s =
    let d = (load_registry sys file).allocations in
    let fits : c.dscp_min ≤ c.dscp_max = ground arith in
    let small : c.dscp_max ≤ 63 = ground arith in
    let sound = subst (IsSound c) (sym (load-allocations_of sys file)) s in
    let room =
      pigeonhole c.dscp_min (c.dscp_max + 1 - c.dscp_min) (values d)
        (DistinctDscps-values d sound.exclusive)
        (HasInRange-Between c (values d) fits sound.in_range) in
    let free = c.dscp_max + 1 - c.dscp_min - length d in
    (
      report c sys d,
      rw on refl,
      (
        free,
        difference-add (c.dscp_min + length d) free (c.dscp_max + 1)
            (omega (arith, room, length-values d, fits)),
        difference-add c.dscp_min (length d + free) (c.dscp_max + 1)
            (omega (arith, room, length-values d, fits)),
        omega (arith, room, length-values d, fits, small),
        length-sorted_used d,
        (λ job_id. rw on (get-entries sys job_id d)),
      ),
    )

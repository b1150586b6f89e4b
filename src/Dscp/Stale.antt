-- ===== src/Dscp/Stale.antt =====
-- `_cleanup_stale_allocations` of wsgi/services/tsim_dscp_registry.py.
use traceroute_simulator.Prelude.{
  String, ◌≡◌, refl, subst, ◌∙◌, ◌≢◌, inl, inr, false, Option, none, some, List, [], ◌∷◌, arith,
  eq_iff, ◌==◌, str_eq, if◌then◌else◌, Bool-cases, str_eq_of_ne, length, All, Distinct, mem_str,
  Dict, get, remove, keys, get-remove,
}
use traceroute_simulator.Dscp.{
  Allocation, Registry, Config, System, is_stale, stale_jobs, remove_all, cleanup_stale,
}

get-remove_all :
    (j : String) (ks : List String) (d : Dict Allocation)
    → get j (remove_all ks d) ≡ (if mem_str j ks then none else get j d)
unfolding remove_all mem_str
get-remove_all j [] d = refl
get-remove_all j (k ∷ ks) d = get-remove_all j ks (remove k d) ∙ ground (arith, get-remove k j d)

-- A key that the dict lacks is not collected.
not-stale_of_absent :
    (c : Config) (sys : System) (j : String) (d : Dict Allocation)
    → All (λ k. k ≢ j) (keys d)
    → mem_str j (stale_jobs c sys d) ≡ false
unfolding stale_jobs mem_str
not-stale_of_absent c sys j [] h = refl
not-stale_of_absent c sys j ((k, a) ∷ d) h =
    ground (arith, not-stale_of_absent c sys j d h.1, str_eq_of_ne k j h.0)

-- What `get` finds after the cleanup of what it found before.
abbrev pub unless_stale : Config → System → Option Allocation → Option Allocation
unless_stale c sys none = none
unless_stale c sys (some a) = if is_stale c sys a then none else some a

get-none-absent : (j : String) (d : Dict Allocation) → All (λ k. k ≢ j) (keys d) → get j d ≡ none
unfolding get
get-none-absent j [] h = refl
get-none-absent j ((k, a) ∷ d) h = ground (arith, get-none-absent j d h.1, str_eq_of_ne k j h.0)

get-clean :
    (c : Config) (sys : System) (j : String) (d : Dict Allocation)
    → Distinct (keys d)
    → (if mem_str j (stale_jobs c sys d) then none else get j d) ≡ unless_stale c sys (get j d)
unfolding stale_jobs mem_str get
get-clean c sys j [] h = refl
get-clean c sys j ((k, a) ∷ d) h = elim (Bool-cases (str_eq k j)) [
  | inl same ↦
      let absent =
        not-stale_of_absent c sys j d
          (subst (λ i. All (λ x. x ≢ i) (keys d)) ((eq_iff k j).0 same) h.0) in
      ground (arith, absent)
  | inr other ↦ ground (arith, get-clean c sys j d h.1)
]

-- Where no job has two entries, the cleanup drops exactly the entries that are stale: those of a
-- process that is gone, and those older than the maximal age. The others are as before.
pub get-cleanup_stale :
    (c : Config) (sys : System) (r : Registry) (j : String)
    → Distinct (keys r.allocations)
    → get j (cleanup_stale c sys r).1.allocations ≡ unless_stale c sys (get j r.allocations)
unfolding cleanup_stale
get-cleanup_stale c sys r j h = elim (Bool-cases (length (stale_jobs c sys r.allocations) == 0)) [
  | inl e ↦ rw e (
      get-remove_all j (stale_jobs c sys r.allocations) r.allocations
      ∙ get-clean c sys j r.allocations h)
  | inr e ↦ rw e (
      get-remove_all j (stale_jobs c sys r.allocations) r.allocations
      ∙ get-clean c sys j r.allocations h)
]

-- ===== src/Dscp/Allocate.antt =====
-- What `allocate_dscp` and `release_dscp` of wsgi/services/tsim_dscp_registry.py promise.
use traceroute_simulator.Prelude.{
  if_ind, ℕ, String, ◌≡◌, refl, sym, subst, inl, inr, Bool, true, false, not, Option, [], ltb,
  Bool-cases, Option-cases, Result, Dict, get, has,
}
use traceroute_simulator.Dscp.{
  Allocation, Registry, File, missing, corrupt, readable, Config, System, load_registry,
  save_registry, cleanup_stale, smallest, available_dscps, new_allocation, with_allocation, saved,
  allocate_in, allocate_dscp, without_allocation, saved_or, release_dscp, cleanup_stale_allocations,
}
use traceroute_simulator.Dscp.Lowest.{smallest_available}
use traceroute_simulator.Dscp.Invariant.{
  IsSound, IsSound-remove, cleanup_stale-IsSound, IsSound-put,
}

abbrev pub allocations_of : File → Dict Allocation
allocations_of missing = []
allocations_of corrupt = []
allocations_of (readable r) = r.allocations

pub load-allocations_of :
    (sys : System) (file : File) → (load_registry sys file).allocations ≡ allocations_of file
unfolding load_registry
load-allocations_of sys missing = refl
load-allocations_of sys corrupt = refl
load-allocations_of sys (readable r) = refl

IsSound-nil : (c : Config) → IsSound c []
IsSound-nil c = record { one_each = tt; exclusive = tt; in_range = tt }

module _ (c : Config) (sys : System) where
  loaded-IsSound :
      (file : File)
      → IsSound c (allocations_of file)
      → IsSound c (load_registry sys file).allocations
  loaded-IsSound file s = subst (IsSound c) (sym (load-allocations_of sys file)) s

  saved-IsSound :
      (r : Registry) (file : File) (n : ℕ)
      → IsSound c r.allocations
      → IsSound c (allocations_of file)
      → IsSound c (allocations_of (saved (save_registry sys r file) file n).1)
  unfolding save_registry
  saved-IsSound r file n s t = elim (Bool-cases sys.writable) [ inl e ↦ rw e s | inr e ↦ rw e t ]

  saved_or-IsSound :
      {A : Type 0} (r : Registry) (file : File) (a b : A)
      → IsSound c r.allocations
      → IsSound c (allocations_of file)
      → IsSound c (allocations_of (saved_or (save_registry sys r file) file a b).1)
  unfolding save_registry
  saved_or-IsSound r file a b s t = elim (Bool-cases sys.writable) [
    | inl e ↦ rw e s
    | inr e ↦ rw e t
  ]

  allocate_in-IsSound :
      (job_id : String) (username : Option String) (file : File) (r : Registry)
      → IsSound c r.allocations
      → IsSound c (allocations_of file)
      → IsSound c (allocations_of (allocate_in c sys job_id username file r).1)
  unfolding allocate_in
  allocate_in-IsSound job_id username file r s t = elim (Option-cases (get job_id r.allocations)) [
    | inr (a, old) ↦ rw (old, allocate_in) t
    | inl new ↦ elim (Option-cases (smallest (available_dscps c r.allocations))) [
      | inl full ↦ rw (new, full, allocate_in) t
      | inr (n, free) ↦
          let (fits, unused, _) = smallest_available c r.allocations n free in
          let grown =
            IsSound-put c job_id (new_allocation n job_id username sys) r.allocations new fits
              unused s in
          rw (new, free, allocate_in)
            (saved-IsSound (with_allocation n job_id username sys r) file n grown t)
    ]
  ]

module _ (c : Config) (sys : System) (file : File) (s : IsSound c (allocations_of file)) where
  cleaned-IsSound : IsSound c (cleanup_stale c sys (load_registry sys file)).1.allocations
  cleaned-IsSound =
      cleanup_stale-IsSound c sys (load_registry sys file) (loaded-IsSound c sys file s)

  -- Each method that writes the registry file keeps it sound, on every branch and also where the
  -- file cannot be written: no job has two entries, no two entries have one DSCP value, and every
  -- value is in the configured range.
  pub methods-IsSound :
      (job_id : String) (username : Option String)
      → IsSound c (allocations_of (allocate_dscp c sys job_id username file).1)
        × IsSound c (allocations_of (release_dscp c sys job_id file).1)
        × IsSound c (allocations_of (cleanup_stale_allocations c sys file).1)
  unfolding allocate_dscp release_dscp cleanup_stale_allocations
  methods-IsSound job_id username =
      let r = load_registry sys file in
      let clean = cleanup_stale c sys r in
      (
        if_ind (λ (o : Result (Option ℕ) × File). IsSound c (allocations_of o.1)) (not c.enabled)
            (λ _. s)
            (λ _. allocate_in-IsSound c sys job_id username file clean.1 cleaned-IsSound s),
        if_ind (λ (o : Bool × File). IsSound c (allocations_of o.1)) (not c.enabled) (λ _. s)
            (λ _.
              if_ind (λ (o : Bool × File). IsSound c (allocations_of o.1))
                (has job_id r.allocations)
                (λ _.
                  saved_or-IsSound c sys (without_allocation job_id sys r) file true false
                    (IsSound-remove c job_id r.allocations (loaded-IsSound c sys file s)) s)
                (λ _. s)),
        if_ind (λ (o : ℕ × File). IsSound c (allocations_of o.1)) (not c.enabled) (λ _. s)
            (λ _.
              if_ind (λ (o : ℕ × File). IsSound c (allocations_of o.1)) (ltb 0 clean.0)
                (λ _. saved_or-IsSound c sys clean.1 file clean.0 0 cleaned-IsSound s) (λ _. s)),
      )

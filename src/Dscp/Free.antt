-- ===== src/Dscp/Free.antt =====
-- Which value `allocate_dscp` of wsgi/services/tsim_dscp_registry.py gives to a new job, and when it
-- has none to give.
use traceroute_simulator.Prelude.{
  if_ind, ℕ, String, ◌≡◌, inl, inr, true, Option, none, some, Option-cases, get, ◌≤◌, false, not,
  Result, ok,
}
use traceroute_simulator.Dscp.Lowest.{InRange, none_available}
use traceroute_simulator.Dscp.{
  available_dscps, saved, smallest, load_registry, cleanup_stale, Registry, allocate_in,
  save_registry, allocate_dscp, File, Config, System, mem, used_dscps,
}

-- Why a call answers that no value is free.
abbrev Exhausted : Config → Registry → Result (Option ℕ) × File → Type 0
Exhausted c r o = o.0 ≡ ok none → (x : ℕ) → InRange c x → mem x (used_dscps r.allocations) ≡ true

-- Which value a job gets that has none.
abbrev Lowest : Config → Registry → Result (Option ℕ) × File → Type 0
Lowest c r o =
    (n : ℕ)
    → o.0 ≡ ok (some n)
    → InRange c n
      × (mem n (used_dscps r.allocations) ≡ false)
      × ((x : ℕ) → InRange c x → mem x (used_dscps r.allocations) ≡ false → n ≤ x)

module _ (c : Config) (sys : System) (job_id : String) (username : Option String)
    (file : File) where
  allocate_in-Exhausted : (r : Registry) → Exhausted c r (allocate_in c sys job_id username file r)
  unfolding allocate_in save_registry
  allocate_in-Exhausted r = elim (Option-cases (get job_id r.allocations)) [
    | inr (a, old) ↦ rw (old, allocate_in) (λ h. cc)
    | inl new ↦ elim (Option-cases (smallest (available_dscps c r.allocations))) [
      | inl full ↦ rw (new, full, allocate_in) (λ h. none_available c r.allocations full)
      | inr (m, free) ↦
          rw (new, free, allocate_in)
            (if_ind (λ w. Exhausted c r (saved w file m)) sys.writable (λ _ h. cc) (λ _ h. cc))
    ]
  ]

  allocate-Exhausted :
      c.enabled ≡ true
      → Exhausted c
          (cleanup_stale c sys (load_registry sys file)).1
          (allocate_dscp c sys job_id username file)
  unfolding allocate_dscp
  allocate-Exhausted on =
      let r = (cleanup_stale c sys (load_registry sys file)).1 in
      if_ind (Exhausted c r) (not c.enabled) (λ off. cc) (λ _. allocate_in-Exhausted r)

  -- An enabled registry answers that no value is free only if every value of the range is used by
  -- an entry that is not stale: one that the cleanup leaves in the registry.
  pub allocate_dscp_exhausted :
      (x : ℕ)
      → c.enabled ≡ true
      → (allocate_dscp c sys job_id username file).0 ≡ ok none
      → InRange c x
      → mem x (used_dscps (cleanup_stale c sys (load_registry sys file)).1.allocations) ≡ true
  allocate_dscp_exhausted x on h = allocate-Exhausted on h x

-- ===== src/Dscp/Promises.antt =====
-- What a job may rely on after `allocate_dscp` or `release_dscp` of
-- wsgi/services/tsim_dscp_registry.py.
use traceroute_simulator.Prelude.{
  if_ind, ℕ, String, ◌≡◌, sym, ◌∙◌, inl, inr, true, Option, none, some, [], ◌∷◌, arith, eq_iff,
  str_eq, Bool-cases, Option-cases, Dict, get, get-All-values, ◌↔◌, runtime_error, raise, ap, subst,
  Bool, false, not, eq_refl, if◌then◌else◌, Distinct, Result, ok, has, keys, get-put, get-remove,
}
use traceroute_simulator.Dscp.Lowest.{InRange}
use traceroute_simulator.Dscp.Stale.{get-cleanup_stale}
use traceroute_simulator.Dscp.{
  available_dscps, with_allocation, saved, smallest, load_registry, cleanup_stale, Registry,
  allocate_in, save_registry, allocate_dscp, Allocation, File, Config, System, dscp_of,
  get_job_dscp, without_allocation, saved_or, release_dscp,
}
use traceroute_simulator.Dscp.Invariant.{IsSound, HasOther, DistinctDscps, HasInRange}
use traceroute_simulator.Dscp.Allocate.{allocations_of, load-allocations_of, methods-IsSound}

-- The value of a job's entry in the file.
abbrev pub held : String → File → Option ℕ
held job_id file = dscp_of (get job_id (allocations_of file))

get_job_dscp-held :
    (c : Config) (sys : System) (job_id : String) (file : File)
    → c.enabled ≡ true
    → get_job_dscp c sys job_id file ≡ held job_id file
unfolding get_job_dscp
get_job_dscp-held c sys job_id file on = ground (arith, load-allocations_of sys file)

held_cases :
    (job_id : String) (file : File) (n : ℕ)
    → held job_id file ≡ some n
    → (a : Allocation) × (get job_id (allocations_of file) ≡ some a) × (a.dscp ≡ n)
held_cases job_id file n h = elim (Option-cases (get job_id (allocations_of file))) [
  | inl e ↦ let bad : none ≡ some n = rw e at h in cc
  | inr (a, e) ↦ let same : some a.dscp ≡ some n = rw e at h in (a, e, cc same)
]

-- No two jobs hold one value.
one_holder :
    (j k : String) (a b : Allocation) (d : Dict Allocation)
    → DistinctDscps d
    → get j d ≡ some a
    → get k d ≡ some b
    → a.dscp ≡ b.dscp
    → j ≡ k
unfolding get
one_holder j k a b [] s g h e = cc
one_holder j k a b ((i, x) ∷ d) s g h e = elim (Bool-cases (str_eq i j)) [
  | inl ij ↦ elim (Bool-cases (str_eq i k)) [
    | inl ik ↦ ground (arith, eq_iff i j, eq_iff i k)
    | inr ik ↦
        let found : get k d ≡ some b = rw ik at h in
        let first : some x ≡ some a = rw ij at g in
        absurd (get-All-values (HasOther x.dscp) k d s.0 found (sym e ∙ sym (cc first)))
  ]
  | inr ij ↦ elim (Bool-cases (str_eq i k)) [
    | inl ik ↦
        let found : get j d ≡ some a = rw ij at g in
        let first : some x ≡ some b = rw ik at h in
        absurd (get-All-values (HasOther x.dscp) j d s.0 found (e ∙ sym (cc first)))
    | inr ik ↦ one_holder j k a b d s.1 (rw ij at g) (rw ik at h) e
  ]
]

-- What the file holds for the job when a call of `allocate_dscp` answers with a value.
abbrev Grants : String → Result (Option ℕ) × File → Type 0
Grants job_id r = (n : ℕ) → r.0 ≡ ok (some n) → held job_id r.1 ≡ some n

module _ (c : Config) (sys : System) (job_id : String) (username : Option String)
    (file : File) where
  saved-Grants :
      (r : Registry) (n : ℕ)
      → Grants job_id
          (saved (save_registry sys (with_allocation n job_id username sys r) file) file n)
  unfolding save_registry
  saved-Grants r n m h = elim (Bool-cases sys.writable) [
    | inl e ↦ rw e (rw get-put (rw (eq_refl job_id) (ground arith)))
    | inr e ↦ let bad : raise runtime_error ≡ ok (some m) = rw e at h in cc
  ]

  allocate_in-Grants :
      (r : Registry)
      → ((a : Allocation)
          → get job_id r.allocations ≡ some a
          → get job_id (allocations_of file) ≡ some a)
      → Grants job_id (allocate_in c sys job_id username file r)
  unfolding allocate_in
  allocate_in-Grants r kept = elim (Option-cases (get job_id r.allocations)) [
    | inr (a, old) ↦ rw (old, allocate_in) (λ n h. rw (kept a old) (ground arith))
    | inl new ↦ elim (Option-cases (smallest (available_dscps c r.allocations))) [
      | inl full ↦ rw (new, full, allocate_in) (λ n h. cc)
      | inr (m, free) ↦ rw (new, free, allocate_in) (saved-Grants r m)
    ]
  ]

  -- What the cleanup leaves was there before.
  cleaned_kept :
      IsSound c (allocations_of file)
      → (a : Allocation)
      → get job_id (cleanup_stale c sys (load_registry sys file)).1.allocations ≡ some a
      → get job_id (allocations_of file) ≡ some a
  cleaned_kept s a h =
      let one = subst (λ d. Distinct (keys d)) (sym (load-allocations_of sys file)) s.one_each in
      ground (
        arith,
        get-cleanup_stale c sys (load_registry sys file) job_id one,
        load-allocations_of sys file,
      )

  allocate-held :
      c.enabled ≡ true
      → IsSound c (allocations_of file)
      → Grants job_id (allocate_dscp c sys job_id username file)
  unfolding allocate_dscp
  allocate-held on s =
      if_ind (Grants job_id) (not c.enabled) (λ off. cc)
        (λ _. allocate_in-Grants (cleanup_stale c sys (load_registry sys file)).1 (cleaned_kept s))

  -- In an enabled registry with a sound file, if `allocate_dscp` answers with the value `n`, then
  -- `n` is in the configured range, and afterwards, at any time, a job has the value `n` exactly
  -- if it is this job.
  pub allocate_dscp_exclusive :
      (n : ℕ) (later : System) (other : String)
      → c.enabled ≡ true
      → IsSound c (allocations_of file)
      → (allocate_dscp c sys job_id username file).0 ≡ ok (some n)
      → InRange c n
        × ((get_job_dscp c later other (allocate_dscp c sys job_id username file).1 ≡ some n)
            ↔ (other ≡ job_id))
  allocate_dscp_exclusive n later other on s h =
      let after = (allocate_dscp c sys job_id username file).1 in
      let sound = (methods-IsSound c sys file s job_id username).0 in
      let mine = allocate-held on s n h in
      let (a, at, of_n) = held_cases job_id after n mine in
      (
        subst (InRange c) of_n
            (get-All-values (HasInRange c) job_id (allocations_of after) sound.in_range at),
        (
          λ g.
              let there = sym (get_job_dscp-held c later other after on) ∙ g in
              let (b, bt, b_n) = held_cases other after n there in
              one_holder other job_id b a (allocations_of after) sound.exclusive bt at
                (b_n ∙ sym of_n),
          λ e. rw e (get_job_dscp-held c later job_id after on ∙ mine),
        ),
      )

module _ (c : Config) (sys : System) (job_id : String) (file : File) where
  release_saved :
      (r : Registry) (other : String)
      → get other r.allocations ≡ get other (allocations_of file)
      → (saved_or (save_registry sys (without_allocation job_id sys r) file) file true false).0
        ≡ true
      → held other
          (saved_or (save_registry sys (without_allocation job_id sys r) file) file true false).1
        ≡ (if str_eq job_id other then none else held other file)
  unfolding save_registry
  release_saved r other same h = elim (Bool-cases sys.writable) [
    | inl e ↦ rw e (rw get-remove (ground (arith, same)))
    | inr e ↦ let bad : false ≡ true = rw e at h in cc
  ]

  abbrev Released : String → Bool × File → Type 0
  Released other o =
      o.0 ≡ true → held other o.1 ≡ (if str_eq job_id other then none else held other file)

  -- In an enabled registry, `release_dscp` that returns true has taken the job's value back, and
  -- left the value of every other job.
  pub release_dscp_frees :
      (other : String)
      → c.enabled ≡ true
      → (release_dscp c sys job_id file).0 ≡ true
      → held other (release_dscp c sys job_id file).1
        ≡ (if str_eq job_id other then none else held other file)
  unfolding release_dscp
  release_dscp_frees other on =
      let r = load_registry sys file in
      if_ind (Released other) (not c.enabled) (λ off. cc)
        (λ _.
          if_ind (Released other) (has job_id r.allocations)
            (λ _ h. release_saved r other (ap (get other) (load-allocations_of sys file)) h)
            (λ _ h. cc))

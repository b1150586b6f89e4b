-- ===== src/HostPool/Kept.antt =====
-- A host that a job uses stays, whatever else happens to the pool of
-- wsgi/services/tsim_quick_job_host_pool_service.py.
use traceroute_simulator.Prelude.{
  ℕ, String, ◌≡◌, ap, ◌≢◌, inl, inr, Bool, true, false, Option, none, some, List, [], ◌∷◌, arith,
  if◌then◌else◌, Bool-cases, mem_str, All, get, str_eq_of_ne, Dict, keys,
}
use traceroute_simulator.HostPool.{
  Pool, HostInfo, users_of, in_use, use_hosts, register_usage, release_job, not_expired, forget,
  cleanup_idle, cleanup_host, remove_host_manual,
}
use traceroute_simulator.HostPool.Users.{
  uses, in_use-uses, uses-use_hosts, uses-release_job, uses-forget,
}

-- What is done to the pool: phase 4 of a batch, the end of a job, a timer, an administrator.
pub data Call : Type 0 where
  batch : Dict (Dict HostInfo) → Call
  release : (now : ℕ) (detailed : Bool) (job_id : String) (hosts : List String) → Call
  timer : (now : ℕ) (detailed : Bool) (host : String) → Call
  manual : (host : String) → Call

abbrev pub removal : String → Bool × Pool → Option String × Pool
removal host (removed, p) = (if removed then some host else none, p)

-- The host that is removed, and the pool afterwards.
unfoldable pub perform : Call → Pool → Option String × Pool
perform (batch reqs) p = (none, register_usage reqs p)
perform (release now detailed job_id hosts) p = (none, release_job now detailed job_id hosts p)
perform (timer now detailed host) p = removal host (cleanup_host now detailed host p)
perform (manual host) p = removal host (remove_host_manual host p)

unfoldable pub perform_all : List Call → Pool → List (Option String) × Pool
perform_all [] p = ([], p)
perform_all (c ∷ calls) p =
    let (gone, p') = perform c p in let (more, p'') = perform_all calls p' in (gone ∷ more, p'')

-- No release of this job.
abbrev pub NotReleasing : String → Call → Type 0
NotReleasing j (release now detailed job_id hosts) = job_id ≢ j
NotReleasing j (batch reqs) = Unit
NotReleasing j (timer now detailed host) = Unit
NotReleasing j (manual host) = Unit

module _ (j g : String) where
  -- The host is not removed, and the job still uses it.
  abbrev pub IsKept : Option String × Pool → Type 0
  IsKept (gone, p) = (gone ≢ some g) × (uses j g p ≡ true)

  register_usage-uses :
      (reqs : Dict (Dict HostInfo)) (p : Pool)
      → uses j g p ≡ true
      → uses j g (register_usage reqs p) ≡ true
  unfolding register_usage
  register_usage-uses [] p h = h
  register_usage-uses ((k, hosts) ∷ reqs) p h =
      register_usage-uses reqs (use_hosts k (keys hosts) p)
        (ground (arith, uses-use_hosts k j (keys hosts) g p))

  -- A host that nothing uses is another one.
  forget-IsKept :
      (host : String) (p : Pool)
      → in_use host p ≡ false
      → uses j g p ≡ true
      → (some host ≢ some g) × (uses j g (forget host p) ≡ true)
  forget-IsKept host p idle h =
      let differ : host ≢ g = λ e. cc (idle, in_use-uses j g p h, ap (λ x. in_use x p) e) in
      ((λ e. differ (cc e)), ground (arith, uses-forget j host g p, str_eq_of_ne host g differ))

  cleanup_idle-IsKept :
      (now : ℕ) (host : String) (p : Pool)
      → uses j g p ≡ true
      → IsKept (removal host (cleanup_idle now host p))
  unfolding cleanup_idle users_of
  cleanup_idle-IsKept now host p h = elim (Bool-cases (mem_str host p.paused_for_detailed_jobs)) [
    | inl paused ↦ rw paused ((λ e. cc e), h)
    | inr running ↦ elim (Bool-cases (in_use host p)) [
      | inl used ↦ rw (running, used) ((λ e. cc e), h)
      | inr idle ↦ elim (Bool-cases (not_expired now (get host p.host_expiry_times))) [
        | inl early ↦ rw (running, idle, early) ((λ e. cc e), h)
        | inr late ↦ rw (running, idle, late) (forget-IsKept host p idle h)
      ]
    ]
  ]

  cleanup_host-IsKept :
      (now : ℕ) (detailed : Bool) (host : String) (p : Pool)
      → uses j g p ≡ true
      → IsKept (removal host (cleanup_host now detailed host p))
  unfolding cleanup_host users_of
  cleanup_host-IsKept now true host p h = ((λ e. cc e), h)
  cleanup_host-IsKept now false host p h = cleanup_idle-IsKept now host p h

  remove_host_manual-IsKept :
      (host : String) (p : Pool)
      → uses j g p ≡ true
      → IsKept (removal host (remove_host_manual host p))
  unfolding remove_host_manual users_of
  remove_host_manual-IsKept host p h = elim (Bool-cases (in_use host p)) [
    | inl used ↦ rw used ((λ e. cc e), h)
    | inr idle ↦ rw idle (forget-IsKept host p idle h)
  ]

  perform-IsKept :
      (c : Call) (p : Pool) → NotReleasing j c → uses j g p ≡ true → IsKept (perform c p)
  unfolding perform
  perform-IsKept (batch reqs) p other h = ((λ e. cc e), register_usage-uses reqs p h)
  perform-IsKept (release now detailed k hosts) p other h = (
    (λ e. cc e),
    ground (arith, uses-release_job now detailed k j hosts g p, str_eq_of_ne k j other),
  )
  perform-IsKept (timer now detailed host) p other h = cleanup_host-IsKept now detailed host p h
  perform-IsKept (manual host) p other h = remove_host_manual-IsKept host p h

  -- While a job uses a host, no timer and no administrator gets to remove the host, and the job
  -- goes on to use it: after any batches, ends of other jobs, timers and manual removals, in any
  -- order and at any times, up to the end of the job itself.
  pub perform_all-IsKept :
      (calls : List Call) (p : Pool)
      → All (NotReleasing j) calls
      → uses j g p ≡ true
      → All (λ gone. gone ≢ some g) (perform_all calls p).0
        × (uses j g (perform_all calls p).1 ≡ true)
  unfolding perform_all
  perform_all-IsKept [] p others h = (tt, h)
  perform_all-IsKept (c ∷ calls) p (other, others) h =
      let (stays, h') = perform-IsKept c p other h in
      let (all_stay, h'') = perform_all-IsKept calls (perform c p).1 others h' in
      ((stays, all_stay), h'')

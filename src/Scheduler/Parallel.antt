-- ===== src/Scheduler/Parallel.antt =====
-- The leader's loop of wsgi/services/tsim_scheduler_service.py: what runs at one time.
use traceroute_simulator.Prelude.{
  ◌+◌, ◌-◌, ◌≤◌, ◌<◌, String, ◌≡◌, refl, sym, ap, subst, ◌∙◌, inl, inr, true, false, ◌&&◌, Option,
  none, some, List, [], ◌∷◌, ◌++◌, arith, eq_iff, leb, str_eq, if_ind, length, length-append, All,
  Dict, put, values, append-All,
}
use traceroute_simulator.Queue.Jobs.{Job, is_quick}
use traceroute_simulator.Queue.{pop_compatible_jobs, remove_running}
use traceroute_simulator.Queue.Invariant.{IsTyped, IsValid, pop_compatible_jobs-IsValid}
use traceroute_simulator.Queue.Parallel.{
  Compatible, IsQuickType, running_types, job_types, pop_compatible_jobs-Compatible,
}
use traceroute_simulator.Queue.Popped.{pop_compatible_jobs-length, pop_compatible_jobs-IsTyped}
use traceroute_simulator.HostPool.{Pool}
use traceroute_simulator.Scheduler.{
  start, start_each, start_job_parallel, start_jobs, pop_and_start, leader_round,
  cleanup_completed_jobs, drop_completed, drop_run, release_hosts, all_quick,
  start_quick_jobs_batch, detailed_info,
}
use traceroute_simulator.Scheduler.State.{
  Info, Scheduler, Setup, World, Both, running_jobs_info, types_of,
}
use traceroute_simulator.Scheduler.Starts.{
  HasRoom, start_running_jobs, start_queue, start_quick_jobs_batch-HasRoom, start_each-HasRoom,
}
use traceroute_simulator.Scheduler.Good.{
  RunsWell, IsGood, HasRoom-IsGood, running_types-info, length-types_of, length-job_types,
  RunsWell-Compatible, RunsWell-remove, All-is_quick,
}

not_quick : (ts : List String) → ts ≡ "detailed" ∷ [] → All IsQuickType ts → ⊥
not_quick [] e q = cc e
not_quick (t ∷ ts) e q =
    let slow : t ≡ "detailed" = cc e in
    let same : str_eq "detailed" "quick" ≡ true = (eq_iff "detailed" "quick").1 (sym slow ∙ q.0) in
    cc same

split_alone :
    (ts : List String) (u : String) (us : List String) {d : String}
    → ts ++ u ∷ us ≡ d ∷ []
    → (ts ≡ []) × (u ≡ d) × (us ≡ [])
split_alone [] u us e = (refl, cc e, cc e)
split_alone (t ∷ []) u us e = cc e
split_alone (t ∷ t' ∷ ts) u us e = cc e

no_types : (d : Dict Info) → types_of d ≡ [] → d ≡ []
no_types [] e = refl
no_types (x ∷ d) e = cc e

module _ (c : Setup) (w : World) where
  release_hosts-same :
      (run_id : String) (hosts : Option (List String)) (b : Both)
      → (release_hosts c w run_id hosts b).1 ≡ b.1
  release_hosts-same run_id none b = refl
  release_hosts-same run_id (some []) b = refl
  release_hosts-same run_id (some (h ∷ hosts)) (p, s) =
      if_ind {A = Both} (λ b. b.1 ≡ s) c.has_pool (λ e. refl) (λ e. refl)

  drop_run-IsGood :
      (run_id : String) (b : Both)
      → IsGood c.max_workers b.1
      → IsGood c.max_workers (drop_run w run_id b).1
  unfolding remove_running
  drop_run-IsGood run_id (p, s) (v, runs) =
      (v, RunsWell-remove c.max_workers run_id s.running_jobs runs)

  drop_completed-IsGood :
      (d : Dict Info) (b : Both)
      → IsGood c.max_workers b.1
      → IsGood c.max_workers (drop_completed c w d b).1
  unfolding drop_completed
  drop_completed-IsGood [] b h = h
  drop_completed-IsGood ((run_id, i) ∷ d) b h = drop_completed-IsGood d _ (
      if_ind {A = Both} (λ b'. IsGood c.max_workers b'.1) (i.submitted && w.done run_id)
        (λ e.
          drop_run-IsGood run_id (release_hosts c w run_id i.allocated_hosts b)
            (subst (IsGood c.max_workers) (sym (release_hosts-same run_id i.allocated_hosts b)) h))
        (λ e. h))

  start_quick_jobs-IsGood :
      (jobs : List Job) (p : Pool) (s : Scheduler)
      → All (λ j. is_quick j ≡ true) jobs
      → HasRoom c.max_workers (length jobs) s
      → IsGood c.max_workers (start_jobs c w jobs (p, s)).1
  start_quick_jobs-IsGood [] p s q h = HasRoom-IsGood c.max_workers s h
  start_quick_jobs-IsGood (j ∷ jobs) p s q h =
      if_ind {A = Both} (λ b. IsGood c.max_workers b.1) (all_quick (j ∷ jobs) && c.has_pool)
        (λ e.
          HasRoom-IsGood c.max_workers (start_quick_jobs_batch c w (j ∷ jobs) (p, s)).1
            (start_quick_jobs_batch-HasRoom c.max_workers c w (j ∷ jobs) p s h))
        (λ e.
          HasRoom-IsGood c.max_workers (start_each c w (j ∷ jobs) s)
            (start_each-HasRoom c.max_workers c w (j ∷ jobs) s q h))

  -- A detailed job starts alone.
  start_alone :
      (j : Job) (s : Scheduler)
      → IsValid s.queue.queue.jobs
      → j.analysis_mode ≡ "detailed"
      → s.running_jobs ≡ []
      → 1 ≤ c.max_workers
      → IsGood c.max_workers (start w j.run_id (detailed_info w j) s)
  unfolding put
  start_alone j s v mode idle k =
      let info = record (detailed_info w j) { submitted = true } in
      let runs : (start w j.run_id (detailed_info w j) s).running_jobs ≡ (j.run_id, info) ∷ [] =
        start_running_jobs w j.run_id (detailed_info w j) s ∙ ap (put j.run_id info) idle in
      (
        subst (λ q. IsValid q.jobs) (sym (start_queue w j.run_id (detailed_info w j) s)) v,
        inr (ap types_of runs ∙ ap (λ (t : String). t ∷ []) mode, k),
      )

  start_detailed :
      (j : Job) (p : Pool) (s : Scheduler)
      → IsValid s.queue.queue.jobs
      → j.analysis_mode ≡ "detailed"
      → s.running_jobs ≡ []
      → 1 ≤ c.max_workers
      → IsGood c.max_workers (start_jobs c w (j ∷ []) (p, s)).1
  unfolding all_quick is_quick start_each start_job_parallel
  start_detailed j p s v mode idle k =
      let slow : is_quick j ≡ false = rw mode refl in rw slow (start_alone j s v mode idle k)

  -- The jobs that are popped start, by the types that run then.
  start_popped :
      (jobs : List Job) (p : Pool) (s : Scheduler)
      → IsValid s.queue.queue.jobs
      → All IsTyped jobs
      → RunsWell c.max_workers s.running_jobs
      → length s.running_jobs + length jobs ≤ c.max_workers
      → Compatible (types_of s.running_jobs ++ job_types jobs)
      → IsGood c.max_workers (start_jobs c w jobs (p, s)).1
  start_popped [] p s v t runs k fit = (v, runs)
  start_popped (j ∷ jobs) p s v t (inl room) k (inl (quick, few)) =
      let (_, mine) =
        append-All IsQuickType (types_of s.running_jobs) (job_types (j ∷ jobs)) quick in
      start_quick_jobs-IsGood (j ∷ jobs) p s (All-is_quick (j ∷ jobs) t mine) (
        v,
        record {
          served = room.served;
          places = omega (
            arith,
            few,
            length-append {0} (types_of s.running_jobs) (job_types (j ∷ jobs)),
            length-types_of s.running_jobs,
            length-job_types (j ∷ jobs),
          );
          threads = k;
        },
      )
  start_popped (j ∷ jobs) p s v t (inr (one, _)) k (inl (quick, few)) = absurd (
      not_quick (types_of s.running_jobs) one
        (append-All IsQuickType (types_of s.running_jobs) (job_types (j ∷ jobs)) quick).0)
  start_popped (j ∷ []) p s v t runs k (inr alone) =
      let (idle, slow, rest) = split_alone (types_of s.running_jobs) j.type [] alone in
      start_detailed j p s v (sym t.0.0 ∙ slow) (no_types s.running_jobs idle) (omega (arith, k))
  start_popped (j ∷ q ∷ jobs) p s v t runs k (inr alone) =
      cc (split_alone (types_of s.running_jobs) j.type (q.type ∷ job_types jobs) alone).2

  pop_and_start-IsGood :
      (b : Both)
      → IsGood c.max_workers b.1
      → length b.1.running_jobs < c.max_workers
      → IsGood c.max_workers (pop_and_start c w b).1
  pop_and_start-IsGood (p, s) (v, runs) k =
      let infos = running_jobs_info s.running_jobs in
      let free = c.max_workers - length s.running_jobs in
      let popped = pop_compatible_jobs infos free w.now s.queue in
      let fits : Compatible (running_types (values infos)) =
        subst Compatible (sym (running_types-info s.running_jobs))
          (RunsWell-Compatible c.max_workers s.running_jobs runs) in
      start_popped popped.0 p (record s { queue = popped.1 })
        (pop_compatible_jobs-IsValid s.queue v infos free w.now)
        (pop_compatible_jobs-IsTyped infos free w.now s.queue v.typed) runs
        (omega (arith, k, pop_compatible_jobs-length infos free w.now s.queue (omega (arith, k))))
        (subst (λ ts. Compatible (ts ++ job_types popped.0)) (running_types-info s.running_jobs)
          (pop_compatible_jobs-Compatible infos free w.now s.queue v.typed fits))

  pub leader_round-IsGood :
      (b : Both) → IsGood c.max_workers b.1 → IsGood c.max_workers (leader_round c w b).1
  unfolding leader_round cleanup_completed_jobs
  leader_round-IsGood (p, s) h =
      let b = cleanup_completed_jobs c w (p, s) in
      let good = drop_completed-IsGood s.running_jobs (p, s) h in
      if_ind {A = Both} (λ b'. IsGood c.max_workers b'.1)
        (leb c.max_workers (length b.1.running_jobs)) (λ e. good)
        (λ e. pop_and_start-IsGood b good (ground (arith, e)))

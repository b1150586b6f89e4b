-- ===== src/Scheduler/Starts.antt =====
-- Starting quick jobs in wsgi/services/tsim_scheduler_service.py: each start takes at most one of
-- the free places, whether by the host pool or not.
use traceroute_simulator.Prelude.{
  ℕ, suc, ◌+◌, ◌≤◌, String, ◌≡◌, refl, sym, ap, subst, ◌≢◌, true, Option, none, some, List, [], ◌∷◌,
  arith, if_ind, keep, length, All, Result, ok, raise, Dict, put, values, keys, put-put,
  length-put_le, put_new_All-values,
}
use traceroute_simulator.Queue.Jobs.{Job, is_quick}
use traceroute_simulator.Queue.{set_running}
use traceroute_simulator.Queue.Invariant.{IsValid, update_status-IsValid}
use traceroute_simulator.Dscp.{File}
use traceroute_simulator.HostPool.{Pool, HostInfo, register_usage}
use traceroute_simulator.HostPool.Batch.{
  JobParams, TraceResult, HostAdd, BatchResult, launch, launch_all, with_requirements, with_traces,
  prepare_and_execute_jobs, analyze_host_requirements, create_hosts_atomic, hosts_for, has_failed,
}
use traceroute_simulator.Scheduler.{
  start, fail, fail_all, quick_info, quick_job, start_pooled, executor_callback, params_of,
  failed_runs, after_batch, start_quick_jobs_batch, start_quick, start_job_parallel, start_each,
}
use traceroute_simulator.Scheduler.State.{
  Info, Scheduler, Setup, World, Both, with_file, allocate, detailed_runs,
}

-- A running quick job has a DSCP value.
abbrev pub IsServed : Info → Type 0
IsServed i = (i.type ≡ "quick") × (i.dscp ≢ none)

-- Only quick jobs run, each with its value, and `n` more may start.
pub record Room (workers n : ℕ) (d : Dict Info) : Type 0 where
  pub served : All IsServed (values d)
  pub places : length d + n ≤ 32
  pub threads : length d + n ≤ workers

-- The queue is valid and there is room.
abbrev pub HasRoom : ℕ → ℕ → Scheduler → Type 0
HasRoom workers n s = IsValid s.queue.queue.jobs × Room workers n s.running_jobs

pub Room-fewer : (workers m n : ℕ) (d : Dict Info) → n ≤ m → Room workers m d → Room workers n d
Room-fewer workers m n d k v = record {
  served = v.served;
  places = omega (arith, v.places);
  threads = omega (arith, v.threads);
}

Room-put :
    (workers n : ℕ) (run_id : String) (i : Info) (d : Dict Info)
    → IsServed i
    → Room workers (suc n) d
    → Room workers n (put run_id i d)
Room-put workers n run_id i d h v = record {
  served = put_new_All-values IsServed run_id i d h v.served;
  places = omega (arith, v.places, length-put_le run_id i d);
  threads = omega (arith, v.threads, length-put_le run_id i d);
}

pub start_running_jobs :
    (w : World) (run_id : String) (i : Info) (s : Scheduler)
    → (start w run_id i s).running_jobs ≡ put run_id (record i { submitted = true }) s.running_jobs
unfolding start
start_running_jobs w run_id i s = put-put run_id (record i { submitted = true }) i s.running_jobs

pub start_queue :
    (w : World) (run_id : String) (i : Info) (s : Scheduler)
    → (start w run_id i s).queue.queue ≡ s.queue.queue
unfolding start set_running
start_queue w run_id i s = refl

module _ (workers : ℕ) (c : Setup) (w : World) where
  start-HasRoom :
      (n : ℕ) (run_id : String) (i : Info) (s : Scheduler)
      → IsServed i
      → HasRoom workers (suc n) s
      → HasRoom workers n (start w run_id i s)
  start-HasRoom n run_id i s h (v, room) = (
    subst (λ q. IsValid q.jobs) (sym (start_queue w run_id i s)) v,
    subst (Room workers n) (sym (start_running_jobs w run_id i s))
        (Room-put workers n run_id (record i { submitted = true }) s.running_jobs h room),
  )

  fail-HasRoom :
      (n : ℕ) (run_id : String) (s : Scheduler)
      → HasRoom workers n s
      → HasRoom workers n (fail w run_id s)
  fail-HasRoom n run_id s (v, room) = (update_status-IsValid run_id "FAILED" w.now s.queue v, room)

  fail_all-HasRoom :
      (n : ℕ) (run_ids : List String) (s : Scheduler)
      → HasRoom workers n s
      → HasRoom workers n (fail_all w run_ids s)
  unfolding fail_all
  fail_all-HasRoom n [] s h = h
  fail_all-HasRoom n (r ∷ run_ids) s h =
      fail_all-HasRoom n run_ids (fail w r s) (fail-HasRoom n r s h)

  fewer : (n : ℕ) (s : Scheduler) → HasRoom workers (suc n) s → HasRoom workers n s
  fewer n s (v, room) = (v, Room-fewer workers (suc n) n s.running_jobs (omega arith) room)

  start_pooled-HasRoom :
      (n : ℕ) (j : JobParams) (hosts : List String) (p : Pool) (s : Scheduler)
      → (r : Result (Option ℕ) × File) → HasRoom workers (suc n) s
      → HasRoom workers n (start_pooled w j hosts p s r).1
  start_pooled-HasRoom n j hosts p s (ok (some dscp), file) h =
      start-HasRoom n j.run_id (quick_info w (quick_job j) dscp (some hosts)) (with_file file s)
        (refl, λ e. cc e) h
  start_pooled-HasRoom n j hosts p s (ok none, file) h =
      fail-HasRoom n j.run_id (with_file file s) (fewer n s h)
  start_pooled-HasRoom n j hosts p s (raise e, file) h = fewer n s h

  launch-HasRoom :
      (reqs : Dict (Dict HostInfo)) (jobs : List JobParams) (b : Both)
      → HasRoom workers (length jobs) b.1
      → HasRoom workers 0 (launch w.now detailed_runs (executor_callback c w) reqs jobs b).1.1
  unfolding launch executor_callback
  launch-HasRoom reqs [] b h = h
  launch-HasRoom reqs (j ∷ jobs) (p, s) h =
      let hosts = keys (hosts_for j.run_id reqs) in
      let answer = allocate c w j.run_id s.dscp_file in
      launch-HasRoom reqs jobs (start_pooled w j hosts p s answer)
        (start_pooled-HasRoom (length jobs) j hosts p s answer h)

  to_none : (n : ℕ) (s : Scheduler) → HasRoom workers n s → HasRoom workers 0 s
  to_none n s (v, room) = (v, Room-fewer workers n 0 s.running_jobs (omega arith) room)

  launch_all-HasRoom :
      (reqs : Dict (Dict HostInfo)) (jobs : List JobParams) (p : Pool) (s : Scheduler)
      → (created : Result (List String)) → HasRoom workers (length jobs) s
      → HasRoom workers 0
          (launch_all w.now detailed_runs (executor_callback c w) reqs jobs (p, s) created).1.1
  launch_all-HasRoom reqs jobs p s (raise e) h = to_none (length jobs) s h
  launch_all-HasRoom reqs jobs p s (ok created) h =
      launch-HasRoom reqs jobs (register_usage reqs p, s) h

  with_requirements-HasRoom :
      (host_add : HostAdd) (jobs : List JobParams) (p : Pool) (s : Scheduler)
      → (reqs : Dict (Dict HostInfo)) → HasRoom workers (length jobs) s
      → HasRoom workers 0
          (with_requirements w.now detailed_runs
            (executor_callback c w)
            host_add
            jobs
            (p, s)
            reqs).1.1
  with_requirements-HasRoom host_add jobs p s [] h = to_none (length jobs) s h
  with_requirements-HasRoom host_add jobs p s (r ∷ reqs) h =
      launch_all-HasRoom (r ∷ reqs) jobs p s (create_hosts_atomic host_add (r ∷ reqs)) h

  with_traces-HasRoom :
      (results : List TraceResult) (host_add : HostAdd) (jobs : List JobParams) (p : Pool)
      (s : Scheduler)
      → (failed : List TraceResult) → HasRoom workers (length jobs) s
      → HasRoom workers 0
          (with_traces w.now detailed_runs
            (executor_callback c w)
            results
            host_add
            jobs
            (p, s)
            failed).1.1
  with_traces-HasRoom results host_add jobs p s [] h =
      with_requirements-HasRoom host_add jobs p s (analyze_host_requirements results jobs) h
  with_traces-HasRoom results host_add jobs p s (r ∷ failed) h = to_none (length jobs) s h

  prepare-HasRoom :
      (results : List TraceResult) (host_add : HostAdd) (jobs : List JobParams) (p : Pool)
      (s : Scheduler)
      → HasRoom workers (length jobs) s
      → HasRoom workers 0
          (prepare_and_execute_jobs w.now detailed_runs
            (executor_callback c w)
            results
            host_add
            jobs
            (p, s)).1.1
  unfolding prepare_and_execute_jobs
  prepare-HasRoom results host_add [] p s h = h
  prepare-HasRoom results host_add (j ∷ jobs) p s h =
      with_traces-HasRoom results host_add (j ∷ jobs) p s (keep has_failed results) h

  after_batch-HasRoom :
      (jobs : List Job) (r : BatchResult × Both)
      → HasRoom workers 0 r.1.1
      → HasRoom workers 0 (after_batch w jobs r).1
  after_batch-HasRoom jobs (r, (p, s)) h =
      if_ind {A = Both} (λ b. HasRoom workers 0 b.1) r.success (λ e. h)
        (λ e. fail_all-HasRoom 0 (failed_runs jobs r.failed_jobs) s h)

  length-params_of : (jobs : List Job) → length (params_of w jobs) ≡ length jobs
  unfolding params_of
  length-params_of [] = refl
  length-params_of (j ∷ jobs) = ap suc (length-params_of jobs)

  pub start_quick_jobs_batch-HasRoom :
      (jobs : List Job) (p : Pool) (s : Scheduler)
      → HasRoom workers (length jobs) s
      → HasRoom workers 0 (start_quick_jobs_batch c w jobs (p, s)).1
  unfolding start_quick_jobs_batch
  start_quick_jobs_batch-HasRoom jobs p s h =
      let params = params_of w jobs in
      after_batch-HasRoom jobs
        (prepare_and_execute_jobs w.now detailed_runs (executor_callback c w) (w.traces params)
          w.host_add params (p, s))
        (prepare-HasRoom (w.traces params) w.host_add params p s
          (subst (λ n. HasRoom workers n s) (sym (length-params_of jobs)) h))

  start_quick-HasRoom :
      (n : ℕ) (job : Job) (s : Scheduler) (r : Result (Option ℕ) × File)
      → HasRoom workers (suc n) s
      → HasRoom workers n (start_quick w job s r)
  start_quick-HasRoom n job s (ok (some dscp), file) h =
      start-HasRoom n job.run_id (quick_info w job dscp none) (with_file file s) (refl, λ e. cc e) h
  start_quick-HasRoom n job s (ok none, file) h =
      fail-HasRoom n job.run_id (with_file file s) (fewer n s h)
  start_quick-HasRoom n job s (raise e, file) h = fewer n s h

  pub start_each-HasRoom :
      (jobs : List Job) (s : Scheduler)
      → All (λ j. is_quick j ≡ true) jobs
      → HasRoom workers (length jobs) s
      → HasRoom workers 0 (start_each c w jobs s)
  unfolding start_each start_job_parallel
  start_each-HasRoom [] s q h = h
  start_each-HasRoom (j ∷ jobs) s (q, qs) h =
      start_each-HasRoom jobs (start_job_parallel c w j s) qs
        (rw q (start_quick-HasRoom (length jobs) j s (allocate c w j.run_id s.dscp_file) h))

-- ===== src/Scheduler.antt =====
-- wsgi/services/tsim_scheduler_service.py: the leader's loop over the job queue, the DSCP registry
-- and the host pool. The thread pool runs a job at some time; which jobs are done is a parameter of
-- a round. Logs and progress files are left out.
pub mod State
pub mod Starts
pub mod Good
pub mod Parallel
pub mod Rounds
mod Tests
use traceroute_simulator.Prelude.{
  ℕ, ◌-◌, String, Bool, true, false, ◌&&◌, Option, none, some, List, [], ◌∷◌, leb, if◌then◌else◌,
  length, Result, ok, raise, Dict, has, put, remove, keys,
}
use traceroute_simulator.Queue.Jobs.{Job, is_quick}
use traceroute_simulator.Queue.{pop_compatible_jobs, update_status, set_running, remove_running}
use traceroute_simulator.Dscp.{File, Config, validate_range, release_dscp}
use traceroute_simulator.HostPool.{HostInfo, Pool, release_job}
use traceroute_simulator.Scheduler.State.{
  Info, Scheduler, Setup, World, Both, detailed_runs, running_list, running_jobs_info, allocate,
  with_file,
}
use traceroute_simulator.HostPool.Batch.{JobParams, BatchResult, prepare_and_execute_jobs}

-- The job is running, the queue's file says so, and the thread pool has it.
unfoldable pub start : World → String → Info → Scheduler → Scheduler
start w run_id info s =
    let running = put run_id info s.running_jobs in
    record s {
      running_jobs = put run_id (record info { submitted = true }) running;
      queue = set_running (running_list running) w.now s.queue;
    }

abbrev pub fail : World → String → Scheduler → Scheduler
fail w run_id s = record s { queue = update_status run_id "FAILED" w.now s.queue }

abbrev pub quick_info : World → Job → ℕ → Option (List String) → Info
quick_info w job dscp hosts = record {
  type = "quick";
  dscp = some dscp;
  started_at = w.now;
  job = job;
  allocated_hosts = hosts;
  submitted = false;
}

-- The job that the callback builds of the parameters.
abbrev pub quick_job : JobParams → Job
quick_job j = record {
  run_id = j.run_id;
  username = j.username;
  created_at = j.created_at;
  status = "";
  params = j.params;
  analysis_mode = "quick";
  type = "";
  cancel_requested = false;
  cancel_requested_by = none;
  cancel_requested_at = none;
}

abbrev pub give_hosts_back : World → String → List String → Both → Both
give_hosts_back w run_id hosts (p, s) = (release_job w.now (detailed_runs (p, s)) run_id hosts p, s)

abbrev pub start_pooled :
    World → JobParams → List String → Pool → Scheduler → Result (Option ℕ) × File → Both
start_pooled w j hosts p s (ok (some dscp), file) =
    (p, start w j.run_id (quick_info w (quick_job j) dscp (some hosts)) (with_file file s))
start_pooled w j hosts p s (ok none, file) =
    give_hosts_back w j.run_id hosts (p, fail w j.run_id (with_file file s))
start_pooled w j hosts p s (raise e, file) = give_hosts_back w j.run_id hosts (p, with_file file s)

-- `executor_callback`, which catches every exception of the registry
unfoldable pub executor_callback :
    Setup → World → JobParams → Dict HostInfo → Both → Result (Unit {0}) × Both
executor_callback c w j hosts (p, s) =
    (ok tt, start_pooled w j (keys hosts) p s (allocate c w j.run_id s.dscp_file))

unfoldable pub params_of : World → List Job → List JobParams
params_of w [] = []
params_of w (j ∷ jobs) =
    record {
      run_id = j.run_id;
      username = j.username;
      created_at = j.created_at;
      params = j.params;
      source_ip = w.source_ip j.params;
    }
    ∷ params_of w jobs

unfoldable pub fail_all : World → List String → Scheduler → Scheduler
fail_all w [] s = s
fail_all w (run_id ∷ run_ids) s = fail_all w run_ids (fail w run_id s)

abbrev pub runs_of : List Job → List String
runs_of [] = []
runs_of (j ∷ jobs) = j.run_id ∷ runs_of jobs

abbrev pub failed_runs : List Job → Option (List String) → List String
failed_runs jobs none = runs_of jobs
failed_runs jobs (some run_ids) = run_ids

abbrev pub after_batch : World → List Job → BatchResult × Both → Both
after_batch w jobs (r, (p, s)) =
    if r.success then (p, s) else (p, fail_all w (failed_runs jobs r.failed_jobs) s)

unfoldable pub start_quick_jobs_batch : Setup → World → List Job → Both → Both
start_quick_jobs_batch c w jobs s =
    let params = params_of w jobs in
    after_batch w jobs (
      prepare_and_execute_jobs w.now detailed_runs (executor_callback c w) (w.traces params)
        w.host_add params s)

abbrev pub start_quick : World → Job → Scheduler → Result (Option ℕ) × File → Scheduler
start_quick w job s (ok (some dscp), file) =
    start w job.run_id (quick_info w job dscp none) (with_file file s)
start_quick w job s (ok none, file) = fail w job.run_id (with_file file s)
start_quick w job s (raise e, file) = with_file file s

abbrev pub detailed_info : World → Job → Info
detailed_info w job = record {
  type = job.analysis_mode;
  dscp = none;
  started_at = w.now;
  job = job;
  allocated_hosts = none;
  submitted = false;
}

unfoldable pub start_job_parallel : Setup → World → Job → Scheduler → Scheduler
start_job_parallel c w job s =
    if is_quick job
    then start_quick w job s (allocate c w job.run_id s.dscp_file)
    else start w job.run_id (detailed_info w job) s

unfoldable pub start_each : Setup → World → List Job → Scheduler → Scheduler
start_each c w [] s = s
start_each c w (j ∷ jobs) s = start_each c w jobs (start_job_parallel c w j s)

abbrev pub release_hosts : Setup → World → String → Option (List String) → Both → Both
release_hosts c w run_id none s = s
release_hosts c w run_id (some []) s = s
release_hosts c w run_id (some (h ∷ hosts)) s =
    if c.has_pool then give_hosts_back w run_id (h ∷ hosts) s else s

abbrev pub drop_run : World → String → Both → Both
drop_run w run_id (p, s) = (
  p,
  record s {
    running_jobs = remove run_id s.running_jobs;
    queue = remove_running run_id w.now s.queue;
  },
)

-- The loop over `completed`, collected before from the running jobs.
unfoldable pub drop_completed : Setup → World → Dict Info → Both → Both
drop_completed c w [] s = s
drop_completed c w ((run_id, info) ∷ d) s = drop_completed c w d (
    if info.submitted && w.done run_id
    then drop_run w run_id (release_hosts c w run_id info.allocated_hosts s)
    else s)

unfoldable pub cleanup_completed_jobs : Setup → World → Both → Both
cleanup_completed_jobs c w (p, s) = drop_completed c w s.running_jobs (p, s)

unfoldable pub all_quick : List Job → Bool
all_quick [] = true
all_quick (j ∷ jobs) = is_quick j && all_quick jobs

abbrev pub start_jobs : Setup → World → List Job → Both → Both
start_jobs c w [] s = s
start_jobs c w (j ∷ jobs) (p, s) =
    if all_quick (j ∷ jobs) && c.has_pool
    then start_quick_jobs_batch c w (j ∷ jobs) (p, s)
    else (p, start_each c w (j ∷ jobs) s)

abbrev pub pop_and_start : Setup → World → Both → Both
pop_and_start c w (p, s) =
    let (jobs, queue) =
      pop_compatible_jobs (running_jobs_info s.running_jobs) (c.max_workers - length s.running_jobs)
        w.now s.queue in
    start_jobs c w jobs (p, record s { queue = queue })

abbrev pub with_capacity : Setup → World → Both → Both
with_capacity c w (p, s) =
    if leb c.max_workers (length s.running_jobs) then (p, s) else pop_and_start c w (p, s)

-- One round of `_leader_loop_parallel`.
unfoldable pub leader_round : Setup → World → Both → Both
leader_round c w s = with_capacity c w (cleanup_completed_jobs c w s)

-- The end of `_execute_job_wrapper`, which gives the value of a quick job back.
abbrev pub give_value_back : World → Job → Scheduler → Result Config → Scheduler
give_value_back w job s (raise e) = s
give_value_back w job s (ok config) =
    with_file (release_dscp config w.system job.run_id s.dscp_file).1 s

unfoldable pub finish_job : Setup → World → Job → Option ℕ → Scheduler → Scheduler
finish_job c w job none s = s
finish_job c w job (some dscp) s =
    if is_quick job then give_value_back w job s (validate_range c.dscp_config) else s

-- ===== src/Scheduler/State.antt =====
-- What the scheduler of wsgi/services/tsim_scheduler_service.py works on: the running jobs over the
-- queue and the DSCP registry, and what the world answers during a round.
use traceroute_simulator.Prelude.{
  ℕ, String, Bool, Option, none, some, List, [], ◌∷◌, str_eq, if◌then◌else◌, Result, ok, raise,
  Dict,
}
use traceroute_simulator.Queue.Jobs.{Job, Params}
use traceroute_simulator.Queue.{Service, Running}
use traceroute_simulator.Dscp.{File, Config, System, validate_range, allocate_dscp}
use traceroute_simulator.HostPool.{Pool, has_running_detailed_jobs}
use traceroute_simulator.HostPool.Batch.{JobParams, TraceResult, HostAdd}

-- A value of `running_jobs`; `submitted` where it has a future.
pub record Info : Type 0 where
  pub type : String
  pub dscp : Option ℕ
  pub started_at : ℕ
  pub job : Job
  pub allocated_hosts : Option (List String)
  pub submitted : Bool

-- What the scheduler works on, besides the host pool.
pub record Scheduler : Type 0 where
  pub queue : Service
  pub dscp_file : File
  pub running_jobs : Dict Info

-- The configuration, and whether there is a host pool.
pub record Setup : Type 0 where
  pub max_workers : ℕ
  pub dscp_config : Config
  pub has_pool : Bool

-- What the world answers during a round.
pub record World : Type 0 where
  pub now : ℕ
  pub system : System
  pub done : String → Bool
  pub source_ip : Params → String
  pub traces : List JobParams → List TraceResult
  pub host_add : HostAdd

abbrev pub Both : Type 0
Both = Pool × Scheduler

-- `execution_mode` and `max_workers` of `__init__`
unfoldable pub max_workers_for : String → Option ℕ → ℕ
max_workers_for mode workers =
    if str_eq mode "parallel" then elim workers [ none ↦ 33 | some n ↦ n ] else 1

abbrev pub types_of : Dict Info → List String
types_of [] = []
types_of ((run_id, info) ∷ d) = info.type ∷ types_of d

-- `_has_running_detailed_jobs` of the pool, by its callback `get_running_jobs`
abbrev pub detailed_runs : Both → Bool
detailed_runs (p, s) = has_running_detailed_jobs (types_of s.running_jobs)

-- An entry of the running list, of which the queue's methods read the run and the type. The keys
-- `dscp` and `started_at` are left out; of the job, its creation and mode are kept.
abbrev pub running_entry : String → Info → Job
running_entry run_id info = record info.job {
  run_id = run_id;
  status = "RUNNING";
  type = info.type;
}

unfoldable pub running_list : Dict Info → List Job
running_list [] = []
running_list ((run_id, info) ∷ d) = running_entry run_id info ∷ running_list d

unfoldable pub running_jobs_info : Dict Info → Dict Running
running_jobs_info [] = []
running_jobs_info ((run_id, info) ∷ d) =
    (run_id, record { type = info.type; dscp = info.dscp }) ∷ running_jobs_info d

-- `TsimDscpRegistry(self.config).allocate_dscp(run_id)`
abbrev pub allocate : Setup → World → String → File → Result (Option ℕ) × File
allocate c w run_id file = elim (validate_range c.dscp_config) [
  | raise e ↦ (raise e, file)
  | ok config ↦ allocate_dscp config w.system run_id none file
]

abbrev pub with_file : File → Scheduler → Scheduler
with_file file s = record s { dscp_file = file }

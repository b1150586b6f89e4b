-- ===== src/HostPool/Batch.antt =====
-- `prepare_and_execute_jobs` of wsgi/services/tsim_quick_job_host_pool_service.py: a batch of quick
-- jobs, from its traces to the start of each job. What the traces and `tsimsh` answer, and the
-- executor's callback, are parameters.
use Prim.Native.String.{◌++◌ as ◌<>◌}
use traceroute_simulator.Prelude.{
  ℕ, suc, ◌+◌, String, Bool, true, false, not, Option, none, some, List, [], ◌∷◌, if◌then◌else◌,
  keep, Result, ok, raise, runtime_error, ◌>>=◌, Dict, get, put, has, keys,
}
use traceroute_simulator.Firewall.Words.{str_of}
use traceroute_simulator.Queue.Jobs.{Params}
use traceroute_simulator.Registry.Locks.{sort_names}
use traceroute_simulator.HostPool.{HostInfo, Pool, register_usage, release_job}

-- The parameters of a job, with what the scheduler adds to them.
pub record JobParams : Type 0 where
  pub run_id : String
  pub username : String
  pub created_at : ℕ
  pub params : Params
  pub source_ip : String

-- A hop of a trace file's path.
pub record PathHop : Type 0 where
  pub name : String
  pub is_router : Bool

-- The result of a trace; `path` is none where the file cannot be read.
pub record TraceResult : Type 0 where
  pub run_id : String
  pub success : Bool
  pub path : Option (List PathHop)

-- `{j['run_id']: j['source_ip'] for j in job_list}`
unfoldable pub job_source_ips : Dict String → List JobParams → Dict String
job_source_ips d [] = d
job_source_ips d (j ∷ jobs) = job_source_ips (put j.run_id j.source_ip d) jobs

abbrev pub or_default_ip : Option String → String
or_default_ip none = "10.0.0.1"
or_default_ip (some ip) = ip

abbrev pub hop_is_router : PathHop → Bool
hop_is_router hop = hop.is_router

-- `{f"source-{i}": {'ip': …, 'router': …} for i, router in enumerate(routers, i)}`
unfoldable pub job_hosts : String → ℕ → List PathHop → Dict HostInfo
job_hosts ip i [] = []
job_hosts ip i (hop ∷ hops) =
    ("source-" <> str_of i, record { ip = ip; router = hop.name }) ∷ job_hosts ip (i + 1) hops

abbrev pub with_hosts :
    String → String → Option (List PathHop) → Dict (Dict HostInfo) → Dict (Dict HostInfo)
with_hosts run_id ip none reqs = reqs
with_hosts run_id ip (some path) reqs = elim (keep hop_is_router path) [
  | [] ↦ reqs
  | hop ∷ hops ↦ put run_id (job_hosts ip 1 (hop ∷ hops)) reqs
]

requirements_from : Dict String → Dict (Dict HostInfo) → List TraceResult → Dict (Dict HostInfo)
requirements_from ips reqs [] = reqs
requirements_from ips reqs (r ∷ results) =
    requirements_from ips
      (if r.success
        then with_hosts r.run_id (or_default_ip (get r.run_id ips)) r.path reqs
        else reqs)
      results

unfoldable pub analyze_host_requirements : List TraceResult → List JobParams → Dict (Dict HostInfo)
unfolding requirements_from
analyze_host_requirements results jobs = requirements_from (job_source_ips [] jobs) [] results

-- The hosts of one job, of which those with a name that is there are passed over.
unfoldable pub collect_job : Dict HostInfo → Dict HostInfo → Dict HostInfo
collect_job all [] = all
collect_job all ((name, info) ∷ hosts) =
    collect_job (if has name all then all else put name info all) hosts

-- `all_hosts` of `_create_hosts_atomic`
unfoldable pub collect_hosts : Dict HostInfo → Dict (Dict HostInfo) → Dict HostInfo
collect_hosts all [] = all
collect_hosts all ((job_id, hosts) ∷ reqs) = collect_hosts (collect_job all hosts) reqs

-- What `host add` answers: nothing where it fails, or whether the host was there before.
abbrev pub HostAdd : Type 0
HostAdd = String → HostInfo → Option Bool

abbrev pub or_no_host : Option HostInfo → HostInfo
or_no_host none = record { ip = ""; router = "" }
or_no_host (some info) = info

unfoldable pub create_each : HostAdd → Dict HostInfo → List String → Result (List String)
create_each host_add all [] = ok []
create_each host_add all (name ∷ names) =
    let rest = create_each host_add all names in
    elim (host_add name (or_no_host (get name all))) [
      | none ↦ raise runtime_error
      | some reused ↦ rest >>= λ created. ok (if reused then created else name ∷ created)
    ]

unfoldable pub create_hosts_atomic : HostAdd → Dict (Dict HostInfo) → Result (List String)
create_hosts_atomic host_add reqs =
    let all = collect_hosts [] reqs in create_each host_add all (sort_names (keys all))

pub record BatchResult : Type 0 where
  pub success : Bool
  pub jobs_launched : ℕ
  pub hosts_created : List String
  pub failed_jobs : Option (List String)

abbrev pub failed_batch : Option (List String) → BatchResult
failed_batch failed = record {
  success = false;
  jobs_launched = 0;
  hosts_created = [];
  failed_jobs = failed;
}

abbrev pub has_failed : TraceResult → Bool
has_failed r = not r.success

abbrev pub run_ids : List TraceResult → List String
run_ids [] = []
run_ids (r ∷ results) = r.run_id ∷ run_ids results

abbrev pub hosts_for : String → Dict (Dict HostInfo) → Dict HostInfo
hosts_for job_id reqs = elim (get job_id reqs) [ none ↦ [] | some hosts ↦ hosts ]

-- `executor_callback(job_params, allocated_hosts)`, on the pool and the caller's own state
abbrev pub Callback : Type 0 → Type 0
Callback S = JobParams → Dict HostInfo → Pool × S → Result (Unit {0}) × (Pool × S)

-- A release reads the running jobs where it is made.
module _ {S : Type 0} (now : ℕ) (detailed : Pool × S → Bool) (callback : Callback S) where
  -- After the callback of a job: it is launched, or its hosts are released.
  abbrev pub after_callback :
      String → List String → Result (Unit {0}) × (Pool × S) → Bool × (Pool × S)
  after_callback job_id hosts (ok done, s) = (true, s)
  after_callback job_id hosts (raise e, (p, s)) =
      (false, (release_job now (detailed (p, s)) job_id hosts p, s))

  -- Phase 5, with the number of jobs launched.
  unfoldable pub launch : Dict (Dict HostInfo) → List JobParams → Pool × S → ℕ × (Pool × S)
  launch reqs [] s = (0, s)
  launch reqs (j ∷ jobs) s =
      let hosts = hosts_for j.run_id reqs in
      let (launched, s') = after_callback j.run_id (keys hosts) (callback j hosts s) in
      let (n, s'') = launch reqs jobs s' in ((if launched then suc n else n), s'')

  abbrev pub launch_all :
      Dict (Dict HostInfo)
      → List JobParams
      → Pool × S
      → Result (List String)
      → BatchResult × (Pool × S)
  launch_all reqs jobs s (raise e) = (failed_batch none, s)
  launch_all reqs jobs (p, s) (ok created) =
      let (n, s') = launch reqs jobs (register_usage reqs p, s) in
      (
        record { success = true; jobs_launched = n; hosts_created = created; failed_jobs = none },
        s',
      )

  -- Phases 2 to 5 with the requirements.
  abbrev pub with_requirements :
      HostAdd → List JobParams → Pool × S → Dict (Dict HostInfo) → BatchResult × (Pool × S)
  with_requirements host_add jobs s [] = (failed_batch none, s)
  with_requirements host_add jobs s (r ∷ reqs) =
      launch_all (r ∷ reqs) jobs s (create_hosts_atomic host_add (r ∷ reqs))

  abbrev pub with_traces :
      List TraceResult
      → HostAdd
      → List JobParams
      → Pool × S
      → List TraceResult
      → BatchResult × (Pool × S)
  with_traces results host_add jobs s [] =
      with_requirements host_add jobs s (analyze_host_requirements results jobs)
  with_traces results host_add jobs s (r ∷ failed) = (failed_batch (some (run_ids (r ∷ failed))), s)

  unfoldable pub prepare_and_execute_jobs :
      List TraceResult → HostAdd → List JobParams → Pool × S → BatchResult × (Pool × S)
  prepare_and_execute_jobs results host_add [] s =
      (record { success = true; jobs_launched = 0; hosts_created = []; failed_jobs = none }, s)
  prepare_and_execute_jobs results host_add (j ∷ jobs) s =
      with_traces results host_add (j ∷ jobs) s (keep has_failed results)

-- ===== src/HostPool/Tests.antt =====
-- A small pool of wsgi/services/tsim_quick_job_host_pool_service.py, and the theorems applied to it.
use traceroute_simulator.Prelude.{
  ℕ, String, ◌≡◌, refl, ◌≢◌, true, false, none, some, List, [], ◌∷◌, str_eq, mem_str, keep, any,
  All, Result, ok, raise, Dict, get, has, put, remove, eq_iff, suc, runtime_error, if◌then◌else◌,
}
use traceroute_simulator.Firewall.Words.{str_of}
use traceroute_simulator.Registry.Locks.{sort_names, insert_name}
use traceroute_simulator.HostPool.{
  HostInfo, Pool, new_pool, add, discard, users_of, use_host, use_hosts, register_usage,
  has_running_detailed_jobs, release_host, release_job, cleanup_idle, cleanup_host,
  remove_host_manual, active_hosts, get_status,
}
use traceroute_simulator.HostPool.Batch.{
  JobParams, PathHop, TraceResult, job_source_ips, job_hosts, analyze_host_requirements,
  collect_job, collect_hosts, create_each, create_hosts_atomic, launch, prepare_and_execute_jobs,
}
use traceroute_simulator.HostPool.Users.{uses}
use traceroute_simulator.HostPool.Kept.{
  Call, batch, release, timer, manual, perform, perform_all, perform_all-IsKept,
}
use traceroute_simulator.HostPool.Pending.{IsPending, perform_all-IsPending}

abbrev host : String → HostInfo
host router = record { ip = "10.0.0.1"; router = router }

abbrev two_jobs : Dict (Dict HostInfo)
two_jobs =
    ("a", ("source-1", host "hq-gw") ∷ ("source-2", host "br-gw") ∷ [])
    ∷ ("b", ("source-1", host "dc-gw") ∷ [])
    ∷ []

program : Unit {0}
unfolding add discard users_of use_host use_hosts register_usage has_running_detailed_jobs
    release_host release_job cleanup_idle cleanup_host remove_host_manual active_hosts get_status
    job_source_ips job_hosts analyze_host_requirements collect_job collect_hosts create_each
    create_hosts_atomic launch prepare_and_execute_jobs perform perform_all str_of sort_names
    insert_name keep any mem_str get has put remove
program = tt

abbrev used : Pool
unfolding program
used = register_usage two_jobs (new_pool 30)

-- The last job that ends leaves a timer; the host goes when the time of grace is over.
abbrev course : List Call
course =
    manual "source-1"
    ∷ release 100 false "a" ("source-1" ∷ "source-2" ∷ [])
    ∷ timer 110 false "source-2"
    ∷ timer 120 true "source-2"
    ∷ timer 130 false "source-2"
    ∷ timer 159 false "source-2"
    ∷ []

course-removals :
    (perform_all course used).0 ≡ none ∷ none ∷ none ∷ none ∷ none ∷ some "source-2" ∷ []
unfolding program
course-removals = refl

course-status : (get_status (perform_all course used).1).active_hosts ≡ ("source-1", "b" ∷ []) ∷ []
unfolding program
course-status = refl

-- Of one name the first router is taken, for all jobs.
collected : collect_hosts [] two_jobs ≡ ("source-1", host "hq-gw") ∷ ("source-2", host "br-gw") ∷ []
unfolding program
collected = refl

b-uses : uses "b" "source-1" used ≡ true
unfolding program
b-uses = refl

a-ne-b : ◌≢◌ {A = String} "a" "b"
a-ne-b e = let same : str_eq "a" "b" ≡ true = (eq_iff "a" "b").1 e in cc same

perform_all-IsKept_example :
    All (λ gone. gone ≢ some "source-1") (perform_all course used).0
    × (uses "b" "source-1" (perform_all course used).1 ≡ true)
perform_all-IsKept_example =
    perform_all-IsKept "b" "source-1" course used (tt, (a-ne-b, (tt, (tt, (tt, (tt, tt)))))) b-uses

new-IsPending : IsPending (new_pool 30)
unfolding program
new-IsPending g tracked = cc tracked

perform_all-IsPending_example : IsPending (perform_all (batch two_jobs ∷ course) (new_pool 30)).1
perform_all-IsPending_example =
    perform_all-IsPending (batch two_jobs ∷ course) (new_pool 30) new-IsPending

abbrev job : String → String → JobParams
job run_id ip = record {
  run_id = run_id;
  username = "ann";
  created_at = 1;
  params = record { analysis_mode = some "quick"; others = "" };
  source_ip = ip;
}

abbrev router : String → PathHop
router name = record { name = name; is_router = true }

abbrev traces : List TraceResult
traces =
    record {
      run_id = "a";
      success = true;
      path =
          some (record { name = "pc"; is_router = false } ∷ router "hq-gw" ∷ router "br-gw" ∷ []);
    }
    ∷ record { run_id = "b"; success = true; path = some (router "dc-gw" ∷ []) }
    ∷ []

analysed :
    analyze_host_requirements traces (job "a" "10.0.0.1" ∷ job "b" "10.0.0.1" ∷ []) ≡ two_jobs
unfolding program
analysed = refl

-- A batch whose second job cannot start gives the job's host back.
abbrev only_a : JobParams → Dict HostInfo → Pool × ℕ → Result (Unit {0}) × (Pool × ℕ)
only_a j hosts (p, n) =
    if str_eq j.run_id "a" then (ok tt, (p, suc n)) else (raise runtime_error, (p, n))

launched :
    (prepare_and_execute_jobs 50
      (λ s. false)
      only_a
      traces
      (λ name info. some false)
      (job "a" "10.0.0.1" ∷ job "b" "10.0.0.1" ∷ [])
      (new_pool 30, 0)).0.jobs_launched
    ≡ 1
unfolding program
launched = refl

launched_users :
    (prepare_and_execute_jobs 50
      (λ s. false)
      only_a
      traces
      (λ name info. some false)
      (job "a" "10.0.0.1" ∷ job "b" "10.0.0.1" ∷ [])
      (new_pool 30, 0)).1.0.host_refcounts
    ≡ ("source-1", "a" ∷ []) ∷ ("source-2", "a" ∷ []) ∷ []
unfolding program
launched_users = refl

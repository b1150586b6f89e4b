-- ===== src/Scheduler/Tests.antt =====
-- A small course of events for wsgi/services/tsim_scheduler_service.py, and the theorem applied to it.
use traceroute_simulator.Prelude.{
  ℕ, ◌≡◌, refl, inl, String, Bool, true, false, Option, none, some, List, [], ◌∷◌, arith, str_eq,
  mem_str, Dict, get, has, put, remove, keep, any,
}
use traceroute_simulator.Queue.Jobs.{Params, mode_or_detailed, is_mode, is_quick, contains, job_eq}
use traceroute_simulator.Queue.{
  save_queue, position_from, enqueue, update_status, set_status, has_detailed, quick_count,
  pop_quick, pop_compatible_jobs, set_running, remove_running,
}
use traceroute_simulator.Queue.Calls
use traceroute_simulator.Dscp.{
  missing, validate_range, load_registry, save_registry, is_process_alive, is_stale, stale_jobs,
  remove_all, cleanup_stale, range, mem, smallest, available_dscps, allocate_in, allocate_dscp,
  release_dscp,
}
use traceroute_simulator.HostPool.{new_pool}
use traceroute_simulator.Scheduler.{
  start, start_job_parallel, start_each, drop_completed, cleanup_completed_jobs, all_quick,
  leader_round, finish_job,
}
use traceroute_simulator.Scheduler.State.{Info, Setup, World, Both, running_list, running_jobs_info}
use traceroute_simulator.Scheduler.Good.{IsGood}
use traceroute_simulator.Scheduler.Rounds.{
  Event, call, round, happen, happen_all, happen_all-IsGood,
}

abbrev setup : Setup
setup = record {
  max_workers = 33;
  dscp_config = record { dscp_min = 32; dscp_max = 63; max_age = 3600; enabled = true };
  has_pool = false;
}

abbrev world : (String → Bool) → World
world done = record {
  now = 10;
  system = record { now = 10; getpid = 7; kill_0 = λ pid. true; writable = true };
  done = done;
  source_ip = λ p. "10.0.0.1";
  traces = λ jobs. [];
  host_add = λ name info. some false;
}

abbrev both : Both
both = (
  new_pool 30,
  record {
    queue = record { queue = record { updated_at = 0; jobs = [] }; current = none; run_files = [] };
    dscp_file = missing;
    running_jobs = [];
  },
)

abbrev quick : Params
quick = record { analysis_mode = some "quick"; others = "" }

abbrev slow : Params
slow = record { analysis_mode = none; others = "" }

abbrev events : List Event
events =
    call 1 (Calls.Call.enqueue "a" "ann" quick)
    ∷ call 2 (Calls.Call.enqueue "b" "bob" slow)
    ∷ call 3 (Calls.Call.enqueue "c" "ann" quick)
    ∷ round (world (λ r. false))
    ∷ round (world (λ r. str_eq r "a"))
    ∷ round (world (λ r. true))
    ∷ []

program : Unit {0}
unfolding enqueue save_queue position_from mode_or_detailed is_mode is_quick contains job_eq
    update_status set_status has_detailed quick_count pop_quick pop_compatible_jobs set_running
    remove_running Calls.perform validate_range load_registry save_registry is_process_alive
    is_stale stale_jobs remove_all cleanup_stale range mem smallest available_dscps allocate_in
    allocate_dscp release_dscp running_list running_jobs_info start start_job_parallel start_each
    drop_completed cleanup_completed_jobs all_quick leader_round finish_job happen happen_all keep
    any mem_str get has put remove
program = tt

abbrev dscps : Dict Info → List (String × Option ℕ)
dscps [] = []
dscps ((r, i) ∷ d) = (r, i.dscp) ∷ dscps d

abbrev first_four : List Event
first_four =
    call 1 (Calls.Call.enqueue "a" "ann" quick)
    ∷ call 2 (Calls.Call.enqueue "b" "bob" slow)
    ∷ call 3 (Calls.Call.enqueue "c" "ann" quick)
    ∷ round (world (λ r. false))
    ∷ []

-- The quick jobs run together and the detailed one after them.
after_four :
    dscps (happen_all setup first_four both).1.running_jobs ≡ ("a", some 32) ∷ ("c", some 33) ∷ []
unfolding program
after_four = refl

after_all : dscps (happen_all setup events both).1.running_jobs ≡ ("b", none) ∷ []
unfolding program
after_all = refl

both-IsGood : IsGood 33 both.1
both-IsGood = (
  record { typed = tt; distinct = tt },
  inl (record { served = tt; places = omega arith; threads = omega arith }),
)

happen_all-IsGood_example : IsGood 33 (happen_all setup events both).1
happen_all-IsGood_example = happen_all-IsGood setup events both both-IsGood

-- ===== src/Queue/Tests.antt =====
-- Small queues: runs of wsgi/services/tsim_queue_service.py, and the theorems applied to them.
use mathlib.Core.List.{Perm}
use traceroute_simulator.Prelude.{
  ◌||◌, ◌&&◌, not, if◌then◌else◌, ℕ, ◌≤◌, String, ◌≡◌, refl, ◌≢◌, inl, true, false, none, some,
  List, [], ◌∷◌, ◌++◌, arith, eq_iff, str_eq, length, keep, any, value_error, ok, raise, Dict,
  values,
}
use traceroute_simulator.Queue.Jobs.{
  Params, Job, mode_or_detailed, is_mode, is_quick, job_eq, contains,
}
use traceroute_simulator.Queue.{
  single, many, Service, save_queue, position_from, get_position, new_job, enqueue, pop_next,
  set_status, update_status, remove_job, Running, has_detailed, quick_count, pop_quick,
  pop_compatible_jobs, get_running,
}
use traceroute_simulator.Queue.Requests.{take_first, request_cancel, force_cancel_running}
use traceroute_simulator.Queue.Invariant.{IsValid}
use traceroute_simulator.Queue.Calls.{Call, perform_all, perform_all-IsValid}
use traceroute_simulator.Queue.Enqueue.{enqueue-get_position}
use traceroute_simulator.Queue.Fifo.{MovesUp, pop_next-MovesUp}
use traceroute_simulator.Queue.Parallel.{
  Compatible, running_types, job_types, pop_compatible_jobs-Compatible,
}
use traceroute_simulator.Queue.Conservation.{pop_compatible_jobs-perm}
use traceroute_simulator.Queue.Cancel.{
  request_cancel_queued, asked, run_ids, is_queued, at_top, request_cancel_lem,
}

abbrev quick_params : Params
quick_params = record { analysis_mode = some "quick"; others = "" }

abbrev detailed_params : Params
detailed_params = record { analysis_mode = none; others = "" }

abbrev job_a : Job
job_a = new_job "a" "ann" quick_params "quick" 1

abbrev job_b : Job
job_b = new_job "b" "bob" detailed_params "detailed" 2

abbrev job_c : Job
job_c = new_job "c" "ann" quick_params "quick" 3

abbrev empty : Service
empty = record { queue = record { updated_at = 0; jobs = [] }; current = none; run_files = [] }

abbrev three : Service
three = record {
  queue = record { updated_at = 3; jobs = job_a ∷ job_b ∷ job_c ∷ [] };
  current = none;
  run_files = [];
}

abbrev one_quick : Dict Running
one_quick = ("r", record { type = "quick"; dscp = some 32 }) ∷ []

program : Unit {0}
unfolding enqueue save_queue position_from get_position mode_or_detailed is_mode pop_compatible_jobs
    pop_quick has_detailed quick_count keep any contains job_eq is_quick pop_next request_cancel
    take_first force_cancel_running get_running perform_all update_status set_status remove_job
program = tt

enqueue_new : enqueue "d" "dan" detailed_params 4 three ≡ (
  ok 4,
  save_queue (job_a ∷ job_b ∷ job_c ∷ new_job "d" "dan" detailed_params "detailed" 4 ∷ []) 4 three,
)
unfolding program
enqueue_new = refl

enqueue_bad_mode :
    (enqueue "d" "dan" (record { analysis_mode = some "fast"; others = "" }) 4 three).0
    ≡ raise value_error
unfolding program
enqueue_bad_mode = refl

-- The quick job behind the detailed one overtakes it.
pop_quick_first : (pop_compatible_jobs [] 32 9 three).0 ≡ job_a ∷ job_c ∷ []
unfolding program
pop_quick_first = refl

pop_left : (pop_compatible_jobs [] 32 9 three).1.queue.jobs ≡ job_b ∷ []
unfolding program
pop_left = refl

-- A detailed job at the head is popped also if no job was asked for.
pop_zero :
    (pop_compatible_jobs [] 0 9
      (record three { queue = record { updated_at = 3; jobs = job_b ∷ [] } })).0
    ≡ job_b ∷ []
unfolding program
pop_zero = refl

text_ne : (s t : String) → str_eq s t ≡ false → s ≢ t
text_ne s t h e = cc (h, (eq_iff s t).1 e)

three-IsValid : IsValid three.queue.jobs
unfolding program
three-IsValid = record {
  typed = ((refl, refl), ((refl, refl), ((refl, refl), tt)));
  distinct =
      ((text_ne "b" "a" refl, (text_ne "c" "a" refl, tt)), ((text_ne "c" "b" refl, tt), (tt, tt)));
}

enqueue-get_position_example :
    (get_position "d" (enqueue "d" "dan" detailed_params 4 three).1 ≡ some 4)
    × (1 ≤ 4)
    × (4 ≤ length (enqueue "d" "dan" detailed_params 4 three).1.queue.jobs)
unfolding program
enqueue-get_position_example = enqueue-get_position "d" "dan" detailed_params 4 three 4 refl

abbrev calls : List (ℕ × Call)
calls =
    (4, Call.enqueue "d" "dan" detailed_params)
    ∷ (5, Call.pop_compatible_jobs [] 32)
    ∷ (6, Call.update_status "b" "STARTING")
    ∷ (7, Call.request_cancel "d" none)
    ∷ []

perform_all-IsValid_example : IsValid (perform_all calls three).queue.jobs
perform_all-IsValid_example = perform_all-IsValid calls three three-IsValid

pop_next-MovesUp_example : MovesUp "b" 1 (pop_next 9 three)
unfolding program
pop_next-MovesUp_example = pop_next-MovesUp 9 three "b" 1 refl

pop_compatible_jobs-Compatible_example :
    Compatible
      (running_types (values one_quick) ++ job_types (pop_compatible_jobs one_quick 4 9 three).0)
pop_compatible_jobs-Compatible_example =
    pop_compatible_jobs-Compatible one_quick 4 9 three three-IsValid.typed
      (inl ((refl, tt), omega arith))

pop_compatible_jobs-perm_example :
    Perm
      ((pop_compatible_jobs one_quick 4 9 three).0
        ++ (pop_compatible_jobs one_quick 4 9 three).1.queue.jobs)
      three.queue.jobs
pop_compatible_jobs-perm_example =
    pop_compatible_jobs-perm one_quick 4 9 three three-IsValid.distinct

request_cancel_queued_example :
    ((request_cancel "b" none 9 three).0 ≡ true)
    × (get_position "b" (request_cancel "b" none 9 three).1 ≡ none)
    × ((request_cancel "b" none 9 three).1.current ≡ three.current)
unfolding program
request_cancel_queued_example = request_cancel_queued "b" none 9 three 2 three-IsValid.distinct refl

abbrev running_b : Service
running_b = record empty { current = some (many 5 (job_b ∷ [])) }

-- A running job that is kept in a list, as `set_running` writes it, is not found by a cancellation.
running_in_list : request_cancel "b" (some "root") 9 running_b ≡ (false, running_b)
unfolding program
running_in_list = refl

abbrev single_b : Service
single_b = record empty { current = some (single job_b) }

request_cancel_lem_example :
    ((request_cancel "b" (some "root") 9 single_b).0
      ≡ (is_queued (get_position "b" single_b) || at_top "b" single_b.current))
    × (run_ids (get_running (request_cancel "b" (some "root") 9 single_b).1)
        ≡ run_ids (get_running single_b))
    × (asked (get_running (request_cancel "b" (some "root") 9 single_b).1) ≡ (
        if not (is_queued (get_position "b" single_b)) && at_top "b" single_b.current
        then true ∷ []
        else asked (get_running single_b)))
request_cancel_lem_example = request_cancel_lem "b" (some "root") 9 single_b

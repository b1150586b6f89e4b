-- ===== src/Queue/Calls.antt =====
-- Any sequence of calls of the methods of wsgi/services/tsim_queue_service.py that write a file.
use traceroute_simulator.Prelude.{ℕ, String, Option, List, [], ◌∷◌, Dict}
use traceroute_simulator.Queue.Jobs.{Job, Params}
use traceroute_simulator.Queue
use traceroute_simulator.Queue.Requests
use traceroute_simulator.Queue.{Service, Running}
use traceroute_simulator.Queue.Invariant.{
  IsValid, enqueue-IsValid, update_status-IsValid, remove_job-IsValid, pop_next-IsValid,
  pop_compatible_jobs-IsValid, request_cancel-IsValid, force_cancel_running-queue,
}

pub data Call : Type 0 where
  enqueue : (run_id username : String) (params : Params) → Call
  pop_next : Call
  update_status : (run_id status : String) → Call
  remove : (run_id : String) → Call
  pop_compatible_jobs : (running : Dict Running) (max_jobs : ℕ) → Call
  set_current : (job : Job) → Call
  clear_current : Call
  set_running : (jobs : List Job) → Call
  remove_running : (run_id : String) → Call
  request_cancel : (run_id : String) (cancelled_by : Option String) → Call
  force_cancel_running : (run_id : String) (cancelled_by : Option String) → Call

-- The files after one call at the time `now`.
unfoldable pub perform : ℕ → Call → Service → Service
perform now (Call.enqueue run_id username params) s = (Queue.enqueue run_id username params now s).1
perform now Call.pop_next s = (Queue.pop_next now s).1
perform now (Call.update_status run_id status) s = Queue.update_status run_id status now s
perform now (Call.remove run_id) s = (Queue.remove_job run_id now s).1
perform now (Call.pop_compatible_jobs running max_jobs) s =
    (Queue.pop_compatible_jobs running max_jobs now s).1
perform now (Call.set_current job) s = Queue.set_current job s
perform now Call.clear_current s = Queue.clear_current s
perform now (Call.set_running jobs) s = Queue.set_running jobs now s
perform now (Call.remove_running run_id) s = Queue.remove_running run_id now s
perform now (Call.request_cancel run_id by) s = (Requests.request_cancel run_id by now s).1
perform now (Call.force_cancel_running run_id by) s =
    (Requests.force_cancel_running run_id by now s).1

unfoldable pub perform_all : List (ℕ × Call) → Service → Service
perform_all [] s = s
perform_all ((now, c) ∷ calls) s = perform_all calls (perform now c s)

pub perform-IsValid :
    (now : ℕ) (c : Call) (s : Service) → IsValid s.queue.jobs → IsValid (perform now c s).queue.jobs
unfolding perform Queue.set_current Queue.clear_current Queue.set_running Queue.remove_running
perform-IsValid now (Call.enqueue run_id username params) s v =
    enqueue-IsValid run_id username params now s v
perform-IsValid now Call.pop_next s v = pop_next-IsValid s v now
perform-IsValid now (Call.update_status run_id status) s v =
    update_status-IsValid run_id status now s v
perform-IsValid now (Call.remove run_id) s v = remove_job-IsValid run_id now s v
perform-IsValid now (Call.pop_compatible_jobs running max_jobs) s v =
    pop_compatible_jobs-IsValid s v running max_jobs now
perform-IsValid now (Call.set_current job) s v = v
perform-IsValid now Call.clear_current s v = v
perform-IsValid now (Call.set_running jobs) s v = v
perform-IsValid now (Call.remove_running run_id) s v = v
perform-IsValid now (Call.request_cancel run_id by) s v = request_cancel-IsValid s v run_id by now
perform-IsValid now (Call.force_cancel_running run_id by) s v =
    rw (force_cancel_running-queue s v run_id by now) v

-- Whatever methods are called, in any order and at any times: if the queue held each run once and
-- every job had the type of its analysis mode, quick or detailed, then so it does afterwards.
pub perform_all-IsValid :
    (calls : List (ℕ × Call)) (s : Service)
    → IsValid s.queue.jobs
    → IsValid (perform_all calls s).queue.jobs
unfolding perform_all
perform_all-IsValid [] s v = v
perform_all-IsValid ((now, c) ∷ calls) s v =
    perform_all-IsValid calls (perform now c s) (perform-IsValid now c s v)

-- ===== src/Queue/Requests.antt =====
-- Cancelling in wsgi/services/tsim_queue_service.py: a run in the queue, the current run, or a run of
-- the running list.
use traceroute_simulator.Prelude.{
  ℕ, String, Bool, true, false, not, Option, none, some, List, [], ◌∷◌, ◌++◌, any, str_eq,
  if◌then◌else◌,
}
use traceroute_simulator.Queue.Jobs.{Job}
use traceroute_simulator.Queue.{
  Service, cancel_json, run_json, Current, single, many, unreadable, jobs_of, without_run,
}

-- The loop of `request_cancel`: the first job of the run, and the others.
unfoldable pub take_first : String → List Job → Option Job × List Job
take_first run_id [] = (none, [])
take_first run_id (j ∷ jobs) =
    let (found, rest) = take_first run_id jobs in
    if str_eq j.run_id run_id then (some j, jobs) else (found, j ∷ rest)

-- `cancelled_by or 'admin'`
abbrev pub or_admin : Option String → String
or_admin none = "admin"
or_admin (some by) = if str_eq by "" then "admin" else by

-- `if cancelled_by:`
abbrev pub is_given : Option String → Bool
is_given none = false
is_given (some by) = not (str_eq by "")

abbrev pub mark_cancel : Option String → ℕ → Job → Job
mark_cancel by now j =
    if is_given by
    then record j {
      cancel_requested = true;
      cancel_requested_by = by;
      cancel_requested_at = some now;
    }
    else record j { cancel_requested = true }

unfoldable pub cancel_current :
    String → Option String → ℕ → Service → Option Current → Bool × Service
cancel_current run_id by now s (some (single j)) =
    if str_eq j.run_id run_id
    then (
      true,
      record s {
        current = some (single (mark_cancel by now j));
        run_files =
            s.run_files
            ++ cancel_json run_id (or_admin by) (mark_cancel by now j).cancel_requested_at false
              ∷ [];
      },
    )
    else (false, s)
cancel_current run_id by now s (some (many t jobs)) = (false, s)
cancel_current run_id by now s (some unreadable) = (false, s)
cancel_current run_id by now s none = (false, s)

unfoldable pub cancel_queued :
    String → Option String → ℕ → Service → Option Job × List Job → Bool × Service
unfolding cancel_current
cancel_queued run_id by now s (none, others) = cancel_current run_id by now s s.current
cancel_queued run_id by now s (some j, others) = (
  true,
  record s {
    queue = record { updated_at = now; jobs = others };
    run_files =
        s.run_files
        ++ (cancel_json run_id (or_admin by) (some now) false
            ∷ run_json run_id j.username j.created_at j.params
            ∷ []);
  },
)

unfoldable pub request_cancel : String → Option String → ℕ → Service → Bool × Service
unfolding cancel_queued
request_cancel run_id by now s = cancel_queued run_id by now s (take_first run_id s.queue.jobs)

abbrev pub is_run : String → Job → Bool
is_run run_id j = str_eq j.run_id run_id

-- The marker is written before the job leaves the running pool.
unfoldable pub force_cancel_running : String → Option String → ℕ → Service → Bool × Service
force_cancel_running run_id by now s =
    if any (is_run run_id) (jobs_of s.current)
    then (
      true,
      record s {
        current = without_run run_id now s.current;
        run_files = s.run_files ++ cancel_json run_id (or_admin by) (some now) true ∷ [];
      },
    )
    else (false, s)

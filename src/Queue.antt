-- ===== src/Queue.antt =====
-- wsgi/services/tsim_queue_service.py: the file-backed FIFO queue of test runs and the file of
-- running jobs. A method takes the contents of the files and returns the new contents.
pub mod Jobs
pub mod Enqueue
pub mod Invariant
pub mod Calls
pub mod Fifo
pub mod Parallel
pub mod Popped
pub mod Conservation
pub mod Requests
pub mod Cancel
mod Tests
use traceroute_simulator.Prelude.{
  ℕ, ◌+◌, ◌-◌, min, String, Bool, true, false, not, ◌||◌, ◌&&◌, Option, none, some, List, [], ◌∷◌,
  ◌++◌, Result, ok, raise, value_error, Dict, values, keep, any, take, length, ltb, ◌==◌, str_eq,
  if◌then◌else◌,
}
use traceroute_simulator.Queue.Jobs.{Job, Params, mode_or_detailed, is_mode, contains, is_quick}

pub record QueueFile : Type 0 where
  pub updated_at : ℕ
  pub jobs : List Job

-- current.json: one job (old format), a list of jobs (new format), or text that is no object.
pub data Current : Type 0 where
  single : Job → Current
  many : ℕ → List Job → Current
  unreadable : Current

-- What is written to a run's directory.
pub data RunFile : Type 0 where
  cancel_json : (run_id cancelled_by : String) (cancelled_at : Option ℕ) (forced : Bool) → RunFile
  run_json : (run_id username : String) (created_at : ℕ) (params : Params) → RunFile

pub record Service : Type 0 where
  pub queue : QueueFile
  pub current : Option Current
  pub run_files : List RunFile

unfoldable pub save_queue : List Job → ℕ → Service → Service
save_queue jobs now s = record s { queue = record { updated_at = now; jobs = jobs } }

-- `for idx, j in enumerate(jobs)`, from `idx`: the 1-based position of the run.
unfoldable pub position_from : ℕ → String → List Job → Option ℕ
position_from idx run_id [] = none
position_from idx run_id (j ∷ jobs) =
    let rest = position_from (idx + 1) run_id jobs in
    if str_eq j.run_id run_id then some (idx + 1) else rest

unfoldable pub get_position : String → Service → Option ℕ
get_position run_id s = position_from 0 run_id s.queue.jobs

abbrev pub new_job : String → String → Params → String → ℕ → Job
new_job run_id username params mode now = record {
  run_id = run_id;
  username = username;
  created_at = now;
  status = "QUEUED";
  params = params;
  analysis_mode = mode;
  type = mode;
  cancel_requested = false;
  cancel_requested_by = none;
  cancel_requested_at = none;
}

unfoldable pub enqueue : String → String → Params → ℕ → Service → Result ℕ × Service
enqueue run_id username params now s = elim (position_from 0 run_id s.queue.jobs) [
  | some p ↦ (ok p, s)
  | none ↦
      let mode = mode_or_detailed params in
      if is_mode mode
      then (
        ok (length s.queue.jobs + 1),
        save_queue (s.queue.jobs ++ new_job run_id username params mode now ∷ []) now s,
      )
      else (raise value_error, s)
]

abbrev pub is_active : String → Bool
is_active status = str_eq status "QUEUED" || (str_eq status "STARTING" || str_eq status "RUNNING")

unfoldable pub has_user_job : String → Service → Bool
has_user_job username s =
    any (λ (j : Job). str_eq j.username username && is_active j.status) s.queue.jobs

pop_from : ℕ → Service → List Job → Option Job × Service
pop_from now s [] = (none, s)
pop_from now s (j ∷ jobs) = (some j, save_queue jobs now s)

unfoldable pub pop_next : ℕ → Service → Option Job × Service
unfolding pop_from
pop_next now s = pop_from now s s.queue.jobs

-- The loop of `update_status`, with its `break` and its flag.
unfoldable pub set_status : String → String → List Job → List Job × Bool
set_status run_id status [] = ([], false)
set_status run_id status (j ∷ jobs) =
    let (rest, updated) = set_status run_id status jobs in
    if str_eq j.run_id run_id
    then (record j { status = status } ∷ jobs, true)
    else (j ∷ rest, updated)

unfoldable pub update_status : String → String → ℕ → Service → Service
update_status run_id status now s =
    let (jobs, updated) = set_status run_id status s.queue.jobs in
    if updated then save_queue jobs now s else s

abbrev pub other_run : String → Job → Bool
other_run run_id j = not (str_eq j.run_id run_id)

unfoldable pub remove_job : String → ℕ → Service → Bool × Service
remove_job run_id now s =
    let new_jobs = keep (other_run run_id) s.queue.jobs in
    if length new_jobs == length s.queue.jobs then (false, s) else (true, save_queue new_jobs now s)

unfoldable pub number_jobs : ℕ → List Job → List (ℕ × Job)
number_jobs idx [] = []
number_jobs idx (j ∷ jobs) = (idx + 1, j) ∷ number_jobs (idx + 1) jobs

unfoldable pub list_jobs : Service → List (ℕ × Job)
list_jobs s = number_jobs 0 s.queue.jobs

-- The values of `running_jobs`.
pub record Running : Type 0 where
  pub type : String
  pub dscp : Option ℕ

unfoldable pub has_detailed : Dict Running → Bool
has_detailed running = any (λ (j : Running). str_eq j.type "detailed") (values running)

unfoldable pub quick_count : Dict Running → ℕ
quick_count running = length (keep (λ (j : Running). str_eq j.type "quick") (values running))

-- The first `slots` quick jobs leave the queue.
unfoldable pub pop_quick : ℕ → ℕ → Service → List Job × Service
pop_quick slots now s =
    let to_pop = take slots (keep is_quick s.queue.jobs) in
    (to_pop, save_queue (keep (λ j. not (contains j to_pop)) s.queue.jobs) now s)

abbrev pub max_quick : ℕ
max_quick = 32

pop_compatible_from : Dict Running → (max_jobs now : ℕ) → Service → List Job → List Job × Service
pop_compatible_from running max_jobs now s [] = ([], s)
pop_compatible_from running max_jobs now s (first ∷ rest) =
    if has_detailed running
    then ([], s)
    else if ltb 0 (quick_count running)
    then (let slots = min (max_quick - quick_count running) max_jobs in
        if slots == 0 then ([], s) else pop_quick slots now s)
    else if is_quick first
    then pop_quick (min max_quick max_jobs) now s
    else (first ∷ [], save_queue rest now s)

unfoldable pub pop_compatible_jobs :
    Dict Running → (max_jobs now : ℕ) → Service → List Job × Service
unfolding pop_compatible_from
pop_compatible_jobs running max_jobs now s = pop_compatible_from running max_jobs now s s.queue.jobs

unfoldable pub set_current : Job → Service → Service
set_current job s = record s { current = some (single job) }

abbrev pub readable : Current → Option Current
readable unreadable = none
readable c = some c

unfoldable pub get_current : Service → Option Current
get_current s = elim s.current [ none ↦ none | some c ↦ readable c ]

unfoldable pub clear_current : Service → Service
clear_current s = record s { current = none }

unfoldable pub set_running : List Job → ℕ → Service → Service
set_running jobs now s = record s { current = some (many now jobs) }

abbrev pub jobs_of : Option Current → List Job
jobs_of none = []
jobs_of (some (single j)) = j ∷ []
jobs_of (some (many t jobs)) = jobs
jobs_of (some unreadable) = []

unfoldable pub get_running : Service → List Job
get_running s = jobs_of s.current

abbrev pub without_run : String → ℕ → Option Current → Option Current
without_run run_id now none = none
without_run run_id now (some (single j)) = if str_eq j.run_id run_id then none else some (single j)
without_run run_id now (some (many t jobs)) = some (many now (keep (other_run run_id) jobs))
without_run run_id now (some unreadable) = some unreadable

unfoldable pub remove_running : String → ℕ → Service → Service
remove_running run_id now s = record s { current = without_run run_id now s.current }

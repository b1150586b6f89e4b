-- ===== src/Queue/Cancel.antt =====
-- Cancellation in wsgi/services/tsim_queue_service.py, of queued and of running jobs.
use traceroute_simulator.Prelude.{
  ℕ, ◌+◌, String, ◌≡◌, refl, sym, ap, subst, ◌∙◌, ◌||◌, ◌&&◌, not, if◌then◌else◌, Bool, inl, inr,
  true, false, Option, none, some, List, [], ◌∷◌, arith, eq_iff, str_eq, Bool-cases, keep, any, All,
}
use traceroute_simulator.Queue.Jobs.{Job}
use traceroute_simulator.Queue.{
  Current, single, many, unreadable, Service, position_from, get_position, other_run, jobs_of,
  get_running, without_run,
}
use traceroute_simulator.Queue.Requests.{take_first, request_cancel, is_run, force_cancel_running}
use traceroute_simulator.Queue.Requests.{cancel_queued, cancel_current, mark_cancel, is_given}
use traceroute_simulator.Queue.Invariant.{OtherRun, DistinctRuns}

-- Jobs of other runs have no position for this one.
OtherRun-position_from :
    (idx : ℕ) (run_id : String) (jobs : List Job)
    → All (OtherRun run_id) jobs
    → position_from idx run_id jobs ≡ none
unfolding position_from
OtherRun-position_from idx run_id [] h = refl
OtherRun-position_from idx run_id (j ∷ jobs) h =
    ground (arith, eq_iff j.run_id run_id, OtherRun-position_from (idx + 1) run_id jobs)

-- The first job of the run is found where the run has a position, and no other is left.
record Found (run_id : String) (r : Option Job × List Job) : Type 0 where
  job : Job
  found : r.0 ≡ some job
  of_run : job.run_id ≡ run_id
  gone : All (OtherRun run_id) r.1

take_first-Found :
    (idx : ℕ) (run_id : String) (jobs : List Job) (p : ℕ)
    → DistinctRuns jobs
    → position_from idx run_id jobs ≡ some p
    → Found run_id (take_first run_id jobs)
unfolding position_from take_first
take_first-Found idx run_id [] p d h = cc
take_first-Found idx run_id (j ∷ jobs) p d h = elim (Bool-cases (str_eq j.run_id run_id)) [
  | inl here ↦
      let same : j.run_id ≡ run_id = (eq_iff j.run_id run_id).0 here in
      rw here (record {
        job = j;
        found = refl;
        of_run = same;
        gone = subst (λ r. All (OtherRun r) jobs) same d.0;
      })
  | inr later ↦
      let behind : position_from (idx + 1) run_id jobs ≡ some p = rw later at h in
      let f = take_first-Found (idx + 1) run_id jobs p d.1 behind in
      rw later (record {
        job = f.job;
        found = f.found;
        of_run = f.of_run;
        gone = ((λ e. cc (later, (eq_iff j.run_id run_id).1 e)), f.gone);
      })
]

cancel_queued-Found :
    (run_id : String) (by : Option String) (now : ℕ) (s : Service) (found : Option Job × List Job)
    → Found run_id found
    → ((cancel_queued run_id by now s found).0 ≡ true)
      × (get_position run_id (cancel_queued run_id by now s found).1 ≡ none)
      × ((cancel_queued run_id by now s found).1.current ≡ s.current)
unfolding cancel_queued get_position
cancel_queued-Found run_id by now s (none, others) f = cc f.found
cancel_queued-Found run_id by now s (some j, others) f =
    (refl, OtherRun-position_from 0 run_id others f.gone, refl)

module _ (run_id : String) (by : Option String) (now : ℕ) (s : Service) where
  -- Where no run is queued twice, a queued run is cancelled: `request_cancel` returns true, the run
  -- has no position afterwards, and what is running is as before.
  pub request_cancel_queued :
      (p : ℕ)
      → DistinctRuns s.queue.jobs
      → get_position run_id s ≡ some p
      → ((request_cancel run_id by now s).0 ≡ true)
        × (get_position run_id (request_cancel run_id by now s).1 ≡ none)
        × ((request_cancel run_id by now s).1.current ≡ s.current)
  unfolding request_cancel get_position
  request_cancel_queued p d h =
      cancel_queued-Found run_id by now s (take_first run_id s.queue.jobs)
        (take_first-Found 0 run_id s.queue.jobs p d h)

-- Whether the run is queued, and whether it is the one running job of the old format.
abbrev pub is_queued : Option ℕ → Bool
is_queued none = false
is_queued (some p) = true

abbrev pub at_top : String → Option Current → Bool
at_top run_id (some (single j)) = str_eq j.run_id run_id
at_top run_id _ = false

abbrev pub run_ids : List Job → List String
run_ids [] = []
run_ids (j ∷ jobs) = j.run_id ∷ run_ids jobs

-- Which jobs are asked to stop.
abbrev pub asked : List Job → List Bool
asked [] = []
asked (j ∷ jobs) = j.cancel_requested ∷ asked jobs

is_found : Option Job → Bool
is_found none = false
is_found (some j) = true

take_first-queued :
    (idx : ℕ) (run_id : String) (jobs : List Job)
    → is_found (take_first run_id jobs).0 ≡ is_queued (position_from idx run_id jobs)
unfolding position_from take_first is_found
take_first-queued idx run_id [] = refl
take_first-queued idx run_id (j ∷ jobs) = elim (Bool-cases (str_eq j.run_id run_id)) [
  | inl e ↦ rw e refl
  | inr e ↦ rw e (take_first-queued (idx + 1) run_id jobs)
]

module _ (run_id : String) (by : Option String) (now : ℕ) (s : Service) where
  -- What a cancellation answers and leaves, where `queued` says whether it took a queued job.
  record Cancels (queued : Bool) (r : Bool × Service) : Type 0 where
    answer : r.0 ≡ (queued || at_top run_id s.current)
    same_runs : run_ids (get_running r.1) ≡ run_ids (get_running s)
    marks :
        asked (get_running r.1)
        ≡ (if not queued && at_top run_id s.current then true ∷ [] else asked (get_running s))

  mark_cancel-marked : (j : Job) → (mark_cancel by now j).cancel_requested ≡ true
  mark_cancel-marked j = elim (Bool-cases (is_given by)) [ inl e ↦ rw e refl | inr e ↦ rw e refl ]

  mark_cancel-run : (j : Job) → (mark_cancel by now j).run_id ≡ j.run_id
  mark_cancel-run j = elim (Bool-cases (is_given by)) [ inl e ↦ rw e refl | inr e ↦ rw e refl ]

  cancel_current-Cancels :
      (c : Option Current) → s.current ≡ c → Cancels false (cancel_current run_id by now s c)
  unfolding cancel_current get_running
  cancel_current-Cancels none e = record { answer = rw e refl; same_runs = refl; marks = rw e refl }
  cancel_current-Cancels (some (single j)) e = elim (Bool-cases (str_eq j.run_id run_id)) [
    | inl top ↦ rw top (record {
      answer = rw (e, top) refl;
      same_runs = rw (e, mark_cancel-run j) refl;
      marks = rw (e, top, mark_cancel-marked j) refl;
    })
    | inr other ↦
        rw other
          (record { answer = rw (e, other) refl; same_runs = refl; marks = rw (e, other) refl })
  ]
  cancel_current-Cancels (some (many t jobs)) e = record {
    answer = rw e refl;
    same_runs = refl;
    marks = rw e refl;
  }
  cancel_current-Cancels (some unreadable) e = record {
    answer = rw e refl;
    same_runs = refl;
    marks = rw e refl;
  }

  cancel_queued-Cancels :
      (found : Option Job × List Job)
      → Cancels (is_found found.0) (cancel_queued run_id by now s found)
  unfolding cancel_queued get_running is_found
  cancel_queued-Cancels (none, others) = cancel_current-Cancels s.current refl
  cancel_queued-Cancels (some j, others) = record { answer = refl; same_runs = refl; marks = refl }

  -- `request_cancel` answers true exactly if the run is queued or is the one running job of the old
  -- format of the file: not if it is one of several running jobs, as `set_running` writes them. The
  -- same runs are running afterwards, in their order. Where the run was not queued and is the running
  -- job of the old format, that job is asked to stop; in every other case the running jobs that are
  -- asked to stop are those that were.
  pub request_cancel_lem :
      ((request_cancel run_id by now s).0
        ≡ (is_queued (get_position run_id s) || at_top run_id s.current))
      × (run_ids (get_running (request_cancel run_id by now s).1) ≡ run_ids (get_running s))
      × (asked (get_running (request_cancel run_id by now s).1) ≡ (
          if not (is_queued (get_position run_id s)) && at_top run_id s.current
          then true ∷ []
          else asked (get_running s)))
  unfolding request_cancel get_position
  request_cancel_lem =
      let c = cancel_queued-Cancels (take_first run_id s.queue.jobs) in
      let queued = take_first-queued 0 run_id s.queue.jobs in
      (
        c.answer ∙ ap (λ q. q || at_top run_id s.current) queued,
        c.same_runs,
        c.marks
            ∙ ap
                (λ q. if not q && at_top run_id s.current then true ∷ [] else asked (get_running s))
                queued,
      )

keep_none :
    (run_id : String) (jobs : List Job)
    → any (is_run run_id) jobs ≡ false
    → keep (other_run run_id) jobs ≡ jobs
unfolding any keep
keep_none run_id [] h = refl
keep_none run_id (j ∷ jobs) h = ground (arith, keep_none run_id jobs)

jobs_of-without_run :
    (run_id : String) (now : ℕ) (c : Option Current)
    → jobs_of (without_run run_id now c) ≡ keep (other_run run_id) (jobs_of c)
unfolding keep
jobs_of-without_run run_id now none = refl
jobs_of-without_run run_id now (some (single j)) = ground arith
jobs_of-without_run run_id now (some (many t jobs)) = refl
jobs_of-without_run run_id now (some unreadable) = refl

-- `force_cancel_running` returns true exactly when the run is one of the running jobs, in the old
-- and the new format of the file. Afterwards the running jobs are those of the other runs, in
-- their order, on both answers, and the queue is as before.
pub force_cancel_running_lem :
    (run_id : String) (by : Option String) (now : ℕ) (s : Service)
    → ((force_cancel_running run_id by now s).0 ≡ any (is_run run_id) (get_running s))
      × (get_running (force_cancel_running run_id by now s).1
          ≡ keep (other_run run_id) (get_running s))
      × ((force_cancel_running run_id by now s).1.queue ≡ s.queue)
unfolding force_cancel_running get_running
force_cancel_running_lem run_id by now s =
    elim (Bool-cases (any (is_run run_id) (jobs_of s.current))) [
      | inl here ↦ rw here (refl, jobs_of-without_run run_id now s.current, refl)
      | inr absent ↦ rw absent (refl, sym (keep_none run_id (jobs_of s.current) absent), refl)
    ]

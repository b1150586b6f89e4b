-- ===== src/Queue/Invariant.antt =====
-- What every method of wsgi/services/tsim_queue_service.py keeps true of the queued jobs.
use traceroute_simulator.Prelude.{
  ℕ, ◌+◌, ◌-◌, min, String, ◌≡◌, refl, sym, ◌≢◌, inl, inr, Bool, true, Option, none, some, List, [],
  ◌∷◌, ◌++◌, arith, eq_iff, ◌==◌, str_eq, Bool-cases, Option-cases, length, keep, All, All-append,
  All-keep, Dict,
}
use traceroute_simulator.Queue.Jobs.{Params, Job, mode_or_detailed, is_mode}
use traceroute_simulator.Queue.{
  Service, Current, position_from, enqueue, save_queue, pop_next, pop_from, new_job, set_status,
  update_status, remove_job, other_run, pop_quick, pop_compatible_jobs, pop_compatible_from,
  Running, quick_count,
}
use traceroute_simulator.Queue.Requests.{
  take_first, cancel_current, cancel_queued, request_cancel, force_cancel_running,
}

abbrev pub IsTyped : Job → Type 0
IsTyped j = (j.type ≡ j.analysis_mode) × (is_mode j.type ≡ true)

abbrev pub OtherRun : String → Job → Type 0
OtherRun run_id j = j.run_id ≢ run_id

abbrev pub DistinctRuns : List Job → Type 0
DistinctRuns [] = Unit
DistinctRuns (j ∷ jobs) = All (OtherRun j.run_id) jobs × DistinctRuns jobs

-- Every job has the type that its mode says, and no run is queued twice.
pub record IsValid (jobs : List Job) : Type 0 where
  pub typed : All IsTyped jobs
  pub distinct : DistinctRuns jobs

IsValid-tail : {j : Job} {jobs : List Job} → IsValid (j ∷ jobs) → IsValid jobs
IsValid-tail v = record { typed = v.typed.1; distinct = v.distinct.1 }

DistinctRuns-keep : (p : Job → Bool) (xs : List Job) → DistinctRuns xs → DistinctRuns (keep p xs)
unfolding keep
DistinctRuns-keep p [] h = tt
DistinctRuns-keep p (x ∷ xs) h =
    ground (arith, DistinctRuns-keep p xs h.1, All-keep (OtherRun x.run_id) p xs h.0)

IsValid-keep : (p : Job → Bool) (xs : List Job) → IsValid xs → IsValid (keep p xs)
IsValid-keep p xs v = record {
  typed = All-keep IsTyped p xs v.typed;
  distinct = DistinctRuns-keep p xs v.distinct;
}

absent-OtherRun :
    (idx : ℕ) (run_id : String) (xs : List Job)
    → position_from idx run_id xs ≡ none
    → All (OtherRun run_id) xs
unfolding position_from
absent-OtherRun idx run_id [] h = tt
absent-OtherRun idx run_id (x ∷ xs) h =
    ground (arith, eq_iff x.run_id run_id, absent-OtherRun (idx + 1) run_id xs)

DistinctRuns-snoc :
    (xs : List Job) (j : Job)
    → DistinctRuns xs
    → All (OtherRun j.run_id) xs
    → DistinctRuns (xs ++ j ∷ [])
DistinctRuns-snoc [] j d o = (tt, tt)
DistinctRuns-snoc (x ∷ xs) j d o = (
  All-append (OtherRun x.run_id) xs (j ∷ []) d.0 ((λ e. o.0 (sym e)), tt),
  DistinctRuns-snoc xs j d.1 o.1,
)

pub enqueue-IsValid :
    (run_id username : String) (params : Params) (now : ℕ) (s : Service)
    → IsValid s.queue.jobs
    → IsValid (enqueue run_id username params now s).1.queue.jobs
unfolding enqueue save_queue
enqueue-IsValid run_id username params now s v =
    elim (Option-cases (position_from 0 run_id s.queue.jobs)) [
      | inl new ↦
          rw (new, enqueue)
            (elim (Bool-cases (is_mode (mode_or_detailed params))) [
              | inl good ↦ rw good (record {
                typed = All-append IsTyped s.queue.jobs _ v.typed ((refl, good), tt);
                distinct =
                    DistinctRuns-snoc s.queue.jobs
                      (new_job run_id username params (mode_or_detailed params) now) v.distinct
                      (absent-OtherRun 0 run_id s.queue.jobs new);
              })
              | inr bad ↦ rw bad v
            ])
      | inr (p, old) ↦ rw (old, enqueue) v
    ]

pop_from-IsValid :
    (now : ℕ) (s : Service) (jobs : List Job)
    → IsValid jobs
    → IsValid s.queue.jobs
    → IsValid (pop_from now s jobs).1.queue.jobs
unfolding pop_from save_queue
pop_from-IsValid now s [] v w = w
pop_from-IsValid now s (j ∷ jobs) v w = IsValid-tail v

OtherRun-set_status :
    (other run_id status : String) (xs : List Job)
    → All (OtherRun other) xs
    → All (OtherRun other) (set_status run_id status xs).0
unfolding set_status
OtherRun-set_status other run_id status [] h = tt
OtherRun-set_status other run_id status (x ∷ xs) h =
    ground (arith, OtherRun-set_status other run_id status xs h.1)

IsValid-set_status :
    (run_id status : String) (xs : List Job) → IsValid xs → IsValid (set_status run_id status xs).0
unfolding set_status
IsValid-set_status run_id status [] v = v
IsValid-set_status run_id status (x ∷ xs) v =
    let rest = IsValid-set_status run_id status xs (IsValid-tail v) in
    let others = OtherRun-set_status x.run_id run_id status xs v.distinct.0 in
    elim (Bool-cases (str_eq x.run_id run_id)) [
      | inl e ↦ rw e (record { typed = v.typed; distinct = v.distinct })
      | inr e ↦
          rw e (record { typed = (v.typed.0, rest.typed); distinct = (others, rest.distinct) })
    ]

pub update_status-IsValid :
    (run_id status : String) (now : ℕ) (s : Service)
    → IsValid s.queue.jobs
    → IsValid (update_status run_id status now s).queue.jobs
unfolding update_status save_queue
update_status-IsValid run_id status now s v =
    elim (Bool-cases (set_status run_id status s.queue.jobs).1) [
      | inl e ↦ rw e (IsValid-set_status run_id status s.queue.jobs v)
      | inr e ↦ rw e v
    ]

pub remove_job-IsValid :
    (run_id : String) (now : ℕ) (s : Service)
    → IsValid s.queue.jobs
    → IsValid (remove_job run_id now s).1.queue.jobs
unfolding remove_job save_queue
remove_job-IsValid run_id now s v =
    elim (Bool-cases (length (keep (other_run run_id) s.queue.jobs) == length s.queue.jobs)) [
      | inl e ↦ rw e v
      | inr e ↦ rw e (IsValid-keep (other_run run_id) s.queue.jobs v)
    ]

pop_quick-IsValid :
    (slots now : ℕ) (s : Service)
    → IsValid s.queue.jobs
    → IsValid (pop_quick slots now s).1.queue.jobs
unfolding pop_quick save_queue
pop_quick-IsValid slots now s v = IsValid-keep _ s.queue.jobs v

pop_compatible_from-IsValid :
    (running : Dict Running) (max_jobs now : ℕ) (s : Service) (jobs : List Job)
    → IsValid jobs
    → IsValid s.queue.jobs
    → IsValid (pop_compatible_from running max_jobs now s jobs).1.queue.jobs
unfolding pop_compatible_from save_queue
pop_compatible_from-IsValid running max_jobs now s [] v w = w
pop_compatible_from-IsValid running max_jobs now s (j ∷ jobs) v w = ground (
  arith,
  IsValid-tail v,
  pop_quick-IsValid (min (32 - quick_count running) max_jobs) now s w,
  pop_quick-IsValid (min 32 max_jobs) now s w,
)

OtherRun-take_first :
    (other run_id : String) (xs : List Job)
    → All (OtherRun other) xs
    → All (OtherRun other) (take_first run_id xs).1
unfolding take_first
OtherRun-take_first other run_id [] h = tt
OtherRun-take_first other run_id (x ∷ xs) h =
    ground (arith, OtherRun-take_first other run_id xs h.1)

IsValid-take_first :
    (run_id : String) (xs : List Job) → IsValid xs → IsValid (take_first run_id xs).1
unfolding take_first
IsValid-take_first run_id [] v = v
IsValid-take_first run_id (x ∷ xs) v =
    let rest = IsValid-take_first run_id xs (IsValid-tail v) in
    let others = OtherRun-take_first x.run_id run_id xs v.distinct.0 in
    elim (Bool-cases (str_eq x.run_id run_id)) [
      | inl e ↦ rw e (IsValid-tail v)
      | inr e ↦
          rw e (record { typed = (v.typed.0, rest.typed); distinct = (others, rest.distinct) })
    ]

cancel_current-queue :
    (run_id : String) (by : Option String) (now : ℕ) (s : Service) (c : Option Current)
    → (cancel_current run_id by now s c).1.queue ≡ s.queue
unfolding cancel_current
cancel_current-queue run_id by now s none = refl
cancel_current-queue run_id by now s (some (Current.single j)) = ground arith
cancel_current-queue run_id by now s (some (Current.many t jobs)) = refl
cancel_current-queue run_id by now s (some Current.unreadable) = refl

cancel_queued-IsValid :
    (run_id : String) (by : Option String) (now : ℕ) (s : Service) (found : Option Job × List Job)
    → IsValid found.1
    → IsValid s.queue.jobs
    → IsValid (cancel_queued run_id by now s found).1.queue.jobs
unfolding cancel_queued
cancel_queued-IsValid run_id by now s (none, others) v w =
    rw (cancel_current-queue run_id by now s s.current) w
cancel_queued-IsValid run_id by now s (some j, others) v w = v

module _ (s : Service) (v : IsValid s.queue.jobs) where
  pub pop_next-IsValid : (now : ℕ) → IsValid (pop_next now s).1.queue.jobs
  unfolding pop_next
  pop_next-IsValid now = pop_from-IsValid now s s.queue.jobs v v

  pub pop_compatible_jobs-IsValid :
      (running : Dict Running) (max_jobs now : ℕ)
      → IsValid (pop_compatible_jobs running max_jobs now s).1.queue.jobs
  unfolding pop_compatible_jobs
  pop_compatible_jobs-IsValid running max_jobs now =
      pop_compatible_from-IsValid running max_jobs now s s.queue.jobs v v

  pub request_cancel-IsValid :
      (run_id : String) (by : Option String) (now : ℕ)
      → IsValid (request_cancel run_id by now s).1.queue.jobs
  unfolding request_cancel
  request_cancel-IsValid run_id by now =
      cancel_queued-IsValid run_id by now s (take_first run_id s.queue.jobs)
        (IsValid-take_first run_id s.queue.jobs v) v

  pub force_cancel_running-queue :
      (run_id : String) (by : Option String) (now : ℕ)
      → (force_cancel_running run_id by now s).1.queue ≡ s.queue
  unfolding force_cancel_running
  force_cancel_running-queue run_id by now = ground arith

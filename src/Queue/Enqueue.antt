-- ===== src/Queue/Enqueue.antt =====
-- Positions in the queue of wsgi/services/tsim_queue_service.py, and what `enqueue` does to them.
use traceroute_simulator.Prelude.{
  ℕ, ◌+◌, ◌≤◌, ◌<◌, String, ◌≡◌, inl, inr, none, some, List, [], ◌∷◌, ◌++◌, arith, eq_iff,
  Option-cases, length, length-append, ok,
}
use traceroute_simulator.Queue.Jobs.{Job, Params, mode_or_detailed}
use traceroute_simulator.Queue.{Service, position_from, get_position, enqueue, save_queue, new_job}

-- A position that is found stays when jobs are added behind.
position_from-append :
    (idx : ℕ) (run_id : String) (xs ys : List Job) (p : ℕ)
    → position_from idx run_id xs ≡ some p
    → position_from idx run_id (xs ++ ys) ≡ some p
unfolding position_from
position_from-append idx run_id [] ys p h = cc
position_from-append idx run_id (x ∷ xs) ys p h =
    ground (arith, position_from-append (idx + 1) run_id xs ys p)

-- A new run at the end has the position of the length.
position_from-snoc :
    (idx : ℕ) (run_id : String) (xs : List Job) (j : Job)
    → position_from idx run_id xs ≡ none
    → j.run_id ≡ run_id
    → position_from idx run_id (xs ++ j ∷ []) ≡ some (idx + length xs + 1)
unfolding position_from
position_from-snoc idx run_id [] j h e = ground (arith, eq_iff j.run_id run_id)
position_from-snoc idx run_id (x ∷ xs) j h e =
    ground (arith, position_from-snoc (idx + 1) run_id xs j)

pub position_from_bounds :
    (idx : ℕ) (run_id : String) (xs : List Job) (p : ℕ)
    → position_from idx run_id xs ≡ some p
    → (idx < p) × (p ≤ idx + length xs)
unfolding position_from
position_from_bounds idx run_id [] p h = cc
position_from_bounds idx run_id (x ∷ xs) p h =
    ground (arith, position_from_bounds (idx + 1) run_id xs p)

module _ (run_id username : String) (params : Params) (now : ℕ) (s : Service) where
  -- When `enqueue` returns a position, the run has that position afterwards, and the position is
  -- between 1 and the length of the queue.
  pub enqueue-get_position :
      (p : ℕ)
      → (enqueue run_id username params now s).0 ≡ ok p
      → (get_position run_id (enqueue run_id username params now s).1 ≡ some p)
        × (1 ≤ p)
        × (p ≤ length (enqueue run_id username params now s).1.queue.jobs)
  unfolding enqueue get_position save_queue
  enqueue-get_position p h =
      let job = new_job run_id username params (mode_or_detailed params) now in
      elim (Option-cases (position_from 0 run_id s.queue.jobs)) [
        | inl new ↦ (
          ground (arith, position_from-snoc 0 run_id s.queue.jobs job),
          ground arith,
          ground (arith, length-append s.queue.jobs (job ∷ [])),
        )
        | inr (q, old) ↦ (
          ground arith,
          ground (arith, position_from_bounds 0 run_id s.queue.jobs q),
          ground (arith, position_from_bounds 0 run_id s.queue.jobs q),
        )
      ]

  -- Whatever `enqueue` answers, a run that had a position keeps it.
  pub enqueue_keeps_position :
      (other : String) (q : ℕ)
      → get_position other s ≡ some q
      → get_position other (enqueue run_id username params now s).1 ≡ some q
  unfolding enqueue get_position save_queue
  enqueue_keeps_position other q h =
      let job = new_job run_id username params (mode_or_detailed params) now in
      ground (arith, position_from-append 0 other s.queue.jobs (job ∷ []) q)

  -- A run that is queued is not queued again: `enqueue` returns its position and changes nothing,
  -- whatever its user, its parameters and the time.
  pub enqueue_again :
      {p : ℕ} → get_position run_id s ≡ some p → enqueue run_id username params now s ≡ (ok p, s)
  unfolding enqueue get_position
  enqueue_again h = ground arith

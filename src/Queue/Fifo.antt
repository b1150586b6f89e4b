-- ===== src/Queue/Fifo.antt =====
-- The order in which jobs leave the queue of wsgi/services/tsim_queue_service.py, and `list_jobs`.
use traceroute_simulator.Prelude.{
  ℕ, suc, ◌+◌, ◌<◌, String, ◌≡◌, refl, ◌⊎◌, inl, inr, Option, some, List, [], ◌∷◌, arith, eq_iff,
  str_eq, Bool-cases,
}
use traceroute_simulator.Queue.Jobs.{Job}
use traceroute_simulator.Queue.{Service, save_queue, position_from, get_position, pop_next}
use traceroute_simulator.Queue.{pop_from}
use traceroute_simulator.Queue.Enqueue.{position_from_bounds}

position_from-suc :
    (idx : ℕ) (run_id : String) (jobs : List Job) (p : ℕ)
    → position_from (idx + 1) run_id jobs ≡ some (suc p)
    → position_from idx run_id jobs ≡ some p
unfolding position_from
position_from-suc idx run_id [] p h = cc
position_from-suc idx run_id (j ∷ jobs) p h =
    ground (arith, position_from-suc (idx + 1) run_id jobs p)

-- What became of a run at position `p + 1` when `r` was popped.
abbrev pub MovesUp : String → ℕ → Option Job × Service → Type 0
MovesUp run_id p r =
    ((j : Job) × (p ≡ 0) × (r.0 ≡ some j) × (j.run_id ≡ run_id))
    ⊎ (0 < p) × (get_position run_id r.1 ≡ some p)

pop_from-MovesUp :
    (now : ℕ) (s : Service) (jobs : List Job) (run_id : String) (p : ℕ)
    → position_from 0 run_id jobs ≡ some (suc p)
    → MovesUp run_id p (pop_from now s jobs)
unfolding pop_from get_position position_from save_queue
pop_from-MovesUp now s [] run_id p h = cc
pop_from-MovesUp now s (j ∷ jobs) run_id p h = elim (Bool-cases (str_eq j.run_id run_id)) [
  | inl here ↦ inl (j, ground arith, refl, ground (arith, eq_iff j.run_id run_id))
  | inr later ↦
      let behind : position_from 1 run_id jobs ≡ some (suc p) = rw later at h in
      inr (
        omega (arith, (position_from_bounds 1 run_id jobs (suc p) behind).0),
        position_from-suc 0 run_id jobs p behind,
      )
]

-- The queue is first in, first out: of a run at position `p + 1`, `pop_next` returns the job if
-- `p` is 0, and otherwise the run is at position `p` afterwards.
pub pop_next-MovesUp :
    (now : ℕ) (s : Service) (run_id : String) (p : ℕ)
    → get_position run_id s ≡ some (suc p)
    → MovesUp run_id p (pop_next now s)
unfolding pop_next get_position
pop_next-MovesUp now s run_id p h = pop_from-MovesUp now s s.queue.jobs run_id p h

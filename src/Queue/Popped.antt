-- ===== src/Queue/Popped.antt =====
-- The jobs that `pop_compatible_jobs` of wsgi/services/tsim_queue_service.py returns.
use traceroute_simulator.Prelude.{
  ℕ, ◌-◌, ◌≤◌, min, List, [], ◌∷◌, arith, length, keep, length-take, Dict, All, All-take, All-keep,
}
use traceroute_simulator.Queue.Jobs.{Job, is_quick}
use traceroute_simulator.Queue.{
  Service, Running, quick_count, pop_quick, max_quick, pop_compatible_jobs,
}
use traceroute_simulator.Queue.{pop_compatible_from}
use traceroute_simulator.Queue.Invariant.{IsTyped}

pop_quick-length : (n now : ℕ) (s : Service) → length (pop_quick n now s).0 ≤ n
unfolding pop_quick
pop_quick-length n now s = omega (arith, length-take {0} n (keep is_quick s.queue.jobs))

pop_compatible_from-length :
    (running : Dict Running) (max_jobs now : ℕ) (s : Service) (jobs : List Job)
    → 1 ≤ max_jobs
    → length (pop_compatible_from running max_jobs now s jobs).0 ≤ max_jobs
unfolding pop_compatible_from
pop_compatible_from-length running max_jobs now s [] k = omega arith
pop_compatible_from-length running max_jobs now s (j ∷ jobs) k = ground (
  arith,
  pop_quick-length (min (max_quick - quick_count running) max_jobs) now s,
  pop_quick-length (min max_quick max_jobs) now s,
)

-- No more jobs are popped than are asked for, where at least one is.
pub pop_compatible_jobs-length :
    (running : Dict Running) (max_jobs now : ℕ) (s : Service)
    → 1 ≤ max_jobs
    → length (pop_compatible_jobs running max_jobs now s).0 ≤ max_jobs
unfolding pop_compatible_jobs
pop_compatible_jobs-length running max_jobs now s k =
    pop_compatible_from-length running max_jobs now s s.queue.jobs k

pop_quick-IsTyped :
    (n now : ℕ) (s : Service) → All IsTyped s.queue.jobs → All IsTyped (pop_quick n now s).0
unfolding pop_quick
pop_quick-IsTyped n now s h =
    All-take IsTyped n (keep is_quick s.queue.jobs) (All-keep IsTyped is_quick s.queue.jobs h)

pop_compatible_from-IsTyped :
    (running : Dict Running) (max_jobs now : ℕ) (s : Service) (jobs : List Job)
    → All IsTyped s.queue.jobs
    → All IsTyped jobs
    → All IsTyped (pop_compatible_from running max_jobs now s jobs).0
unfolding pop_compatible_from
pop_compatible_from-IsTyped running max_jobs now s [] h t = tt
pop_compatible_from-IsTyped running max_jobs now s (j ∷ jobs) h t = ground (
  arith,
  pop_quick-IsTyped (min (max_quick - quick_count running) max_jobs) now s h,
  pop_quick-IsTyped (min max_quick max_jobs) now s h,
)

-- The jobs that are popped have the types of their modes.
pub pop_compatible_jobs-IsTyped :
    (running : Dict Running) (max_jobs now : ℕ) (s : Service)
    → All IsTyped s.queue.jobs
    → All IsTyped (pop_compatible_jobs running max_jobs now s).0
unfolding pop_compatible_jobs
pop_compatible_jobs-IsTyped running max_jobs now s h =
    pop_compatible_from-IsTyped running max_jobs now s s.queue.jobs h h

-- ===== src/Scheduler/Good.antt =====
-- What may run at one time in wsgi/services/tsim_scheduler_service.py, and what a job that ends
-- leaves.
use traceroute_simulator.Prelude.{
  ℕ, suc, ◌≤◌, String, ◌≡◌, refl, sym, ap, ◌∙◌, ◌⊎◌, inl, inr, true, List, [], ◌∷◌, arith,
  Bool-cases, str_eq, length, All, Dict, remove, values, All-values-remove, length-remove_le,
}
use traceroute_simulator.Queue.Jobs.{Job, is_quick}
use traceroute_simulator.Queue.Invariant.{IsTyped, IsValid}
use traceroute_simulator.Queue.Parallel.{Compatible, IsQuickType, running_types, job_types}
use traceroute_simulator.Scheduler.State.{Info, Scheduler, running_jobs_info, types_of}
use traceroute_simulator.Scheduler.Starts.{IsServed, Room, HasRoom}

-- What runs: quick jobs, or one detailed job alone; never more than there are workers.
abbrev pub RunsWell : ℕ → Dict Info → Type 0
RunsWell workers d = Room workers 0 d ⊎ (types_of d ≡ "detailed" ∷ []) × (1 ≤ workers)

-- The queue is valid, and the running jobs run well.
abbrev pub IsGood : ℕ → Scheduler → Type 0
IsGood workers s = IsValid s.queue.queue.jobs × RunsWell workers s.running_jobs

pub HasRoom-IsGood : (workers : ℕ) (s : Scheduler) → HasRoom workers 0 s → IsGood workers s
HasRoom-IsGood workers s (v, room) = (v, inl room)

pub running_types-info : (d : Dict Info) → running_types (values (running_jobs_info d)) ≡ types_of d
unfolding running_jobs_info
running_types-info [] = refl
running_types-info ((k, i) ∷ d) = ap (λ ts. i.type ∷ ts) (running_types-info d)

pub length-types_of : (d : Dict Info) → length (types_of d) ≡ length d
length-types_of [] = refl
length-types_of ((k, i) ∷ d) = ap suc (length-types_of d)

pub length-job_types : (jobs : List Job) → length (job_types jobs) ≡ length jobs
length-job_types [] = refl
length-job_types (j ∷ jobs) = ap suc (length-job_types jobs)

All-quick_types : (d : Dict Info) → All IsServed (values d) → All IsQuickType (types_of d)
All-quick_types [] h = tt
All-quick_types ((k, i) ∷ d) h = (h.0.0, All-quick_types d h.1)

pub RunsWell-Compatible :
    (workers : ℕ) (d : Dict Info) → RunsWell workers d → Compatible (types_of d)
RunsWell-Compatible workers d (inl room) =
    inl (All-quick_types d room.served, omega (arith, length-types_of d, room.places))
RunsWell-Compatible workers d (inr (one, k)) = inr one

Room-remove :
    (workers : ℕ) (run_id : String) (d : Dict Info)
    → Room workers 0 d
    → Room workers 0 (remove run_id d)
Room-remove workers run_id d room = record {
  served = All-values-remove IsServed run_id d room.served;
  places = omega (arith, room.places, length-remove_le run_id d);
  threads = omega (arith, room.threads, length-remove_le run_id d);
}

Room-empty : (workers : ℕ) → Room workers 0 []
Room-empty workers = record { served = tt; places = omega arith; threads = omega arith }

-- A detailed job that ends leaves nothing.
remove_alone :
    (workers : ℕ) (run_id : String) (d : Dict Info)
    → types_of d ≡ "detailed" ∷ []
    → 1 ≤ workers
    → RunsWell workers (remove run_id d)
unfolding remove
remove_alone workers run_id [] h k = cc h
remove_alone workers run_id ((r, i) ∷ []) h k = elim (Bool-cases (str_eq r run_id)) [
  | inl e ↦ rw e (inl (Room-empty workers))
  | inr e ↦ rw e (inr (h, k))
]
remove_alone workers run_id ((r, i) ∷ (q, j) ∷ d) h k = cc h

pub RunsWell-remove :
    (workers : ℕ) (run_id : String) (d : Dict Info)
    → RunsWell workers d
    → RunsWell workers (remove run_id d)
RunsWell-remove workers run_id d (inl room) = inl (Room-remove workers run_id d room)
RunsWell-remove workers run_id d (inr (one, k)) = remove_alone workers run_id d one k

pub All-is_quick :
    (jobs : List Job)
    → All IsTyped jobs
    → All IsQuickType (job_types jobs)
    → All (λ j. is_quick j ≡ true) jobs
unfolding is_quick
All-is_quick [] t q = tt
All-is_quick (j ∷ jobs) t q = (rw (sym t.0.0 ∙ q.0), All-is_quick jobs t.1 q.1)

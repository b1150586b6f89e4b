-- ===== src/Scheduler/Rounds.antt =====
-- Any course of events around the scheduler of wsgi/services/tsim_scheduler_service.py.
use traceroute_simulator.Prelude.{ℕ, Option, none, some, List, [], ◌∷◌, if_ind, Result, ok, raise}
use traceroute_simulator.Queue.Jobs.{Job, is_quick}
use traceroute_simulator.Queue.Calls
use traceroute_simulator.Dscp.{Config, validate_range}
use traceroute_simulator.Scheduler.{leader_round, give_value_back, finish_job}
use traceroute_simulator.Scheduler.State.{Scheduler, Setup, World, Both}
use traceroute_simulator.Scheduler.Good.{IsGood}
use traceroute_simulator.Scheduler.Parallel.{leader_round-IsGood}

-- A call of the queue by the web service, a round of the leader, the end of a job's work.
pub data Event : Type 0 where
  call : (now : ℕ) (c : Calls.Call) → Event
  round : (w : World) → Event
  finish : (w : World) (job : Job) (dscp : Option ℕ) → Event

unfoldable pub happen : Setup → Event → Both → Both
happen c (call now k) (p, s) = (p, record s { queue = Calls.perform now k s.queue })
happen c (round w) b = leader_round c w b
happen c (finish w job dscp) (p, s) = (p, finish_job c w job dscp s)

unfoldable pub happen_all : Setup → List Event → Both → Both
happen_all c [] b = b
happen_all c (e ∷ events) b = happen_all c events (happen c e b)

give_value_back-IsGood :
    (workers : ℕ) (w : World) (job : Job) (s : Scheduler) (config : Result Config)
    → IsGood workers s
    → IsGood workers (give_value_back w job s config)
give_value_back-IsGood workers w job s (raise e) h = h
give_value_back-IsGood workers w job s (ok config) h = h

finish_job-IsGood :
    (c : Setup) (w : World) (job : Job) (dscp : Option ℕ) (s : Scheduler)
    → IsGood c.max_workers s
    → IsGood c.max_workers (finish_job c w job dscp s)
unfolding finish_job
finish_job-IsGood c w job none s h = h
finish_job-IsGood c w job (some dscp) s h =
    if_ind {A = Scheduler} (IsGood c.max_workers) (is_quick job)
      (λ e. give_value_back-IsGood c.max_workers w job s (validate_range c.dscp_config) h) (λ e. h)

happen-IsGood :
    (c : Setup) (e : Event) (b : Both)
    → IsGood c.max_workers b.1
    → IsGood c.max_workers (happen c e b).1
unfolding happen
happen-IsGood c (call now k) (p, s) (v, runs) = (Calls.perform-IsValid now k s.queue v, runs)
happen-IsGood c (round w) b h = leader_round-IsGood c w b h
happen-IsGood c (finish w job dscp) (p, s) h = finish_job-IsGood c w job dscp s h

-- Whatever calls of the queue, rounds of the leader and ends of jobs happen, and whatever the host
-- pool, the DSCP registry and the network answer: if the queue was valid, and what ran was only
-- quick jobs, at most 32 and each with a DSCP value, or one detailed job alone, and no more than
-- there are workers, then so it is afterwards.
pub happen_all-IsGood :
    (c : Setup) (events : List Event) (b : Both)
    → IsGood c.max_workers b.1
    → IsGood c.max_workers (happen_all c events b).1
unfolding happen_all
happen_all-IsGood c [] b h = h
happen_all-IsGood c (e ∷ events) b h =
    happen_all-IsGood c events (happen c e b) (happen-IsGood c e b h)

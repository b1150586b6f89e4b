-- ===== src/Queue/Parallel.antt =====
-- Parallel execution in wsgi/services/tsim_queue_service.py: which jobs `pop_compatible_jobs` lets
-- start beside the running ones.
use mathlib.Core.List.{append-nil}
use traceroute_simulator.Prelude.{
  ℕ, zero, suc, ◌+◌, ◌-◌, ◌≤◌, min, String, ◌≡◌, refl, ◌⊎◌, inl, inr, true, false, List, [], ◌∷◌,
  ◌++◌, arith, eq_iff, ltb, ◌==◌, str_eq, Bool-cases, length, take, keep, any, length-append, All,
  All-append, Dict, values,
}
use traceroute_simulator.Queue.Jobs.{Job, is_mode, is_quick}
use traceroute_simulator.Queue.{
  Service, Running, has_detailed, quick_count, pop_quick, max_quick, pop_compatible_jobs,
}
use traceroute_simulator.Queue.{pop_compatible_from}
use traceroute_simulator.Queue.Invariant.{IsTyped}

abbrev pub running_types : List Running → List String
running_types [] = []
running_types (r ∷ rs) = r.type ∷ running_types rs

abbrev pub job_types : List Job → List String
job_types [] = []
job_types (j ∷ js) = j.type ∷ job_types js

abbrev pub IsQuickType : String → Type 0
IsQuickType t = t ≡ "quick"

-- What may run at one time: at most 32 quick jobs, or one detailed job alone.
abbrev pub Compatible : List String → Type 0
Compatible ts = All IsQuickType ts × (length ts ≤ 32) ⊎ (ts ≡ "detailed" ∷ [])

quick-ne-detailed : (t : String) → t ≡ "quick" → str_eq t "detailed" ≡ false
quick-ne-detailed t e = rw e

All-quick_no_detailed :
    (rs : List Running)
    → All IsQuickType (running_types rs)
    → any (λ (j : Running). str_eq j.type "detailed") rs ≡ false
unfolding any
All-quick_no_detailed [] h = refl
All-quick_no_detailed (r ∷ rs) h = rw (quick-ne-detailed r.type h.0) (All-quick_no_detailed rs h.1)

All-quick_count :
    (rs : List Running)
    → All IsQuickType (running_types rs)
    → length (keep (λ (j : Running). str_eq j.type "quick") rs) ≡ length (running_types rs)
unfolding keep
All-quick_count [] h = refl
All-quick_count (r ∷ rs) h = ground (arith, All-quick_count rs h.1, eq_iff r.type "quick")

one_detailed :
    (rs : List Running)
    → running_types rs ≡ "detailed" ∷ []
    → any (λ (j : Running). str_eq j.type "detailed") rs ≡ true
unfolding any
one_detailed [] h = cc
one_detailed (r ∷ rs) h = ground (arith, eq_iff r.type "detailed")

-- The quick jobs of the queue have the type `quick`.
quick_types :
    (jobs : List Job) → All IsTyped jobs → All IsQuickType (job_types (keep is_quick jobs))
unfolding keep is_quick
quick_types [] h = tt
quick_types (j ∷ jobs) h = ground (arith, quick_types jobs h.1, eq_iff j.analysis_mode "quick")

take_types :
    (n : ℕ) (jobs : List Job)
    → All IsQuickType (job_types jobs)
    → All IsQuickType (job_types (take n jobs)) × (length (job_types (take n jobs)) ≤ n)
take_types zero jobs h = (tt, omega arith)
take_types (suc n) [] h = (tt, omega arith)
take_types (suc n) (j ∷ jobs) h =
    ((h.0, (take_types n jobs h.1).0), omega (arith, (take_types n jobs h.1).1))

pop_quick_types :
    (n now : ℕ) (s : Service)
    → All IsTyped s.queue.jobs
    → All IsQuickType (job_types (pop_quick n now s).0)
      × (length (job_types (pop_quick n now s).0) ≤ n)
unfolding pop_quick
pop_quick_types n now s h = take_types n (keep is_quick s.queue.jobs) (quick_types s.queue.jobs h)

first_type : (j : Job) → IsTyped j → is_quick j ≡ false → j.type ≡ "detailed"
unfolding is_quick is_mode
first_type j h q =
    ground (arith, eq_iff j.analysis_mode "quick", eq_iff j.type "quick", eq_iff j.type "detailed")

Compatible-append :
    (ts us : List String) (n : ℕ)
    → All IsQuickType ts
    → All IsQuickType us
    → length us ≤ n
    → length ts + n ≤ 32
    → Compatible (ts ++ us)
Compatible-append ts us n ht hu h k =
    inl (All-append IsQuickType ts us ht hu, omega (arith, length-append {0} ts us))

none_then_one :
    (ts : List String) (t : String)
    → length ts ≡ 0
    → t ≡ "detailed"
    → ts ++ t ∷ [] ≡ "detailed" ∷ []
none_then_one [] t h e = rw e
none_then_one (u ∷ ts) t h e = absurd (omega arith)

module _ (running : Dict Running) (max_jobs now : ℕ) (s : Service) where
  -- Beside a detailed job: nothing.
  from_detailed :
      (jobs : List Job)
      → has_detailed running ≡ true
      → (pop_compatible_from running max_jobs now s jobs).0 ≡ []
  unfolding pop_compatible_from
  from_detailed [] h = refl
  from_detailed (j ∷ jobs) h = rw h

  -- Beside quick jobs: those that run, and up to `slots` more.
  from_quick-Compatible :
      (jobs : List Job)
      → All IsTyped jobs
      → All IsTyped s.queue.jobs
      → All IsQuickType (running_types (values running))
      → length (running_types (values running)) ≤ 32
      → Compatible (
          running_types (values running)
          ++ job_types (pop_compatible_from running max_jobs now s jobs).0)
  unfolding pop_compatible_from has_detailed quick_count
  from_quick-Compatible [] t w q k = rw (append-nil (running_types (values running))) (inl (q, k))
  from_quick-Compatible (j ∷ jobs) t w q k =
      let ts = running_types (values running) in
      let n = quick_count running in
      let counted : n ≡ length ts = All-quick_count (values running) q in
      let slots = min (max_quick - n) max_jobs in
      let alone = min max_quick max_jobs in
      let more = pop_quick_types slots now s w in
      let batch = pop_quick_types alone now s w in
      rw (All-quick_no_detailed (values running) q) (elim (Bool-cases (ltb 0 n)) [
        | inl some_run ↦ rw some_run (elim (Bool-cases (slots == 0)) [
          | inl full ↦ rw full (rw (append-nil ts) (inl (q, k)))
          | inr free ↦
              rw free (Compatible-append ts _ slots q more.0 more.1 (omega (arith, counted)))
        ])
        | inr idle ↦ rw idle (elim (Bool-cases (is_quick j)) [
          | inl quick ↦
              rw quick
                (Compatible-append ts _ alone q batch.0 batch.1 (ground (arith, counted, idle)))
          | inr other ↦ rw other (
              inr
                (none_then_one ts j.type (ground (arith, counted, idle)) (first_type j t.0 other)))
        ])
      ])

  -- Let the running jobs be at most 32 quick ones, or one detailed job alone, and let every queued
  -- job have the type of its mode, which is quick or detailed. Then the running jobs together with those that
  -- `pop_compatible_jobs` returns are again at most 32 quick ones, or one detailed job alone.
  pub pop_compatible_jobs-Compatible :
      All IsTyped s.queue.jobs
      → Compatible (running_types (values running))
      → Compatible (
          running_types (values running)
          ++ job_types (pop_compatible_jobs running max_jobs now s).0)
  unfolding pop_compatible_jobs has_detailed
  pop_compatible_jobs-Compatible typed (inl (q, k)) =
      from_quick-Compatible s.queue.jobs typed typed q k
  pop_compatible_jobs-Compatible typed (inr d) =
      rw (from_detailed s.queue.jobs (one_detailed (values running) d))
        (rw (append-nil (running_types (values running))) (inr d))

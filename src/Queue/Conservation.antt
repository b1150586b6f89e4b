-- ===== src/Queue/Conservation.antt =====
-- No job is lost or repeated when jobs are popped in wsgi/services/tsim_queue_service.py.
use mathlib.Core.List.{perm_middle, Perm}
use mathlib.Core.List.Perm
use traceroute_simulator.Prelude.{
  ℕ, zero, suc, ◌-◌, min, ◌≡◌, refl, sym, subst, inl, inr, Bool, true, false, not, List, [], ◌∷◌,
  ◌++◌, arith, Bool-cases, take, keep, All, All-keep, All-take, Dict,
}
use traceroute_simulator.Queue.Jobs.{Job, is_quick, job_eq, contains, job_eq_refl, job_eq-run_id}
use traceroute_simulator.Queue.{
  Service, save_queue, Running, quick_count, pop_quick, max_quick, pop_compatible_jobs,
}
use traceroute_simulator.Queue.{pop_compatible_from}
use traceroute_simulator.Queue.Invariant.{OtherRun, DistinctRuns}

keep-All {ℓ} : {A : Type ℓ} (p : A → Bool) (xs : List A) → All (λ x. p x ≡ true) xs → keep p xs ≡ xs
unfolding keep
keep-All p [] h = refl
keep-All p (x ∷ xs) h = rw (h.0, keep-All p xs h.1)

keep_cong {ℓ} :
    {A : Type ℓ} (p q : A → Bool) (xs : List A) → All (λ x. p x ≡ q x) xs → keep p xs ≡ keep q xs
unfolding keep
keep_cong p q [] h = refl
keep_cong p q (x ∷ xs) h = rw (h.0, keep_cong p q xs h.1)

abbrev left_out : List Job → Job → Bool
left_out popped j = not (contains j popped)

-- A job of another run than `x` is in `x ∷ popped` only if it is in `popped`.
left_out-cons :
    (x : Job) (popped xs : List Job)
    → All (OtherRun x.run_id) xs
    → All (λ j. left_out (x ∷ popped) j ≡ left_out popped j) xs
unfolding contains
left_out-cons x popped [] h = tt
left_out-cons x popped (j ∷ xs) h = (
  elim (Bool-cases (job_eq x j)) [
    | inl same ↦ absurd (h.0 (sym (job_eq-run_id x j same)))
    | inr other ↦ rw other
  ],
  left_out-cons x popped xs h.1,
)

-- A job is in no list of jobs of other runs.
not_contains : (x : Job) (xs : List Job) → All (OtherRun x.run_id) xs → contains x xs ≡ false
unfolding contains
not_contains x [] h = refl
not_contains x (j ∷ xs) h = elim (Bool-cases (job_eq j x)) [
  | inl same ↦ absurd (h.0 (job_eq-run_id j x same))
  | inr other ↦ rw other (not_contains x xs h.1)
]

left_out_none : (xs : List Job) → keep (left_out []) xs ≡ xs
unfolding keep contains
left_out_none [] = refl
left_out_none (x ∷ xs) = rw (left_out_none xs)

-- What `keep` does at a job that passes, and at one that does not.
take_quick :
    (n : ℕ) (j : Job) (jobs : List Job)
    → is_quick j ≡ true
    → take (suc n) (keep is_quick (j ∷ jobs)) ≡ j ∷ take n (keep is_quick jobs)
unfolding keep
take_quick n j jobs h = rw h

skip_other :
    (n : ℕ) (j : Job) (jobs : List Job)
    → is_quick j ≡ false
    → take n (keep is_quick (j ∷ jobs)) ≡ take n (keep is_quick jobs)
unfolding keep
skip_other n j jobs h = rw h

keep_drop {ℓ} :
    {A : Type ℓ} (p : A → Bool) (x : A) (xs : List A) → p x ≡ false → keep p (x ∷ xs) ≡ keep p xs
unfolding keep
keep_drop p x xs h = rw h

keep_take {ℓ} :
    {A : Type ℓ} (p : A → Bool) (x : A) (xs : List A) → p x ≡ true → keep p (x ∷ xs) ≡ x ∷ keep p xs
unfolding keep
keep_take p x xs h = rw h

left_out_self : (x : Job) (popped : List Job) → left_out (x ∷ popped) x ≡ false
unfolding contains
left_out_self x popped = rw (job_eq_refl x)

-- `popped` and what is left out of it.
abbrev Splits : List Job → List Job → Type 0
Splits jobs popped = Perm (popped ++ keep (left_out popped) jobs) jobs

Splits-quick :
    (j : Job) (jobs popped : List Job)
    → All (OtherRun j.run_id) jobs
    → Splits jobs popped
    → Splits (j ∷ jobs) (j ∷ popped)
Splits-quick j jobs popped d h =
    rw (keep_drop (left_out (j ∷ popped)) j jobs (left_out_self j popped)) (
      rw (keep_cong (left_out (j ∷ popped)) (left_out popped) jobs (left_out-cons j popped jobs d))
        (Perm.cons j h))

Splits-other :
    (j : Job) (jobs popped : List Job)
    → All (OtherRun j.run_id) popped
    → Splits jobs popped
    → Splits (j ∷ jobs) popped
Splits-other j jobs popped d h =
    rw (keep_take (left_out popped) j jobs (rw (not_contains j popped d)))
      (Perm.trans (perm_middle popped (keep (left_out popped) jobs)) (Perm.cons j h))

-- The jobs taken and those left out of them are the jobs, each as often as it was there.
take_quick-Splits :
    (n : ℕ) (jobs : List Job) → DistinctRuns jobs → Splits jobs (take n (keep is_quick jobs))
take_quick-Splits zero jobs d = rw (left_out_none jobs) (Perm.refl jobs)
take_quick-Splits (suc n) [] d = unfold keep in Perm.refl []
take_quick-Splits (suc n) (j ∷ jobs) d = elim (Bool-cases (is_quick j)) [
  | inl quick ↦
      subst (Splits (j ∷ jobs)) (sym (take_quick n j jobs quick))
        (Splits-quick j jobs (take n (keep is_quick jobs)) d.0 (take_quick-Splits n jobs d.1))
  | inr other ↦ subst (Splits (j ∷ jobs)) (sym (skip_other (suc n) j jobs other)) (
      Splits-other j jobs (take (suc n) (keep is_quick jobs))
        (All-take (OtherRun j.run_id) (suc n) (keep is_quick jobs)
          (All-keep (OtherRun j.run_id) is_quick jobs d.0))
        (take_quick-Splits (suc n) jobs d.1))
]

-- A pop that returns `r.0` and leaves the queue of `r.1`, from a queue of `jobs`.
abbrev Conserves : List Job → List Job × Service → Type 0
Conserves jobs r = Perm (r.0 ++ r.1.queue.jobs) jobs

pop_quick-Conserves :
    (n now : ℕ) (s : Service)
    → DistinctRuns s.queue.jobs
    → Conserves s.queue.jobs (pop_quick n now s)
unfolding pop_quick save_queue
pop_quick-Conserves n now s d = take_quick-Splits n s.queue.jobs d

pop_compatible_from-Conserves :
    (running : Dict Running) (max_jobs now : ℕ) (s : Service) (jobs : List Job)
    → s.queue.jobs ≡ jobs
    → DistinctRuns s.queue.jobs
    → Conserves s.queue.jobs (pop_compatible_from running max_jobs now s jobs)
unfolding pop_compatible_from save_queue
pop_compatible_from-Conserves running max_jobs now s [] e d = Perm.refl s.queue.jobs
pop_compatible_from-Conserves running max_jobs now s (j ∷ jobs) e d = ground (
  arith,
  Perm.refl s.queue.jobs,
  pop_quick-Conserves (min (max_quick - quick_count running) max_jobs) now s d,
  pop_quick-Conserves (min max_quick max_jobs) now s d,
)

-- Where no run is queued twice, the jobs that `pop_compatible_jobs` returns and those that stay in
-- the queue are together the jobs that were queued, each as often as it was.
pub pop_compatible_jobs-perm :
    (running : Dict Running) (max_jobs now : ℕ) (s : Service)
    → DistinctRuns s.queue.jobs
    → Perm
        ((pop_compatible_jobs running max_jobs now s).0
          ++ (pop_compatible_jobs running max_jobs now s).1.queue.jobs)
        s.queue.jobs
unfolding pop_compatible_jobs
pop_compatible_jobs-perm running max_jobs now s d =
    pop_compatible_from-Conserves running max_jobs now s s.queue.jobs refl d

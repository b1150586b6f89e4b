-- ===== src/Queue/Jobs.antt =====
-- The jobs of wsgi/services/tsim_queue_service.py: their fields, their comparison as dicts, and the
-- tests on their analysis mode. Of the parameters the service reads only the mode.
use traceroute_simulator.Prelude.{
  ℕ, String, ◌≡◌, refl, Bool, true, false, ◌&&◌, ◌||◌, Option, none, some, List, [], ◌∷◌, arith,
  ◌==◌, str_eq, eq_iff, eq_refl,
}

pub record Params : Type 0 where
  pub analysis_mode : Option String
  pub others : String

pub record Job : Type 0 where
  pub run_id : String
  pub username : String
  pub created_at : ℕ
  pub status : String
  pub params : Params
  pub analysis_mode : String
  pub type : String
  pub cancel_requested : Bool
  pub cancel_requested_by : Option String
  pub cancel_requested_at : Option ℕ

-- `params.get('analysis_mode', 'detailed')`
unfoldable pub mode_or_detailed : Params → String
mode_or_detailed p = elim p.analysis_mode [ none ↦ "detailed" | some m ↦ m ]

unfoldable pub is_mode : String → Bool
is_mode m = str_eq m "quick" || str_eq m "detailed"

unfoldable pub is_quick : Job → Bool
is_quick j = str_eq j.analysis_mode "quick"

abbrev opt_eq {ℓ} : {A : Type ℓ} → (A → A → Bool) → Option A → Option A → Bool
opt_eq e none none = true
opt_eq e (some a) (some b) = e a b
opt_eq e none (some b) = false
opt_eq e (some a) none = false

abbrev bool_eq : Bool → Bool → Bool
bool_eq true b = b
bool_eq false true = false
bool_eq false false = true

abbrev params_eq : Params → Params → Bool
params_eq p q = opt_eq str_eq p.analysis_mode q.analysis_mode && str_eq p.others q.others

-- `==` on the two dicts.
unfoldable pub job_eq : Job → Job → Bool
job_eq i j =
    str_eq i.run_id j.run_id
    && (str_eq i.username j.username
        && (i.created_at == j.created_at
            && (str_eq i.status j.status
                && (params_eq i.params j.params
                    && (str_eq i.analysis_mode j.analysis_mode
                        && (str_eq i.type j.type
                            && (bool_eq i.cancel_requested j.cancel_requested
                                && (opt_eq str_eq i.cancel_requested_by j.cancel_requested_by
                                    && opt_eq (λ a b. a == b) i.cancel_requested_at
                                        j.cancel_requested_at))))))))

-- `j in jobs`
unfoldable pub contains : Job → List Job → Bool
contains j [] = false
contains j (x ∷ xs) = job_eq x j || contains j xs

opt_eq_refl : (o : Option String) → opt_eq str_eq o o ≡ true
opt_eq_refl none = refl
opt_eq_refl (some s) = eq_refl s

opt_nat_eq_refl : (o : Option ℕ) → opt_eq (λ a b. a == b) o o ≡ true
opt_nat_eq_refl none = refl
opt_nat_eq_refl (some n) = ground arith

bool_eq_refl : (b : Bool) → bool_eq b b ≡ true
bool_eq_refl true = refl
bool_eq_refl false = refl

nat_eq_refl : (n : ℕ) → (n == n) ≡ true
nat_eq_refl n = ground arith

pub job_eq_refl : (j : Job) → job_eq j j ≡ true
unfolding job_eq
job_eq_refl j = simp (eq_refl, opt_eq_refl, opt_nat_eq_refl, bool_eq_refl, nat_eq_refl)

-- Equal jobs are of one run.
pub job_eq-run_id : (i j : Job) → job_eq i j ≡ true → i.run_id ≡ j.run_id
unfolding job_eq
job_eq-run_id i j h = ground (arith, eq_iff i.run_id j.run_id)

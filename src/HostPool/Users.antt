-- ===== src/HostPool/Users.antt =====
-- Who uses a host of the pool in wsgi/services/tsim_quick_job_host_pool_service.py: a host in use is
-- never removed.
use traceroute_simulator.Prelude.{
  ℕ, String, ◌≡◌, refl, sym, ap, ◌∙◌, inl, inr, Bool, true, false, not, ◌&&◌, ◌||◌, List, [], ◌∷◌,
  ◌++◌, arith, eq_iff, str_eq, if◌then◌else◌, Bool-cases, mem_str, keep, get, has, put, remove,
  get-put, get-remove, get-none_of_has, Dict,
}
use traceroute_simulator.HostPool.{
  Pool, add, discard, users, users_of, is_empty_set, in_use, use_host, use_hosts, release_host,
  release_job, unused, forget,
}

mem_str-append :
    (x : String) (xs : List String) (y : String)
    → mem_str x (xs ++ y ∷ []) ≡ (mem_str x xs || str_eq y x)
unfolding mem_str
mem_str-append x [] y = ground arith
mem_str-append x (z ∷ xs) y = ground (arith, mem_str-append x xs y)

mem_str-add : (x y : String) (s : List String) → mem_str y (add x s) ≡ (str_eq x y || mem_str y s)
unfolding add
mem_str-add x y s = elim (Bool-cases (mem_str x s)) [
  | inl e ↦ rw e (ground (arith, eq_iff x y))
  | inr e ↦ rw e (ground (arith, mem_str-append y s x))
]

mem_str-discard :
    (x y : String) (s : List String) → mem_str y (discard x s) ≡ (not (str_eq x y) && mem_str y s)
unfolding discard mem_str keep
mem_str-discard x y [] = ground arith
mem_str-discard x y (z ∷ s) =
    ground (arith, eq_iff x y, eq_iff z x, eq_iff z y, mem_str-discard x y s)

-- The job uses the host.
abbrev pub uses : String → String → Pool → Bool
uses job_id host p = mem_str job_id (users_of host p)

pub users-put :
    (h g : String) (s : List String) (d : Dict (List String))
    → users (get g (put h s d)) ≡ (if str_eq h g then s else users (get g d))
users-put h g s d = elim (Bool-cases (str_eq h g)) [
  | inl e ↦ rw (get-put, e)
  | inr e ↦ rw (get-put, e)
]

pub users-remove :
    (h g : String) (d : Dict (List String))
    → users (get g (remove h d)) ≡ (if str_eq h g then [] else users (get g d))
users-remove h g d = elim (Bool-cases (str_eq h g)) [
  | inl e ↦ rw (get-remove, e)
  | inr e ↦ rw (get-remove, e)
]

pub uses-use_host :
    (j k h g : String) (p : Pool)
    → uses k g (use_host j h p) ≡ (str_eq h g && str_eq j k || uses k g p)
unfolding users_of use_host
uses-use_host j k h g p = elim (Bool-cases (str_eq h g)) [
  | inl e ↦
      let same : h ≡ g = (eq_iff h g).0 e in
      ap (mem_str k) (users-put h g (add j (users (get h p.host_refcounts))) p.host_refcounts)
      ∙ rw e (mem_str-add j k (users (get h p.host_refcounts)) ∙ rw same)
  | inr e ↦
      ap (mem_str k) (users-put h g (add j (users (get h p.host_refcounts))) p.host_refcounts)
      ∙ rw e
]

unused_refcounts :
    (now : ℕ) (detailed : Bool) (h : String) (p : Pool)
    → (unused now detailed h p).host_refcounts ≡ p.host_refcounts
unused_refcounts now true h p = refl
unused_refcounts now false h p = refl

-- A release writes what is left of the host's users.
release_host_refcounts :
    (now : ℕ) (detailed : Bool) (j h : String) (p : Pool)
    → has h p.host_refcounts ≡ true
    → (release_host now detailed j h p).host_refcounts
      ≡ put h (discard j (users_of h p)) p.host_refcounts
unfolding release_host
release_host_refcounts now detailed j h p e =
    elim (Bool-cases (is_empty_set (discard j (users_of h p)))) [
      | inl last ↦ rw (e, last) (unused_refcounts now detailed h _)
      | inr more ↦ rw (e, more)
    ]

release_host_absent :
    (now : ℕ) (detailed : Bool) (j h : String) (p : Pool)
    → has h p.host_refcounts ≡ false
    → release_host now detailed j h p ≡ p
unfolding release_host
release_host_absent now detailed j h p e = rw e

pub uses-release_host :
    (now : ℕ) (detailed : Bool) (j k h g : String) (p : Pool)
    → uses k g (release_host now detailed j h p) ≡ (not (str_eq h g && str_eq j k) && uses k g p)
unfolding users_of mem_str
uses-release_host now detailed j k h g p = elim (Bool-cases (has h p.host_refcounts)) [
  | inl e ↦
      ap (λ d. mem_str k (users (get g d))) (release_host_refcounts now detailed j h p e)
      ∙ (ap (mem_str k)
            (users-put h g (discard j (users (get h p.host_refcounts))) p.host_refcounts)
          ∙ released)
  | inr e ↦ ap (uses k g) (release_host_absent now detailed j h p e) ∙ absent e
]
  where
    released :
        mem_str k (
          if str_eq h g
          then discard j (users (get h p.host_refcounts))
          else users (get g p.host_refcounts))
        ≡ (not (str_eq h g && str_eq j k) && uses k g p)
    released = elim (Bool-cases (str_eq h g)) [
      | inl same ↦
          let same_host : h ≡ g = (eq_iff h g).0 same in
          rw same (mem_str-discard j k (users (get h p.host_refcounts)) ∙ rw same_host)
      | inr differ ↦ rw differ
    ]

    absent :
        has h p.host_refcounts ≡ false → uses k g p ≡ (not (str_eq h g && str_eq j k) && uses k g p)
    absent e = elim (Bool-cases (str_eq h g)) [
      | inl same ↦
          let same_host : h ≡ g = (eq_iff h g).0 same in
          let no_user : uses k g p ≡ false =
            ap (λ x. mem_str k (users (get x p.host_refcounts))) (sym same_host)
            ∙ rw (get-none_of_has h p.host_refcounts e) refl in
          rw no_user (ground arith)
      | inr differ ↦ rw differ
    ]

pub in_use-uses : (j h : String) (p : Pool) → uses j h p ≡ true → in_use h p ≡ true
unfolding mem_str
in_use-uses j h p e = nonempty (users_of h p) e
  where
    nonempty : (s : List String) → mem_str j s ≡ true → not (is_empty_set s) ≡ true
    nonempty [] m = m
    nonempty (x ∷ s) m = refl

pub uses-use_hosts :
    (j k : String) (hosts : List String) (g : String) (p : Pool)
    → uses k g (use_hosts j hosts p) ≡ (mem_str g hosts && str_eq j k || uses k g p)
unfolding use_hosts mem_str
uses-use_hosts j k [] g p = refl
uses-use_hosts j k (h ∷ hosts) g p =
    ground (arith, uses-use_hosts j k hosts g (use_host j h p), uses-use_host j k h g p)

pub uses-release_job :
    (now : ℕ) (detailed : Bool) (j k : String) (hosts : List String) (g : String) (p : Pool)
    → uses k g (release_job now detailed j hosts p)
      ≡ (not (mem_str g hosts && str_eq j k) && uses k g p)
unfolding release_job mem_str
uses-release_job now detailed j k [] g p = refl
uses-release_job now detailed j k (h ∷ hosts) g p = ground (
  arith,
  uses-release_job now detailed j k hosts g (release_host now detailed j h p),
  uses-release_host now detailed j k h g p,
)

pub uses-forget :
    (j h g : String) (p : Pool) → uses j g (forget h p) ≡ (not (str_eq h g) && uses j g p)
unfolding users_of mem_str
uses-forget j h g p = elim (Bool-cases (str_eq h g)) [
  | inl e ↦ ap (mem_str j) (users-remove h g p.host_refcounts) ∙ rw e
  | inr e ↦ ap (mem_str j) (users-remove h g p.host_refcounts) ∙ rw e
]

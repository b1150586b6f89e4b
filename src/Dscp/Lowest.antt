-- ===== src/Dscp/Lowest.antt =====
-- The set `range(min, max + 1)` less the used values, and its least element.
use traceroute_simulator.Prelude.{
  ℕ, zero, suc, ◌+◌, ◌-◌, ◌≤◌, ◌<◌, min, ◌≡◌, refl, sym, subst, ◌↔◌, inl, inr, Bool, true, false,
  not, ◌&&◌, none, some, List, [], ◌∷◌, arith, leb, ◌==◌, leb→le, ==_iff, Bool-cases, Option-cases,
  keep, Dict,
}
use traceroute_simulator.Dscp.{
  Allocation, Config, range, mem, smallest, used_dscps, available_dscps,
}

mem-range : (a n x : ℕ) → (mem x (range a n) ≡ true) ↔ ((a ≤ x) × (x < a + n))
unfolding mem range
mem-range a zero x = (λ h. cc, λ h. absurd (omega arith))
mem-range a (suc n) x =
    (λ h. ground (arith, (mem-range (a + 1) n x).0), λ h. ground (arith, (mem-range (a + 1) n x).1))

mem-keep : (p : ℕ → Bool) (xs : List ℕ) (x : ℕ) → mem x (keep p xs) ≡ (mem x xs && p x)
unfolding mem keep
mem-keep p [] x = refl
mem-keep p (y ∷ xs) x = elim (Bool-cases (y == x)) [
  | inl same ↦
      let e : y ≡ x = (==_iff y x).0 same in
      subst (λ z. mem z (keep p (y ∷ xs)) ≡ (mem z (y ∷ xs) && p z)) e
        (ground (arith, mem-keep p xs y))
  | inr other ↦ ground (arith, mem-keep p xs x)
]

smallest-none : (xs : List ℕ) → smallest xs ≡ none → xs ≡ []
unfolding smallest
smallest-none [] h = refl
smallest-none (x ∷ xs) h = elim (Option-cases (smallest xs)) [
  | inl e ↦ let bad : some x ≡ none = rw e at h in cc
  | inr (y, e) ↦ let bad : some (min x y) ≡ none = rw e at h in cc
]

-- The least element is an element, and no element is less.
abbrev IsLeast : ℕ → List ℕ → Type 0
IsLeast m xs = (mem m xs ≡ true) × ((x : ℕ) → mem x xs ≡ true → m ≤ x)

IsLeast-one : (x : ℕ) → IsLeast x (x ∷ [])
unfolding mem
IsLeast-one x = (ground arith, λ y h. ground arith)

mem_here : (x : ℕ) (xs : List ℕ) → mem x (x ∷ xs) ≡ true
unfolding mem
mem_here x xs = ground arith

mem_there : (x y : ℕ) (xs : List ℕ) → mem y xs ≡ true → mem y (x ∷ xs) ≡ true
unfolding mem
mem_there x y xs h = ground arith

mem-min : (x y : ℕ) (xs : List ℕ) → mem y xs ≡ true → mem (min x y) (x ∷ xs) ≡ true
mem-min x y xs h = elim (Bool-cases (leb x y)) [
  | inl le ↦
      let e : x ≡ min x y = omega (arith, leb→le x y le) in
      subst (λ n. mem n (x ∷ xs) ≡ true) e (mem_here x xs)
  | inr gt ↦
      let e : y ≡ min x y = ground arith in
      subst (λ n. mem n (x ∷ xs) ≡ true) e (mem_there x y xs h)
]

IsLeast-cons : (x y : ℕ) (xs : List ℕ) → IsLeast y xs → IsLeast (min x y) (x ∷ xs)
unfolding mem
IsLeast-cons x y xs (found, least) = (mem-min x y xs found, λ z h. ground (arith, least z))

smallest-IsLeast : (xs : List ℕ) (m : ℕ) → smallest xs ≡ some m → IsLeast m xs
unfolding smallest
smallest-IsLeast [] m h = cc
smallest-IsLeast (x ∷ xs) m h = elim (Option-cases (smallest xs)) [
  | inl e ↦
      let is_x : some x ≡ some m = rw e at h in
      let empty = smallest-none xs e in
      subst (λ n. IsLeast n (x ∷ xs)) (cc is_x)
        (subst (λ l. IsLeast x (x ∷ l)) (sym empty) (IsLeast-one x))
  | inr (y, e) ↦
      let is_min : some (min x y) ≡ some m = rw e at h in
      subst (λ n. IsLeast n (x ∷ xs)) (cc is_min) (IsLeast-cons x y xs (smallest-IsLeast xs y e))
]

abbrev pub InRange : Config → ℕ → Type 0
InRange c n = (c.dscp_min ≤ n) × (n ≤ c.dscp_max)

module _ (c : Config) (d : Dict Allocation) where
  mem-available :
      (x : ℕ)
      → (mem x (available_dscps c d) ≡ true) ↔ (InRange c x × (mem x (used_dscps d) ≡ false))
  unfolding available_dscps
  mem-available x =
      let free = λ (n : ℕ). not (mem n (used_dscps d)) in
      let n = c.dscp_max + 1 - c.dscp_min in
      let e = mem-keep free (range c.dscp_min n) x in
      let r = mem-range c.dscp_min n x in (λ h. ground (arith, e, r.0), λ h. ground (arith, e, r.1))

  -- What is taken is in the range, unused, and below every other such value.
  pub smallest_available :
      (m : ℕ)
      → smallest (available_dscps c d) ≡ some m
      → InRange c m
        × (mem m (used_dscps d) ≡ false)
        × ((x : ℕ) → InRange c x → mem x (used_dscps d) ≡ false → m ≤ x)
  smallest_available m h =
      let (found, least) = smallest-IsLeast (available_dscps c d) m h in
      let (fits, free) = (mem-available m).0 found in
      (fits, free, λ x r u. least x ((mem-available x).1 (r, u)))

  -- Nothing is available only if every value of the range is used.
  pub none_available :
      smallest (available_dscps c d) ≡ none → (x : ℕ) → InRange c x → mem x (used_dscps d) ≡ true
  unfolding mem
  none_available h x r = elim (Bool-cases (mem x (used_dscps d))) [
    | inl used ↦ used
    | inr free ↦
        let absent : mem x [] ≡ true =
          subst (λ l. mem x l ≡ true) (smallest-none (available_dscps c d) h)
            ((mem-available x).1 (r, free)) in
        cc absent
  ]

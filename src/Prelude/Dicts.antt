-- ===== src/Prelude/Dicts.antt =====
-- Python's `dict` with text keys, as an association list in insertion order.
-- An assignment to a key that is there keeps the key's place.
use Prim.Native.Nat.{◌+◌, ◌≤◌}
use Prim.Native.String.{String}
use mathlib.Core.Path.{◌≡◌, refl, subst}
use mathlib.Core.Logic.{◌≢◌, inl, inr}
use mathlib.Core.Bool.{Bool, true, false}
use mathlib.Core.Option.{Option, none, some}
use mathlib.Core.List.{List, [], ◌∷◌}
use native.Mathlib.Omega.{arith}
use text.Mathlib.TextEquality.{eq_iff}
use text.Mathlib.TextPositions.{eq_refl}
use traceroute_simulator.Prelude.Tests.{str_eq, Bool-cases, if◌then◌else◌}
use traceroute_simulator.Prelude.Lists.{All, Distinct, length}

abbrev pub Dict {ℓ} : Type ℓ → Type ℓ
Dict V = List (String × V)

module _ {ℓ} {V : Type ℓ} where
  -- `d.get(k)`
  unfoldable pub get : String → Dict V → Option V
  get k [] = none
  get k ((j, v) ∷ d) = let rest = get k d in if str_eq j k then some v else rest

  -- `k in d`
  unfoldable pub has : String → Dict V → Bool
  has k [] = false
  has k ((j, v) ∷ d) = let rest = has k d in if str_eq j k then true else rest

  -- `d[k] = v`
  unfoldable pub put : String → V → Dict V → Dict V
  put k v [] = (k, v) ∷ []
  put k v ((j, w) ∷ d) = let rest = put k v d in if str_eq j k then (j, v) ∷ d else (j, w) ∷ rest

  -- `del d[k]`
  unfoldable pub remove : String → Dict V → Dict V
  remove k [] = []
  remove k ((j, w) ∷ d) = let rest = remove k d in if str_eq j k then rest else (j, w) ∷ rest

  abbrev pub keys : Dict V → List String
  keys [] = []
  keys ((k, v) ∷ d) = k ∷ keys d

  abbrev pub values : Dict V → List V
  values [] = []
  values ((k, v) ∷ d) = v ∷ values d

  pub get-put :
      (k j : String) (v : V) (d : Dict V)
      → get j (put k v d) ≡ (if str_eq k j then some v else get j d)
  unfolding get put
  get-put k j v [] = refl
  get-put k j v ((i, w) ∷ d) = ground (arith, eq_iff k j, eq_iff i k, eq_iff i j, get-put k j v d)

  pub get-remove :
      (k j : String) (d : Dict V) → get j (remove k d) ≡ (if str_eq k j then none else get j d)
  unfolding get remove
  get-remove k j [] = ground arith
  get-remove k j ((i, w) ∷ d) = ground (arith, eq_iff k j, eq_iff i k, eq_iff i j, get-remove k j d)

  pub has-eq-get : (k : String) (d : Dict V) → has k d ≡ true → get k d ≢ none
  unfolding has get
  has-eq-get k [] h = cc
  has-eq-get k ((j, v) ∷ d) h = ground (arith, has-eq-get k d)

  pub get-none_of_has : (k : String) (d : Dict V) → has k d ≡ false → get k d ≡ none
  unfolding has get
  get-none_of_has k [] h = refl
  get-none_of_has k ((j, v) ∷ d) h = ground (arith, get-none_of_has k d)

  pub has-put :
      (k j : String) (v : V) (d : Dict V)
      → has j (put k v d) ≡ (if str_eq k j then true else has j d)
  unfolding has put
  has-put k j v [] = refl
  has-put k j v ((i, w) ∷ d) = ground (arith, eq_iff k j, eq_iff i k, eq_iff i j, has-put k j v d)

  pub has-remove :
      (k j : String) (d : Dict V) → has j (remove k d) ≡ (if str_eq k j then false else has j d)
  unfolding has remove
  has-remove k j [] = ground arith
  has-remove k j ((i, w) ∷ d) = ground (arith, eq_iff k j, eq_iff i k, eq_iff i j, has-remove k j d)

  -- A second assignment to a key replaces the first.
  pub put-put : (k : String) (v w : V) (d : Dict V) → put k v (put k w d) ≡ put k v d
  unfolding put
  put-put k v w [] = simp (eq_refl)
  put-put k v w ((i, x) ∷ d) = ground (arith, eq_iff i k, put-put k v w d)

  pub length-put_le : (k : String) (v : V) (d : Dict V) → length (put k v d) ≤ length d + 1
  unfolding put
  length-put_le k v [] = omega arith
  length-put_le k v ((i, x) ∷ d) = ground (arith, length-put_le k v d)

  pub length-remove_le : (k : String) (d : Dict V) → length (remove k d) ≤ length d
  unfolding remove
  length-remove_le k [] = omega arith
  length-remove_le k ((i, x) ∷ d) = ground (arith, length-remove_le k d)

  pub All-keys-remove :
      (P : String → Type 0) (k : String) (d : Dict V) → All P (keys d) → All P (keys (remove k d))
  unfolding remove
  All-keys-remove P k [] h = tt
  All-keys-remove P k ((j, w) ∷ d) h = ground (arith, All-keys-remove P k d h.1)

  pub All-values-remove {κ} :
      (P : V → Type κ) (k : String) (d : Dict V) → All P (values d) → All P (values (remove k d))
  unfolding remove
  All-values-remove P k [] h = tt
  All-values-remove P k ((j, w) ∷ d) h = ground (arith, All-values-remove P k d h.1)

  pub Distinct-keys-remove :
      (k : String) (d : Dict V) → Distinct (keys d) → Distinct (keys (remove k d))
  unfolding remove
  Distinct-keys-remove k [] h = tt
  Distinct-keys-remove k ((j, w) ∷ d) h =
      ground (arith, Distinct-keys-remove k d h.1, All-keys-remove (λ y. y ≢ j) k d h.0)

  pub All-keys-put :
      (P : String → Type 0) (k : String) (v : V) (d : Dict V)
      → P k
      → All P (keys d)
      → All P (keys (put k v d))
  unfolding put
  All-keys-put P k v [] p h = (p, tt)
  All-keys-put P k v ((j, w) ∷ d) p h = ground (arith, All-keys-put P k v d p h.1)

  pub Distinct-keys-put :
      (k : String) (v : V) (d : Dict V) → Distinct (keys d) → Distinct (keys (put k v d))
  unfolding put
  Distinct-keys-put k v [] h = (tt, tt)
  Distinct-keys-put k v ((j, w) ∷ d) h = ground (
    arith,
    eq_iff j k,
    Distinct-keys-put k v d h.1,
    λ (ne : k ≢ j). All-keys-put (λ y. y ≢ j) k v d ne h.0,
  )

  -- The values of a dict with a new key are the old ones and the new one.
  pub put_new_All-values {κ} :
      (P : V → Type κ) (k : String) (v : V) (d : Dict V)
      → P v
      → All P (values d)
      → All P (values (put k v d))
  unfolding put
  put_new_All-values P k v [] p h = (p, tt)
  put_new_All-values P k v ((j, w) ∷ d) p h = ground (arith, put_new_All-values P k v d p h.1)

  pub get-All-values {κ} :
      (P : V → Type κ) (k : String) (d : Dict V) {v : V} → All P (values d) → get k d ≡ some v → P v
  unfolding get
  get-All-values P k [] h e = cc
  get-All-values P k ((j, w) ∷ d) {v} h e = elim (Bool-cases (str_eq j k)) [
    | inl same ↦ let stored : some w ≡ some v = rw same at e in subst P (cc stored) h.0
    | inr other ↦ get-All-values P k d h.1 (rw other at e)
  ]

pub ruleset dict_laws = (get-put, get-remove, eq_refl)

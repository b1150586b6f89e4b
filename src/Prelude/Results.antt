-- ===== src/Prelude/Results.antt =====
-- Python exceptions as values. The messages are not modelled, the classes are.
use mathlib.Core.Path.{◌≡◌, refl}
use mathlib.Core.Logic.{◌⊎◌, inl, inr}
use mathlib.Core.Bool.{Bool, true, false}

pub data Exception : Type 0 where
  value_error runtime_error key_error type_error recursion_error lock_timeout collision : Exception

pub data Result {ℓ} (A : Type ℓ) : Type ℓ where
  raise : Exception → Result A
  ok : A → Result A

-- `if not b: raise e`
abbrev pub require : Bool → Exception → Result (Unit {0})
require false e = raise e
require true e = ok tt

module _ {ℓ} {A : Type ℓ} where
  pub Result-cases : (r : Result A) → ((e : Exception) × (r ≡ raise e)) ⊎ ((a : A) × (r ≡ ok a))
  Result-cases (raise e) = inl (e, refl)
  Result-cases (ok a) = inr (a, refl)

  pub ok_inj : {a b : A} → ok a ≡ ok b → a ≡ b
  ok_inj h = cc h

infixl 5 ◌>>=◌ ◌>>◌
-- An exception ends the block.
abbrev pub ◌>>=◌ {ℓ κ} : {A : Type ℓ} {B : Type κ} → Result A → (A → Result B) → Result B
raise e >>= next = raise e
ok a >>= next = next a

module _ {ℓ κ} {A : Type ℓ} {B : Type κ} where
  -- A block that answers has answers at both steps.
  pub >>=-eq-ok :
      (first : Result A) (next : A → Result B) {b : B}
      → (first >>= next) ≡ ok b
      → (a : A) × (first ≡ ok a) × (next a ≡ ok b)
  >>=-eq-ok (raise e) next h = cc
  >>=-eq-ok (ok a) next h = (a, refl, h)

abbrev pub ◌>>◌ {ℓ} : {B : Type ℓ} → Result (Unit {0}) → Result B → Result B
done >> next = done >>= λ _. next

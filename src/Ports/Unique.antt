-- ===== src/Ports/Unique.antt =====
-- The removal of duplicates in wsgi/services/tsim_port_parser_service.py.
use traceroute_simulator.Prelude.{
  ◌≡◌, refl, sym, ap, ◌∙◌, inl, inr, Bool, true, false, not, ◌&&◌, ◌||◌, List, [], ◌∷◌, arith,
  eq_iff, eq_refl, Bool-cases, if_ind, All,
}
use traceroute_simulator.Ports.{Port, port_eq, mem_port, unique_from}

-- Each port stands once.
abbrev pub OnceEach : List Port → Type 0
OnceEach [] = Unit
OnceEach (p ∷ ps) = (mem_port p ps ≡ false) × OnceEach ps

pub port_eq-same : (p q : Port) → port_eq p q ≡ true → p ≡ q
port_eq-same (a, s) (b, t) h =
    let ports : a ≡ b = ground arith in
    let protocols : s ≡ t = ground (arith, eq_iff s t) in cc (ports, protocols)

pub port_eq-itself : (p : Port) → port_eq p p ≡ true
port_eq-itself (a, s) = ground (arith, eq_refl s)

same_membership :
    (x p : Port) (seen : List Port) → port_eq x p ≡ true → mem_port x seen ≡ mem_port p seen
same_membership x p seen h = ap (λ q. mem_port q seen) (port_eq-same x p h)

again_Bool : (e m s : Bool) → (e ≡ true → s ≡ true) → (m && not s) ≡ ((e || m) && not s)
again_Bool e m s h = ground (arith, h)

first_Bool :
    (e m s : Bool) → (e ≡ true → s ≡ false) → (e || m && not (e || s)) ≡ ((e || m) && not s)
first_Bool e m s h = ground (arith, h)

-- What is left is what was there and was not seen before.
pub mem_port-unique_from :
    (p : Port) (seen ps : List Port)
    → mem_port p (unique_from seen ps) ≡ (mem_port p ps && not (mem_port p seen))
unfolding unique_from mem_port
mem_port-unique_from p seen [] = refl
mem_port-unique_from p seen (x ∷ ps) = elim (Bool-cases (mem_port x seen)) [
  | inl again ↦
      rw (again, mem_port-unique_from p seen ps)
        (again_Bool (port_eq x p) (mem_port p ps) (mem_port p seen)
          (λ e. sym (same_membership x p seen e) ∙ again))
  | inr new ↦
      rw (new, mem_port-unique_from p (x ∷ seen) ps)
        (first_Bool (port_eq x p) (mem_port p ps) (mem_port p seen)
          (λ e. sym (same_membership x p seen e) ∙ new))
]

gone : (m e s : Bool) {b : Bool} → e ≡ true → b ≡ (m && not (e || s)) → b ≡ false
gone m e s h k = ground (arith, h, k)

pub unique_from-OnceEach : (seen ps : List Port) → OnceEach (unique_from seen ps)
unfolding unique_from mem_port
unique_from-OnceEach seen [] = tt
unique_from-OnceEach seen (x ∷ ps) =
    if_ind OnceEach (mem_port x seen) (λ _. unique_from-OnceEach seen ps)
      (λ _. (
        gone (mem_port x ps) (port_eq x x) (mem_port x seen) (port_eq-itself x)
            (mem_port-unique_from x (x ∷ seen) ps),
        unique_from-OnceEach (x ∷ seen) ps,
      ))

pub unique_from-All :
    (P : Port → Type 0) (seen ps : List Port) → All P ps → All P (unique_from seen ps)
unfolding unique_from
unique_from-All P seen [] h = tt
unique_from-All P seen (x ∷ ps) h =
    if_ind (All P) (mem_port x seen) (λ _. unique_from-All P seen ps h.1)
      (λ _. (h.0, unique_from-All P (x ∷ seen) ps h.1))

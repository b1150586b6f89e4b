-- ===== src/Ports/Stands.antt =====
-- What the parts of a specification stand for in wsgi/services/tsim_port_parser_service.py, beside
-- what the loop of `parse_port_spec` makes of them.
use Prim.Native.Char.{Char}
use traceroute_simulator.Prelude.{
  ℕ, zero, suc, ◌+◌, ◌-◌, ◌≤◌, ◌<◌, String, ◌≡◌, refl, sym, subst, ◌≢◌, ◌↔◌, ◌⊎◌, inl, inr, Bool,
  true, false, ◌&&◌, ◌||◌, Option, none, some, List, [], ◌∷◌, ◌++◌, arith, leb, leb→le, Bool-cases,
  Option-cases, eq_iff, str_eq, Exception, value_error, Result, raise, ok, require, mem_str, ok_inj,
  >>=-eq-ok, ◌>>◌, get,
}
use traceroute_simulator.Ports.{
  Port, port_eq, common_ports, is_empty_text, service_match, validate_port, validate_protocol,
  protocol_or, ports_from, mem_port, strip, port_spec_match, port_range_match, single_port,
  port_range, service, port_or_more, parse_one, parse_each, valid_default,
}
use traceroute_simulator.Ports.Unique.{port_eq-same, port_eq-itself}

pub require-ok :
    {A : Type 0} (b : Bool) (e : Exception) (next : Result A) {a : A}
    → (require b e >> next) ≡ ok a
    → (b ≡ true) × (next ≡ ok a)
require-ok true e next h = (refl, h)
require-ok false e next h = cc

-- The protocol that is written, or else the default.
abbrev pub HasProtocol : String → Option String → String → Type 0
HasProtocol default none protocol = protocol ≡ default
HasProtocol default (some name) protocol = protocol ≡ name

-- The default is udp where that is asked for, and else tcp.
abbrev pub IsDefault : String → String → Type 0
IsDefault asked default = (asked ≡ "udp") × (default ≡ "udp") ⊎ (asked ≢ "udp") × (default ≡ "tcp")

module _ (digit : Char → Option ℕ) (is_space : Char → Bool) (lower : String → String) where
  -- A port of one part: the port that is written, one from the start to the end of a range, or the
  -- port of a service.
  pub data Stands (default spec : String) (p : Port) : Type 0 where
    by_number :
        (name : Option String)
        → port_spec_match digit is_space lower spec ≡ some (p.0, name)
        → HasProtocol default name p.1
        → Stands default spec p
    by_range :
        (start end : ℕ) (name : Option String)
        → port_spec_match digit is_space lower spec ≡ none
        → port_range_match digit is_space lower spec ≡ some (start, end, name)
        → start ≤ p.0
        → p.0 ≤ end
        → HasProtocol default name p.1
        → Stands default spec p
    by_name :
        (name : String)
        → port_spec_match digit is_space lower spec ≡ none
        → port_range_match digit is_space lower spec ≡ none
        → service_match (lower spec) ≡ some name
        → get name common_ports ≡ some p
        → Stands default spec p

  -- A port of some part that is not blank.
  abbrev pub StandsIn : String → Port → List String → Type 0
  StandsIn default p [] = ⊥
  StandsIn default p (spec ∷ specs) =
      ((is_empty_text (strip digit is_space lower spec) ≡ false)
        × Stands default (strip digit is_space lower spec) p)
      ⊎ StandsIn default p specs

  HasProtocol-protocol_or :
      (default : String) (name : Option String)
      → HasProtocol default name (protocol_or default name)
  HasProtocol-protocol_or default none = refl
  HasProtocol-protocol_or default (some name) = refl

  HasProtocol-eq :
      (default protocol : String) (name : Option String)
      → HasProtocol default name protocol
      → protocol ≡ protocol_or default name
  HasProtocol-eq default protocol none h = h
  HasProtocol-eq default protocol (some name) h = h

  -- A list has what a part stands for, and nothing else.
  abbrev Shows : String → String → List Port → Type 0
  Shows default spec ps = (p : Port) → (mem_port p ps ≡ true) ↔ Stands default spec p

  mem_port-one : (q p : Port) → (mem_port p (q ∷ []) ≡ true) ↔ (q ≡ p)
  unfolding mem_port
  mem_port-one q p = (
    λ h. port_eq-same q p (ground (arith, h)),
    λ e. subst (λ r. (port_eq q r || false) ≡ true) e (ground (arith, port_eq-itself q)),
  )

  mem_port-append :
      (p : Port) (ps qs : List Port) → mem_port p (ps ++ qs) ≡ (mem_port p ps || mem_port p qs)
  unfolding mem_port
  mem_port-append p [] qs = refl
  mem_port-append p (q ∷ ps) qs = ground (arith, mem_port-append p ps qs)

  mem_port-from :
      (protocol : String) (start n : ℕ) (p : Port)
      → (mem_port p (ports_from protocol start n) ≡ true)
        ↔ ((start ≤ p.0) × (p.0 < start + n) × (p.1 ≡ protocol))
  unfolding mem_port ports_from
  mem_port-from protocol start zero p = ((λ h. cc), (λ h. absurd (omega (arith, h.0, h.1))))
  mem_port-from protocol start (suc n) (port, name) =
      let rest = mem_port-from protocol (suc start) n (port, name) in
      (
        λ h. ground (arith, h, rest.0, eq_iff protocol name),
        λ h. ground (arith, h, rest.1, eq_iff protocol name),
      )

  -- Where the number is written.
  single_port-Shows :
      (default spec : String) (n : ℕ) (name : Option String) (ps : List Port)
      → port_spec_match digit is_space lower spec ≡ some (n, name)
      → single_port digit is_space lower n (protocol_or default name) ≡ ok ps
      → Shows default spec ps
  single_port-Shows default spec n name ps e h p =
      let (valid, h1) = require-ok (validate_port n) value_error _ h in
      let (proto, made) =
        require-ok (validate_protocol lower (protocol_or default name)) value_error _ h1 in
      let one = mem_port-one (n, protocol_or default name) p in
      subst (λ qs. (mem_port p qs ≡ true) ↔ Stands default spec p) (ok_inj made)
        (
          (λ m.
              subst (Stands default spec) (one.0 m)
                (by_number name e (HasProtocol-protocol_or default name))),
          (λ s. one.1 (only_number s)),
        )
    where
      only_number : Stands default spec p → (n, protocol_or default name) ≡ p
      only_number (by_number name' e' w) = cc (e, e', HasProtocol-eq default p.1 name' w)
      only_number (by_range start end name' none' e' l r w) = cc (e, none')
      only_number (by_name name' none' e' f g) = cc (e, none')

  -- Where a range is written.
  port_range-Shows :
      (default spec : String) (start end : ℕ) (name : Option String) (ps : List Port)
      → port_spec_match digit is_space lower spec ≡ none
      → port_range_match digit is_space lower spec ≡ some (start, end, name)
      → port_range digit is_space lower start end (protocol_or default name) ≡ ok ps
      → Shows default spec ps
  port_range-Shows default spec start end name ps none_there e h p =
      let (both, h1) = require-ok (validate_port start && validate_port end) value_error _ h in
      let (order, h2) = require-ok (leb start end) value_error _ h1 in
      let (few, h3) = require-ok (leb (end - start) 100) value_error _ h2 in
      let (v, made) =
        require-ok (validate_protocol lower (protocol_or default name)) value_error _ h3 in
      let le = leb→le start end order in
      let span = mem_port-from (protocol_or default name) start (end + 1 - start) p in
      subst (λ qs. (mem_port p qs ≡ true) ↔ Stands default spec p) (ok_inj made)
        (
          (λ m.
              let (l, r, w) = span.0 m in
              by_range start end name none_there e l (omega (arith, r, le))
                (subst (HasProtocol default name) (sym w) (HasProtocol-protocol_or default name))),
          (λ s. span.1 (within le s)),
        )
    where
      within :
          start ≤ end
          → Stands default spec p
          → (start ≤ p.0) × (p.0 < start + (end + 1 - start)) × (p.1 ≡ protocol_or default name)
      within le (by_number name' e' w) = cc (none_there, e')
      within le (by_range start' end' name' none' e' l r w) =
          let starts : start ≡ start' = cc (e, e') in
          let ends : end ≡ end' = cc (e, e') in
          (
            omega (arith, starts, l),
            omega (arith, ends, r, le),
            cc (e, e', HasProtocol-eq default p.1 name' w),
          )
      within le (by_name name' none' no_range f g) = cc (e, no_range)

  -- Where a service is named.
  service-Shows :
      (default spec : String) (o : Option String) (ps : List Port)
      → port_spec_match digit is_space lower spec ≡ none
      → port_range_match digit is_space lower spec ≡ none
      → service_match (lower spec) ≡ o
      → service digit is_space lower o ≡ ok ps
      → Shows default spec ps
  service-Shows default spec none ps no_number no_range e h p = cc
  service-Shows default spec (some name) ps no_number no_range e h p =
      elim (Option-cases (get name common_ports)) [
        | inl unknown ↦ let never : raise value_error ≡ ok ps = rw unknown at h in cc never
        | inr (q, known) ↦
            let made : ok (q ∷ []) ≡ ok ps = rw known at h in
            let one = mem_port-one q p in
            subst (λ qs. (mem_port p qs ≡ true) ↔ Stands default spec p) (ok_inj made)
              (
                (λ m.
                    subst (Stands default spec) (one.0 m)
                      (by_name name no_number no_range e known)),
                (λ s. one.1 (only_service q known s)),
              )
      ]
    where
      only_service : (q : Port) → get name common_ports ≡ some q → Stands default spec p → q ≡ p
      only_service q known (by_number name' e' w) = cc (no_number, e')
      only_service q known (by_range start end name' none' e' l r w) = cc (no_range, e')
      only_service q known (by_name name' n' r' e' known') =
          let same : name ≡ name' = cc (e, e') in cc (same, known, known')

  more-Shows :
      (default spec : String) (o : Option (ℕ × Option String)) (ps : List Port)
      → port_spec_match digit is_space lower spec ≡ o
      → port_or_more digit is_space lower default spec o ≡ ok ps
      → Shows default spec ps
  more-Shows default spec (some (n, name)) ps e h = single_port-Shows default spec n name ps e h
  more-Shows default spec none ps e h =
      elim (Option-cases (port_range_match digit is_space lower spec)) [
        | inl no_range ↦
            service-Shows default spec (service_match (lower spec)) ps e no_range refl
              (rw no_range at h)
        | inr ((start, end, name), matched) ↦
            port_range-Shows default spec start end name ps e matched (rw matched at h)
      ]

  parse_one-Shows :
      (default spec : String) (ps : List Port)
      → parse_one digit is_space lower default spec ≡ ok ps
      → (p : Port) → (mem_port p ps ≡ true) ↔ ((is_empty_text spec ≡ false) × Stands default spec p)
  unfolding parse_one mem_port
  parse_one-Shows default spec ps h p = elim (Bool-cases (is_empty_text spec)) [
    | inl empty ↦
        let same : ok [] ≡ ok ps = rw empty at h in
        subst
          (λ qs. (mem_port p qs ≡ true) ↔ ((is_empty_text spec ≡ false) × Stands default spec p))
          (ok_inj same) ((λ m. cc), (λ s. cc (empty, s.0)))
    | inr given ↦
        let (to, from) =
          more-Shows default spec (port_spec_match digit is_space lower spec) ps refl
            (rw given at h) p in
        ((λ m. (given, to m)), (λ s. from s.1))
  ]

  none_in : (p : Port) → mem_port p [] ≡ true → ⊥
  unfolding mem_port
  none_in p m = cc

  pub parse_each-Stands :
      (default : String) (specs : List String) (ps : List Port)
      → parse_each digit is_space lower default specs ≡ ok ps
      → (p : Port) → (mem_port p ps ≡ true) ↔ StandsIn default p specs
  unfolding parse_each
  parse_each-Stands default [] ps h p =
      subst (λ qs. (mem_port p qs ≡ true) ↔ StandsIn default p []) (ok_inj h)
        ((λ m. none_in p m), (λ s. absurd s))
  parse_each-Stands default (spec ∷ specs) ps h p =
      let (now, made, rest) =
        >>=-eq-ok (parse_one digit is_space lower default (strip digit is_space lower spec)) _ h in
      let (more, others, same) = >>=-eq-ok (parse_each digit is_space lower default specs) _ rest in
      let (to, from) = parse_one-Shows default (strip digit is_space lower spec) now made p in
      let (to', from') = parse_each-Stands default specs more others p in
      let both = mem_port-append p now more in
      subst (λ qs. (mem_port p qs ≡ true) ↔ StandsIn default p (spec ∷ specs)) (ok_inj same)
        (
          (λ m. elim (Bool-cases (mem_port p now)) [
            | inl here ↦ inl (to here)
            | inr elsewhere ↦ inr (to' (ground (arith, m, both, elsewhere)))
          ]),
          (λ s. elim s [
            | inl here ↦ let m = from here in ground (arith, both, m)
            | inr there ↦ let m = from' there in ground (arith, both, m)
          ]),
        )

  pub valid_default-IsDefault :
      (asked : String) → IsDefault asked (valid_default digit is_space lower asked)
  unfolding mem_str
  valid_default-IsDefault asked = elim (Bool-cases (str_eq asked "udp")) [
    | inl u ↦
        let e = (eq_iff asked "udp").0 u in
        inl (e, subst (λ d. valid_default digit is_space lower d ≡ "udp") (sym e) refl)
    | inr u ↦ inr (
      (λ e. cc (u, (eq_iff asked "udp").1 e)),
      elim (Bool-cases (str_eq asked "tcp")) [
        | inl t ↦
            subst (λ d. valid_default digit is_space lower d ≡ "tcp")
              (sym ((eq_iff asked "tcp").0 t)) refl
        | inr t ↦ ground (
          arith,
          u,
          t,
          eq_iff asked "tcp",
          eq_iff asked "udp",
          eq_iff "tcp" asked,
          eq_iff "udp" asked,
        )
      ],
    )
  ]

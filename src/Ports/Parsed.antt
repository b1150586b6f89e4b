-- ===== src/Ports/Parsed.antt =====
-- What `parse_port_spec` of wsgi/services/tsim_port_parser_service.py answers.
use Prim.Native.Char.{Char}
use traceroute_simulator.Prelude.{
  ℕ, zero, suc, ◌+◌, ◌-◌, ◌≤◌, String, ◌≡◌, refl, sym, ap, subst, ◌∙◌, ◌↔◌, inl, inr, Bool, true,
  not, ◌&&◌, Option, none, some, List, [], ◌∷◌, arith, leb, leb→le, Bool-cases, Option-cases,
  length, All, All-append, value_error, Result, raise, ok, ok_inj, >>=-eq-ok, get, values,
  get-All-values,
}
use traceroute_simulator.Ip.V4.{split, at_most}
use traceroute_simulator.Ports.{
  Port, common_ports, is_empty_text, service_match, validate_port, validate_protocol, protocol_or,
  ports_from, mem_port, unique_from, number_from, strip, port_spec_match, port_range_match,
  single_port, port_range, service, port_or_more, parse_one, parse_each, valid_default,
  unique_ports, parse_port_spec, checked_port, parse_port_protocol_string,
}
use traceroute_simulator.Ports.Stands.{
  require-ok, IsDefault, StandsIn, parse_each-Stands, valid_default-IsDefault,
}
use traceroute_simulator.Ports.Unique.{
  OnceEach, mem_port-unique_from, unique_from-OnceEach, unique_from-All,
}

seen_none : (p : Port) (qs : List Port) → (mem_port p qs && not (mem_port p [])) ≡ mem_port p qs
unfolding mem_port
seen_none p qs = ground arith

module _ (digit : Char → Option ℕ) (is_space : Char → Bool) (lower : String → String) where
  -- A port number, with the protocol tcp or udp.
  abbrev pub IsPort : Port → Type 0
  IsPort (port, protocol) = (1 ≤ port) × (port ≤ 65535) × (validate_protocol lower protocol ≡ true)

  ports_from-IsPort :
      (protocol : String) (start n : ℕ)
      → 1 ≤ start
      → start + n ≤ 65536
      → validate_protocol lower protocol ≡ true
      → All IsPort (ports_from protocol start n)
  unfolding ports_from
  ports_from-IsPort protocol start zero l h v = tt
  ports_from-IsPort protocol start (suc n) l h v = (
    (l, omega (arith, h), v),
    ports_from-IsPort protocol (suc start) n (omega arith) (omega (arith, h)) v,
  )

  abbrev Good : Result (List Port) → Type 0
  Good r = (ps : List Port) → r ≡ ok ps → All IsPort ps

  single_port-Good :
      (port : ℕ) (protocol : String) → Good (single_port digit is_space lower port protocol)
  unfolding validate_port
  single_port-Good port protocol ps h =
      let (p, rest) = require-ok (validate_port port) value_error _ h in
      let (v, made) = require-ok (validate_protocol lower protocol) value_error _ rest in
      subst (All IsPort) (ok_inj made) ((ground (arith, p), ground (arith, p), v), tt)

  port_range-Good :
      (start end : ℕ) (protocol : String)
      → Good (port_range digit is_space lower start end protocol)
  unfolding validate_port
  port_range-Good start end protocol ps h =
      let (both, h1) = require-ok (validate_port start && validate_port end) value_error _ h in
      let (order, h2) = require-ok (leb start end) value_error _ h1 in
      let (few, h3) = require-ok (leb (end - start) 100) value_error _ h2 in
      let (v, made) = require-ok (validate_protocol lower protocol) value_error _ h3 in
      subst (All IsPort) (ok_inj made) (
        ports_from-IsPort protocol start (end + 1 - start) (ground (arith, both))
          (ground (arith, both, order)) v)

  common_ports-IsPort :
      validate_protocol lower "tcp" ≡ true
      → validate_protocol lower "udp" ≡ true
      → All IsPort (values common_ports)
  common_ports-IsPort t u = (
    (omega arith, omega arith, t),
    (
      (omega arith, omega arith, t),
      (
        (omega arith, omega arith, t),
        (
          (omega arith, omega arith, t),
          (
            (omega arith, omega arith, u),
            (
              (omega arith, omega arith, t),
              (
                (omega arith, omega arith, t),
                (
                  (omega arith, omega arith, t),
                  (
                    (omega arith, omega arith, t),
                    (
                      (omega arith, omega arith, t),
                      (
                        (omega arith, omega arith, t),
                        (
                          (omega arith, omega arith, t),
                          (
                            (omega arith, omega arith, t),
                            ((omega arith, omega arith, t), ((omega arith, omega arith, t), tt)),
                          ),
                        ),
                      ),
                    ),
                  ),
                ),
              ),
            ),
          ),
        ),
      ),
    ),
  )

  service-Good :
      validate_protocol lower "tcp" ≡ true
      → validate_protocol lower "udp" ≡ true
      → (name : Option String) → Good (service digit is_space lower name)
  service-Good t u none ps h = cc
  service-Good t u (some name) ps h = elim (Option-cases (get name common_ports)) [
    | inl unknown ↦ let never : raise value_error ≡ ok ps = rw unknown at h in cc never
    | inr (p, known) ↦
        let same : ok (p ∷ []) ≡ ok ps = rw known at h in
        subst (All IsPort) (ok_inj same)
          (get-All-values IsPort name common_ports (common_ports-IsPort t u) known, tt)
  ]

  more_Good :
      validate_protocol lower "tcp" ≡ true
      → validate_protocol lower "udp" ≡ true
      → (default spec : String) (o : Option (ℕ × Option String))
      → Good (port_or_more digit is_space lower default spec o)
  more_Good t u default spec (some (port, p)) ps h =
      single_port-Good port (protocol_or default p) ps h
  more_Good t u default spec none ps h =
      elim (Option-cases (port_range_match digit is_space lower spec)) [
        | inl no_range ↦ service-Good t u (service_match (lower spec)) ps (rw no_range at h)
        | inr ((start, end, p), matched) ↦
            port_range-Good start end (protocol_or default p) ps (rw matched at h)
      ]

  parse_one-Good :
      validate_protocol lower "tcp" ≡ true
      → validate_protocol lower "udp" ≡ true
      → (default spec : String) → Good (parse_one digit is_space lower default spec)
  unfolding parse_one
  parse_one-Good t u default spec ps h = elim (Bool-cases (is_empty_text spec)) [
    | inl empty ↦ let same : ok [] ≡ ok ps = rw empty at h in subst (All IsPort) (ok_inj same) tt
    | inr given ↦
        more_Good t u default spec (port_spec_match digit is_space lower spec) ps (rw given at h)
  ]

  parse_each-Good :
      validate_protocol lower "tcp" ≡ true
      → validate_protocol lower "udp" ≡ true
      → (default : String) (specs : List String)
      → Good (parse_each digit is_space lower default specs)
  unfolding parse_each
  parse_each-Good t u default [] ps h = subst (All IsPort) (ok_inj h) tt
  parse_each-Good t u default (spec ∷ specs) ps h =
      let (here, made, rest) =
        >>=-eq-ok (parse_one digit is_space lower default (strip digit is_space lower spec)) _ h in
      let (more, others, same) = >>=-eq-ok (parse_each digit is_space lower default specs) _ rest in
      subst (All IsPort) (ok_inj same) (
        All-append IsPort here more
          (parse_one-Good t u default (strip digit is_space lower spec) here made)
          (parse_each-Good t u default specs more others))

  unique_ports-ok :
      (max_services : ℕ) (expanded ps : List Port)
      → unique_ports digit is_space lower max_services expanded ≡ ok ps
      → (ps ≡ unique_from [] expanded) × (1 ≤ length ps) × (length ps ≤ max_services)
  unfolding unique_from mem_port
  unique_ports-ok max_services [] ps h = cc
  unique_ports-ok max_services (p ∷ expanded) ps h =
      let (few, made) =
        require-ok (leb (length (unique_from [] (p ∷ expanded))) max_services) value_error _ h in
      let same = ok_inj made in
      (
        sym same,
        subst (λ l. 1 ≤ length l) same (omega arith),
        subst (λ l. length l ≤ max_services) same (leb→le _ _ few),
      )

  -- Where lower case keeps tcp and udp: let a specification be accepted. The answer has exactly the
  -- ports that some part between commas, with its blanks stripped and not empty, stands for: the
  -- number that it is, each number of the range that it is, with its protocol or else the default
  -- one, or the port and the protocol of the service that it names in lower case. The default is udp
  -- where udp is asked for, and else tcp. Each port is from 1 to 65535 with protocol tcp or udp, and
  -- stands once in the answer, which has at least one and at most as many as are allowed.
  pub parse_port_spec-ok :
      (port_spec default : String) (max_services : ℕ) (ps : List Port)
      → validate_protocol lower "tcp" ≡ true
      → validate_protocol lower "udp" ≡ true
      → parse_port_spec digit is_space lower port_spec default max_services ≡ ok ps
      → (protocol : String) × IsDefault default protocol
        × ((p : Port)
            → (mem_port p ps ≡ true)
              ↔ StandsIn digit is_space lower protocol p (split b',' port_spec))
        × All IsPort ps
        × OnceEach ps
        × (1 ≤ length ps)
        × (length ps ≤ max_services)
  unfolding parse_port_spec
  parse_port_spec-ok port_spec default max_services ps t u h =
      let (given, h1) = require-ok (not (is_empty_text port_spec)) value_error _ h in
      let (few, h2) =
        require-ok (leb (length (split b',' port_spec)) max_services) value_error _ h1 in
      let protocol = valid_default digit is_space lower default in
      let parts = split b',' port_spec in
      let (qs, made, h3) = >>=-eq-ok (parse_each digit is_space lower protocol parts) _ h2 in
      let (same, some_port, at_most) = unique_ports-ok max_services qs ps h3 in
      (
        protocol,
        valid_default-IsDefault digit is_space lower default,
        (λ p.
            let kept : mem_port p qs ≡ mem_port p ps =
              sym (ap (mem_port p) same ∙ (mem_port-unique_from p [] qs ∙ seen_none p qs)) in
            subst (λ b. (b ≡ true) ↔ StandsIn digit is_space lower protocol p parts) kept
              (parse_each-Stands digit is_space lower protocol parts qs made p)),
        subst (All IsPort) (sym same)
            (unique_from-All IsPort [] qs (parse_each-Good t u protocol parts qs made)),
        subst OnceEach (sym same) (unique_from-OnceEach [] qs),
        some_port,
        at_most,
      )

  not_empty_match :
      (s : String) → is_empty_text s ≡ true → port_spec_match digit is_space lower s ≡ none
  unfolding port_spec_match number_from
  not_empty_match String.[] e = refl
  not_empty_match (String.◌∷◌ c s) e = cc

  checked_port-single :
      (s : String) (o : Option (ℕ × Option String)) (p : Port)
      → checked_port digit is_space lower o ≡ ok p
      → port_or_more digit is_space lower "tcp" s o ≡ ok (p ∷ [])
  checked_port-single s none p h = cc
  checked_port-single s (some (port, name)) p h =
      let (valid, h1) = require-ok (validate_port port) value_error _ h in
      let (proto, made) =
        require-ok (validate_protocol lower (protocol_or "tcp" name)) value_error _ h1 in
      rw (valid, proto) (ap (λ q. ok (q ∷ [])) (ok_inj made))

  -- What `parse_port_protocol_string` accepts, a part of a specification with the default tcp
  -- accepts too, and with the same port.
  pub parse_port_protocol_string-parse_one :
      (s : String) (p : Port)
      → parse_port_protocol_string digit is_space lower s ≡ ok p
      → parse_one digit is_space lower "tcp" s ≡ ok (p ∷ [])
  unfolding parse_port_protocol_string parse_one
  parse_port_protocol_string-parse_one s p h = elim (Bool-cases (is_empty_text s)) [
    | inl e ↦ let never : raise value_error ≡ ok p = rw (not_empty_match s e) at h in cc never
    | inr given ↦ rw given (checked_port-single s (port_spec_match digit is_space lower s) p h)
  ]

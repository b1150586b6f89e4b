-- ===== src/Ports/Tests.antt =====
-- Example specifications for wsgi/services/tsim_port_parser_service.py, with ASCII digits and blanks.
use Prim.Native.Char.{Char, code}
use traceroute_simulator.Prelude.{
  ℕ, ◌-◌, ◌≤◌, String, ◌≡◌, refl, ◌↔◌, true, Bool, ◌&&◌, Option, none, some, List, [], ◌∷◌, map,
  leb, ◌==◌, if◌then◌else◌, length, All, mem_str, value_error, Result, raise, ok, get,
}
use traceroute_simulator.Ip.V4.{split}
use traceroute_simulator.Ports.{
  Port, run_of, protocol_group, service_match, validate_port, validate_protocol, ports_from,
  mem_port, unique_from, number_from, strip_end, strip_start, port_spec_match, port_range_match,
  parse_one, parse_each, parse_port_spec,
}
use traceroute_simulator.Ports.Unique.{OnceEach}
use traceroute_simulator.Ports.Parsed.{IsPort, parse_port_spec-ok}
use traceroute_simulator.Ports.Stands.{IsDefault, StandsIn}

abbrev ascii_digit : Char → Option ℕ
ascii_digit c = if leb b'0' (code c) && leb (code c) b'9' then some (code c - b'0') else none

abbrev ascii_space : Char → Bool
ascii_space c = code c == 32

abbrev same_case : String → String
same_case s = s

abbrev parsed_ports : String → ℕ → Result (List Port)
parsed_ports s n = parse_port_spec ascii_digit ascii_space same_case s "tcp" n

abbrev length_of : Result (List Port) → ℕ
length_of (ok ps) = length ps
length_of (raise e) = 0

examples :
    map
      (λ s. parsed_ports s 10)
      ("80, 443/tcp,22-24,ssh,dns" ∷ "80/icmp" ∷ "0" ∷ "65536" ∷ "9-8" ∷ "1-200" ∷ "" ∷ "," ∷ "x9"
        ∷ [])
    ≡ ok ((80, "tcp") ∷ (443, "tcp") ∷ (22, "tcp") ∷ (23, "tcp") ∷ (24, "tcp") ∷ (53, "udp") ∷ [])
      ∷ map
          (λ e. raise e)
          (value_error ∷ value_error ∷ value_error ∷ value_error ∷ value_error ∷ value_error
            ∷ value_error ∷ value_error ∷ [])
unfolding parse_port_spec parse_each parse_one strip_start strip_end split port_spec_match
    number_from protocol_group run_of port_range_match service_match validate_port validate_protocol
    ports_from unique_from mem_port mem_str get
examples = refl

-- A range with more than the hundred ports of the message.
hundred_and_one :
    map length_of (parsed_ports "1-101" 200 ∷ parsed_ports "1-102" 200 ∷ []) ≡ 101 ∷ 0 ∷ []
unfolding parse_port_spec parse_each parse_one strip_start strip_end split port_spec_match
    number_from protocol_group run_of port_range_match service_match validate_port validate_protocol
    ports_from unique_from mem_port mem_str get
hundred_and_one = refl

abbrev two_ports : List Port
two_ports = (22, "tcp") ∷ (53, "udp") ∷ []

parse_port_spec-ok_example :
    (protocol : String) × IsDefault "tcp" protocol
    × ((p : Port)
        → (mem_port p two_ports ≡ true)
          ↔ StandsIn ascii_digit ascii_space same_case protocol p (split b',' "22,ssh,53/udp"))
    × All (IsPort ascii_digit ascii_space same_case) two_ports
    × OnceEach two_ports
    × (1 ≤ length two_ports)
    × (length two_ports ≤ 3)
unfolding parse_port_spec parse_each parse_one strip_start strip_end split port_spec_match
    number_from protocol_group run_of port_range_match service_match validate_port validate_protocol
    ports_from unique_from mem_port mem_str get
parse_port_spec-ok_example =
    parse_port_spec-ok ascii_digit ascii_space same_case "22,ssh,53/udp" "tcp" 3 two_ports refl refl
      refl

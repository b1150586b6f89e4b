-- ===== src/Ports.antt =====
-- wsgi/services/tsim_port_parser_service.py: lists of ports and services from texts. What Unicode
-- says of characters is a parameter: the value of a digit, what is a blank, lower case.
pub mod Unique
pub mod Stands
pub mod Parsed
mod Tests
use Prim.Native.Char.{Char, code}
use traceroute_simulator.Prelude.{
  ℕ, zero, suc, ◌+◌, ◌-◌, ◌*◌, String, Bool, true, false, not, ◌&&◌, ◌||◌, Option, none, some, List,
  [], ◌∷◌, ◌++◌, leb, ◌==◌, str_eq, if◌then◌else◌, length, mem_str, value_error, Result, raise, ok,
  require, ◌>>=◌, ◌>>◌, Dict, get,
}
use traceroute_simulator.Ip.V4.{split}

abbrev pub Port : Type 0
Port = ℕ × String

abbrev pub port_eq : Port → Port → Bool
port_eq (p, s) (q, t) = p == q && str_eq s t

-- `self.common_ports`
abbrev pub common_ports : Dict Port
common_ports =
    ("ftp", (21, "tcp"))
    ∷ ("ssh", (22, "tcp"))
    ∷ ("telnet", (23, "tcp"))
    ∷ ("smtp", (25, "tcp"))
    ∷ ("dns", (53, "udp"))
    ∷ ("http", (80, "tcp"))
    ∷ ("pop3", (110, "tcp"))
    ∷ ("imap", (143, "tcp"))
    ∷ ("https", (443, "tcp"))
    ∷ ("smb", (445, "tcp"))
    ∷ ("mysql", (3306, "tcp"))
    ∷ ("rdp", (3389, "tcp"))
    ∷ ("postgresql", (5432, "tcp"))
    ∷ ("http-alt", (8080, "tcp"))
    ∷ ("https-alt", (8443, "tcp"))
    ∷ []

abbrev pub is_empty_text : String → Bool
is_empty_text String.[] = true
is_empty_text (String.◌∷◌ c s) = false

abbrev pub is_letter : Char → Bool
is_letter c = leb b'a' (code c) && leb (code c) b'z'

abbrev pub is_service_char : Char → Bool
is_service_char c = is_letter c || leb b'0' (code c) && leb (code c) b'9' || code c == b'-'

-- The longest beginning of characters that pass the test, and what follows it.
unfoldable pub run_of : (Char → Bool) → String → String × String
run_of p String.[] = ("", "")
run_of p (String.◌∷◌ c s) =
    let (taken, rest) = run_of p s in
    if p c then (String.◌∷◌ c taken, rest) else ("", String.◌∷◌ c s)

-- `$`: the end, or a line feed at the end.
abbrev pub at_end : String → Bool
at_end String.[] = true
at_end (String.◌∷◌ c String.[]) = code c == 10
at_end (String.◌∷◌ c (String.◌∷◌ d s)) = false

abbrev pub named : String × String → Option (Option String)
named (name, rest) = if not (is_empty_text name) && at_end rest then some (some name) else none

-- `(?:/([a-z]+))?$`
unfoldable pub protocol_group : String → Option (Option String)
protocol_group String.[] = some none
protocol_group (String.◌∷◌ c s) =
    if code c == b'/'
    then named (run_of is_letter s)
    else if at_end (String.◌∷◌ c s)
    then some none
    else none

abbrev pub service_of : Char → String × String → Option String
service_of c (name, rest) = if is_letter c && at_end rest then some (String.◌∷◌ c name) else none

-- `service_pattern`
unfoldable pub service_match : String → Option String
service_match String.[] = none
service_match (String.◌∷◌ c s) = service_of c (run_of is_service_char s)

unfoldable pub validate_port : ℕ → Bool
validate_port port = leb 1 port && leb port 65535

-- Protocols are in lower case where they come from.
unfoldable pub validate_protocol : (String → String) → String → Bool
validate_protocol lower protocol = mem_str (lower protocol) ("tcp" ∷ "udp" ∷ [])

abbrev pub protocol_or : String → Option String → String
protocol_or default none = default
protocol_or default (some p) = p

-- `range(start, start + n)`, each with the protocol
unfoldable pub ports_from : String → ℕ → ℕ → List Port
ports_from protocol start zero = []
ports_from protocol start (suc n) = (start, protocol) ∷ ports_from protocol (suc start) n

unfoldable pub mem_port : Port → List Port → Bool
mem_port p [] = false
mem_port p (q ∷ ps) = port_eq q p || mem_port p ps

-- The loop over `result` with the set `seen`.
unfoldable pub unique_from : List Port → List Port → List Port
unique_from seen [] = []
unique_from seen (p ∷ ps) =
    let again = unique_from seen ps in
    let first = unique_from (p ∷ seen) ps in if mem_port p seen then again else p ∷ first

module _ (digit : Char → Option ℕ) (is_space : Char → Bool) (lower : String → String) where
  abbrev pub ten_times : Option ℕ → ℕ
  ten_times none = 0
  ten_times (some n) = n * 10

  abbrev pub pair_with : ℕ → Option (Option String) → Option (ℕ × Option String)
  pair_with n none = none
  pair_with n (some p) = some (n, p)

  -- `(\d+)` after a number: the number and what follows it.
  unfoldable pub number_from : Option ℕ → String → Option ℕ × String
  number_from n String.[] = (n, "")
  number_from n (String.◌∷◌ c s) = elim (digit c) [
    | none ↦ (n, String.◌∷◌ c s)
    | some d ↦ number_from (some (ten_times n + d)) s
  ]

  unfoldable pub strip_end : String → String
  strip_end String.[] = ""
  strip_end (String.◌∷◌ c s) =
      let rest = strip_end s in if is_space c && is_empty_text rest then "" else String.◌∷◌ c rest

  unfoldable pub strip_start : String → String
  strip_start String.[] = ""
  strip_start (String.◌∷◌ c s) =
      let rest = strip_start s in if is_space c then rest else String.◌∷◌ c s

  abbrev pub strip : String → String
  strip s = strip_start (strip_end s)

  abbrev pub with_protocol : Option ℕ × String → Option (ℕ × Option String)
  with_protocol (none, rest) = none
  with_protocol (some n, rest) = pair_with n (protocol_group rest)

  -- `port_spec_pattern`
  unfoldable pub port_spec_match : String → Option (ℕ × Option String)
  port_spec_match s = with_protocol (number_from none s)

  abbrev pub range_end : ℕ → Option (ℕ × Option String) → Option (ℕ × ℕ × Option String)
  range_end start none = none
  range_end start (some (end, p)) = some (start, end, p)

  abbrev pub after_start : Option ℕ × String → Option (ℕ × ℕ × Option String)
  after_start (none, rest) = none
  after_start (some n, String.[]) = none
  after_start (some n, String.◌∷◌ c s) =
      if code c == b'-' then range_end n (with_protocol (number_from none s)) else none

  -- `port_range_pattern`
  unfoldable pub port_range_match : String → Option (ℕ × ℕ × Option String)
  port_range_match s = after_start (number_from none s)

  abbrev pub single_port : ℕ → String → Result (List Port)
  single_port port protocol =
      require (validate_port port) value_error
      >> (require (validate_protocol lower protocol) value_error >> ok ((port, protocol) ∷ []))

  abbrev pub port_range : ℕ → ℕ → String → Result (List Port)
  port_range start end protocol =
      require (validate_port start && validate_port end) value_error
      >> (require (leb start end) value_error
          >> (require (leb (end - start) 100) value_error
              >> (require (validate_protocol lower protocol) value_error
                  >> ok (ports_from protocol start (end + 1 - start)))))

  abbrev pub known_service : Option Port → Result (List Port)
  known_service none = raise value_error
  known_service (some p) = ok (p ∷ [])

  abbrev pub service : Option String → Result (List Port)
  service none = raise value_error
  service (some name) = known_service (get name common_ports)

  abbrev pub range_or_service :
      String → String → Option (ℕ × ℕ × Option String) → Result (List Port)
  range_or_service default spec none = service (service_match (lower spec))
  range_or_service default spec (some (start, end, p)) =
      port_range start end (protocol_or default p)

  abbrev pub port_or_more : String → String → Option (ℕ × Option String) → Result (List Port)
  port_or_more default spec none = range_or_service default spec (port_range_match spec)
  port_or_more default spec (some (port, p)) = single_port port (protocol_or default p)

  -- One round of the loop over `specs`.
  unfoldable pub parse_one : String → String → Result (List Port)
  parse_one default spec =
      if is_empty_text spec then ok [] else port_or_more default spec (port_spec_match spec)

  unfoldable pub parse_each : String → List String → Result (List Port)
  parse_each default [] = ok []
  parse_each default (spec ∷ specs) = parse_one default (strip spec) >>= λ ports.
      parse_each default specs >>= λ more. ok (ports ++ more)

  abbrev pub valid_default : String → String
  valid_default p = if mem_str p ("tcp" ∷ "udp" ∷ []) then p else "tcp"

  abbrev pub unique_ports : ℕ → List Port → Result (List Port)
  unique_ports max_services [] = raise value_error
  unique_ports max_services (p ∷ ps) =
      let unique = unique_from [] (p ∷ ps) in
      require (leb (length unique) max_services) value_error >> ok unique

  unfoldable pub parse_port_spec : String → String → ℕ → Result (List Port)
  parse_port_spec port_spec default max_services =
      require (not (is_empty_text port_spec)) value_error
      >> (let specs = split b',' port_spec in
          require (leb (length specs) max_services) value_error
          >> (parse_each (valid_default default) specs >>= unique_ports max_services))

  abbrev pub checked_port : Option (ℕ × Option String) → Result Port
  checked_port none = raise value_error
  checked_port (some (port, p)) =
      require (validate_port port) value_error
      >> (require (validate_protocol lower (protocol_or "tcp" p)) value_error
          >> ok (port, protocol_or "tcp" p))

  unfoldable pub parse_port_protocol_string : String → Result Port
  parse_port_protocol_string s = checked_port (port_spec_match s)

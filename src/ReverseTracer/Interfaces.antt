-- ===== src/ReverseTracer/Interfaces.antt =====
-- `_detect_router_interfaces` of src/core/reverse_path_tracer.py: the interfaces of the routers of a
-- path, from the output of `ip route get` in the router's namespace.
use Prim.Native.Char.{Char, code}
use traceroute_simulator.Prelude.{
  String, Bool, ◌==◌, Option, none, some, List, [], ◌∷◌, if◌then◌else◌,
}
use traceroute_simulator.Firewall.Words.{strip_prefix, nonempty}
use traceroute_simulator.Simulator.{Routers, find_router_by_ip, name_or}
use traceroute_simulator.ReverseTracer.Combine.{Hop}

-- What a command does: it prints, it fails, or `run` raises.
pub data Ran : Type 0 where
  printed : String → Ran
  failed raised : Ran

-- `ip route get` in a namespace, for an address
abbrev pub RouteGet : Type 0
RouteGet = String → String → Ran

-- `stdout.split('\n')[0]`
unfoldable pub first_line : String → String
first_line String.[] = ""
first_line (String.◌∷◌ c s) =
    let rest = first_line s in if code c == 10 then "" else String.◌∷◌ c rest

module _ (is_space : Char → Bool) where
  -- What `\S*` takes.
  unfoldable pub word : String → String
  word String.[] = ""
  word (String.◌∷◌ c s) = let rest = word s in if is_space c then "" else String.◌∷◌ c rest

  -- `\s*`, with what is left.
  unfoldable pub skip_spaces : String → String
  skip_spaces String.[] = ""
  skip_spaces (String.◌∷◌ c s) =
      let rest = skip_spaces s in if is_space c then rest else String.◌∷◌ c s

  abbrev word_found : String → Option String
  word_found w = if nonempty w then some w else none

  abbrev after_dev : Option String → Option String
  after_dev none = none
  after_dev (some String.[]) = none
  after_dev (some (String.◌∷◌ c s)) = if is_space c then word_found (word (skip_spaces s)) else none

  -- `re.search(r'dev\s+(\S+)', s)`
  unfoldable pub dev_search : String → Option String
  dev_search String.[] = none
  dev_search (String.◌∷◌ c s) =
      let rest = dev_search s in
      elim (after_dev (strip_prefix "dev" (String.◌∷◌ c s))) [ none ↦ rest | some w ↦ some w ]

  unfoldable pub extract_interface_from_route : String → String
  extract_interface_from_route output = name_or "" (dev_search output)

  abbrev interface_in : Ran → String
  interface_in (printed output) = extract_interface_from_route (first_line output)
  interface_in failed = ""
  interface_in raised = ""

  -- The first command that raises ends the attempt.
  abbrev both_interfaces : Ran → Ran → String × String
  both_interfaces raised outgoing = ("", "")
  both_interfaces (printed s) outgoing = (interface_in (printed s), interface_in outgoing)
  both_interfaces failed outgoing = ("", interface_in outgoing)

  module _ (routers : Routers) (route_get : RouteGet) (src dst : String) where
    -- The name, or else the owner of the address, or else the address.
    abbrev namespace : String → String → String
    namespace name ip = if nonempty name then name else name_or ip (find_router_by_ip routers ip)

    abbrev with_both : {F : Type 0} → Hop F → String × String → Hop F
    with_both h (incoming, outgoing) = record h { incoming = incoming; outgoing = outgoing }

    abbrev pub with_interfaces : {F : Type 0} → Hop F → Hop F
    with_interfaces h =
        if h.is_router
        then with_both h (
            both_interfaces (route_get (namespace h.router_name h.ip) src)
              (route_get (namespace h.router_name h.ip) dst))
        else h

    unfoldable pub detect_router_interfaces : {F : Type 0} → List (Hop F) → List (Hop F)
    detect_router_interfaces [] = []
    detect_router_interfaces (h ∷ hops) = with_interfaces h ∷ detect_router_interfaces hops

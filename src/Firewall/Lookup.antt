-- ===== src/Firewall/Lookup.antt =====
-- The outgoing interface of a packet by the routing table in src/analyzers/iptables_forward_analyzer.py.
use traceroute_simulator.Prelude.{
  String, Bool, true, false, ◌&&◌, Option, none, some, List, [], ◌∷◌, ltb, str_eq, if◌then◌else◌,
}
use traceroute_simulator.Ip.{Address, ip_address, ip_network, address_eq}
use traceroute_simulator.Router.{
  Route, Best, or_empty, has_slash, network_match, default_match, route_of,
}

abbrev pub has_both : Route → Bool
has_both r = elim r.dst [ none ↦ false | some dst ↦ elim r.dev [ none ↦ false | some dev ↦ true ] ]

abbrev pub shorter_than_32 : Best → Bool
shorter_than_32 none = true
shorter_than_32 (some (r, n)) = ltb n 32

abbrev pub host_route : Address → Route → Option Address → Best → Best
host_route a r none best = best
host_route a r (some b) best = if address_eq a b && shorter_than_32 best then some (r, 32) else best

-- A route with a destination and a device is compared with the best so far; `none` is no route
-- and the length -1.
unfoldable pub compare_route : Address → Route → Best → Best
compare_route a r best =
    if str_eq (or_empty r.dst) "default"
    then default_match r best
    else if has_slash (or_empty r.dst)
    then network_match a r (ip_network (or_empty r.dst)) best
    else host_route a r (ip_address (or_empty r.dst)) best

-- One round of the loop over the routes.
abbrev pub consider_route : Address → Route → Best → Best
consider_route a r best = if has_both r then compare_route a r best else best

unfoldable pub best_route_from : Address → List Route → Best → Best
best_route_from a [] best = best
best_route_from a (r ∷ routes) best = best_route_from a routes (consider_route a r best)

abbrev pub dev_of : Option Route → Option String
dev_of none = none
dev_of (some r) = r.dev

abbrev pub interface_for : List Route → Option Address → Option String
interface_for table none = none
interface_for table (some a) = dev_of (route_of (best_route_from a table none))

unfoldable pub find_outgoing_interface : List Route → String → Option String
find_outgoing_interface table dest_ip = interface_for table (ip_address dest_ip)

abbrev pub same_interface : Option String → String → Bool
same_interface none required = true
same_interface (some expected) required = str_eq expected required

-- An interface that cannot be told is not compared.
unfoldable pub interface_passes : List Route → String → Option String → Bool
interface_passes table ip none = true
interface_passes table ip (some required) =
    same_interface (find_outgoing_interface table ip) required

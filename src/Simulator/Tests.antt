-- ===== src/Simulator/Tests.antt =====
-- A small network traced by `simulate_traceroute` of src/core/traceroute_simulator.py, with the
-- theorems applied to it.
use traceroute_simulator.Prelude.{
  ℕ, ◌≤◌, String, ◌≡◌, refl, ◌⊎◌, true, false, Option, none, some, List, [], ◌∷◌, map, arith, keep,
  any, find, All, mem_str, Result, ok, raise, get, has, put, ◌≢◌, value_error,
}
use traceroute_simulator.Ip.{
  v4, Address, ip_address, mask_prefix, ip_network, is_in, address_eq, is_loopback,
}
use traceroute_simulator.Ip.V6.{hex_after, hextet, parts, number_of, groups, ipv6}
use traceroute_simulator.Ip.V4.{split, decimal_after, decimal, octet, ipv4}
use traceroute_simulator.Router.{
  Route, Router, interfaces_from, interfaces, parsed_interfaces, listed_interfaces, all_interfaces,
  get_all_ip_addresses, consider, best_from, not_blackhole, get_best_route, get_interface_ip,
  get_type,
}
use traceroute_simulator.Router.Rounds.{IsLongest}
use traceroute_simulator.Router.Prefixes.{get_best_route-IsLongest}
use traceroute_simulator.Simulator.{
  ip_lookup_from, build_comprehensive_ip_lookup, find_router_by_ip, resolve_ip_to_fqdn,
  resolve_ip_to_name, get_incoming_interface, is_public_ip, is_destination_reachable,
  first_reaching, validate_ip_reachability, get_gateway_public_interface, neighbor_with,
  get_next_hop, NextHop,
}
use traceroute_simulator.Simulator.Networks.{passing, left, two_routers, no_dns, across_path}
use traceroute_simulator.Simulator.Trace.{
  Hop, new_hop, Walk, before_arrow, has_arrow, set_outgoing, arrive, advance, step, walk,
}
use traceroute_simulator.Simulator.Start.{simulate_traceroute}
use traceroute_simulator.Simulator.Walks.{Ascending, IsWalk}
use traceroute_simulator.Simulator.Numbering.{IsTrace, walk-IsTrace, simulate_traceroute-numbers}
use traceroute_simulator.Simulator.Hops.{Follows, get_next_hop-Follows}
use traceroute_simulator.Simulator.Answers.{Answers, ValidRouters}
use traceroute_simulator.Simulator.Total.{simulate_traceroute-Answers}
use traceroute_simulator.Simulator.Ends.{walk-Reason, Reason, AllNew}

abbrev shape : Result (List Hop) → List (ℕ × String × String)
shape (raise e) = []
shape (ok path) = map (λ (h : Hop). (h.hop_number, h.router_name, h.ip_address)) path

abbrev across : Result (List Hop)
across = simulate_traceroute no_dns two_routers "10.1.7.7" "10.2.8.8"

across-shape :
    shape across
    ≡ (1, "10.1.7.7", "10.1.7.7")
      ∷ (2, "left", "10.1.0.1")
      ∷ (3, "right", "10.9.0.2")
      ∷ (4, "10.2.8.8", "10.2.8.8")
      ∷ []
unfolding split decimal_after decimal octet ipv4 hex_after hextet parts number_of groups ipv6
    ip_address mask_prefix ip_network is_in address_eq is_loopback interfaces_from interfaces
    parsed_interfaces listed_interfaces all_interfaces get_all_ip_addresses consider best_from
    get_best_route get_interface_ip get_type ip_lookup_from build_comprehensive_ip_lookup
    find_router_by_ip resolve_ip_to_fqdn resolve_ip_to_name get_incoming_interface is_public_ip
    is_destination_reachable first_reaching validate_ip_reachability get_gateway_public_interface
    neighbor_with get_next_hop before_arrow has_arrow set_outgoing arrive advance step walk
    simulate_traceroute keep any find mem_str get has put
across-shape = refl

abbrev start : Walk
start = record {
  path = new_hop 1 "left" "10.1.0.1" "eth0" true "" ∷ [];
  visited = "left" ∷ [];
  hop = 2;
  current_router = "left";
}

start-IsWalk : IsWalk start
start-IsWalk = record {
  visited_once = (tt, tt);
  ascending = (tt, tt);
  before_next = (omega arith, tt);
  fewer_visited = omega arith;
}

abbrev finish : Walk
finish = record {
  path =
      passing 1 "left" "10.1.0.1" "eth0" "wg0"
      ∷ passing 2 "right" "10.9.0.2" "wg0" "eth0"
      ∷ new_hop 3 "10.2.8.8" "10.2.8.8" "eth0" false "right"
      ∷ [];
  visited = "left" ∷ "right" ∷ [];
  hop = 3;
  current_router = "right";
}

finished : walk no_dns two_routers "10.2.8.8" 29 start ≡ ok finish
unfolding split decimal_after decimal octet ipv4 hex_after hextet parts number_of groups ipv6
    ip_address mask_prefix ip_network is_in address_eq is_loopback interfaces_from interfaces
    parsed_interfaces listed_interfaces all_interfaces get_all_ip_addresses consider best_from
    get_best_route get_interface_ip get_type ip_lookup_from build_comprehensive_ip_lookup
    find_router_by_ip resolve_ip_to_fqdn resolve_ip_to_name get_incoming_interface is_public_ip
    is_destination_reachable first_reaching validate_ip_reachability get_gateway_public_interface
    neighbor_with get_next_hop before_arrow has_arrow set_outgoing arrive advance step walk
    simulate_traceroute keep any find mem_str get has put
finished = refl

abbrev far : Address
far = record { version = v4; number = 167905288; scope = "" }

get_best_route-IsLongest_example :
    (o : Option Route) × (get_best_route left "10.2.8.8" ≡ ok o)
    × IsLongest far (keep not_blackhole left.routes) o
unfolding ip_address ipv4 split octet decimal decimal_after
get_best_route-IsLongest_example = get_best_route-IsLongest left "10.2.8.8" far refl

walk-IsTrace_example : IsTrace finish
walk-IsTrace_example =
    walk-IsTrace no_dns two_routers "10.2.8.8" 29 start finish start-IsWalk (omega arith) finished

walk-Reason_example : Reason "10.2.8.8" finish ⊎ AllNew 29 start finish
walk-Reason_example = walk-Reason no_dns two_routers "10.2.8.8" 29 start finish finished

simulate_traceroute-numbers_example :
    Ascending (1 ∷ 2 ∷ 3 ∷ 4 ∷ []) × All (λ n. n ≤ 30) (1 ∷ 2 ∷ 3 ∷ 4 ∷ [])
unfolding split decimal_after decimal octet ipv4 hex_after hextet parts number_of groups ipv6
    ip_address mask_prefix ip_network is_in address_eq is_loopback interfaces_from interfaces
    parsed_interfaces listed_interfaces all_interfaces get_all_ip_addresses consider best_from
    get_best_route get_interface_ip get_type ip_lookup_from build_comprehensive_ip_lookup
    find_router_by_ip resolve_ip_to_fqdn resolve_ip_to_name get_incoming_interface is_public_ip
    is_destination_reachable first_reaching validate_ip_reachability get_gateway_public_interface
    neighbor_with get_next_hop before_arrow has_arrow set_outgoing arrive advance step walk
    simulate_traceroute keep any find mem_str get has put
simulate_traceroute-numbers_example =
    simulate_traceroute-numbers no_dns two_routers "10.1.7.7" "10.2.8.8" across_path refl

abbrev to_right : NextHop
to_right = (some "right", some "10.9.0.2", some "wg0")

left_next : get_next_hop two_routers "left" "10.2.8.8" ≡ ok to_right
unfolding split decimal_after decimal octet ipv4 hex_after hextet parts number_of groups ipv6
    ip_address mask_prefix ip_network is_in address_eq is_loopback interfaces_from interfaces
    parsed_interfaces listed_interfaces all_interfaces get_all_ip_addresses consider best_from
    get_best_route get_interface_ip get_type ip_lookup_from build_comprehensive_ip_lookup
    find_router_by_ip resolve_ip_to_fqdn resolve_ip_to_name get_incoming_interface is_public_ip
    is_destination_reachable first_reaching validate_ip_reachability get_gateway_public_interface
    neighbor_with get_next_hop before_arrow has_arrow set_outgoing arrive advance step walk
    simulate_traceroute keep any find mem_str get has put
left_next = refl

get_next_hop-Follows_example :
    (router : Router) × (get "left" two_routers ≡ some router)
    × ((route : Route) × (get_best_route router "10.2.8.8" ≡ ok (some route))
        × Follows two_routers "left" "10.2.8.8" route "right" "10.9.0.2"
        × (some "wg0" ≡ route.dev))
get_next_hop-Follows_example =
    get_next_hop-Follows two_routers "left" "10.2.8.8" "right" "10.9.0.2" (some "wg0") left_next

valid_addresses :
    All (λ ip. ip_address ip ≢ none) ("10.1.0.1" ∷ "10.9.0.1" ∷ "10.2.0.1" ∷ "10.9.0.2" ∷ [])
unfolding ip_address ipv4 split octet decimal decimal_after
valid_addresses = ((λ e. cc e), ((λ e. cc e), ((λ e. cc e), ((λ e. cc e), tt))))

two_routers-ValidRouters : ValidRouters two_routers
unfolding interfaces interfaces_from put
two_routers-ValidRouters =
    let (a, (b, (c, (d, end)))) = valid_addresses in ((a, (b, tt)), ((c, (d, tt)), tt))

abbrev near : Address
near = record { version = v4; number = 167839495; scope = "" }

simulate_traceroute-Answers_example :
    ((validate_ip_reachability two_routers "10.1.7.7" ≡ ok true)
      × Answers (simulate_traceroute no_dns two_routers "10.1.7.7" "10.2.8.8"))
    ⊎ ((validate_ip_reachability two_routers "10.1.7.7" ≡ ok false)
        × (simulate_traceroute no_dns two_routers "10.1.7.7" "10.2.8.8" ≡ raise value_error))
unfolding ip_address ipv4 split octet decimal decimal_after
simulate_traceroute-Answers_example =
    simulate_traceroute-Answers no_dns two_routers "10.1.7.7" "10.2.8.8" near far refl refl
      two_routers-ValidRouters

-- ===== src/Simulator/FallbackTests.antt =====
-- Paths with and without mtr for `simulate_traceroute_with_fallback` of
-- src/core/traceroute_simulator.py, and the theorem applied to them.
use traceroute_simulator.Prelude.{
  String, ◌≡◌, refl, some, [], ◌∷◌, raise, keep, any, find, mem_str, get, has, put, value_error,
}
use traceroute_simulator.Firewall.Words.{strip_prefix}
use traceroute_simulator.Mtr.{Mtr, answered, failed}
use traceroute_simulator.Ip.{ip_address, mask_prefix, ip_network, is_in, address_eq, is_loopback}
use traceroute_simulator.Router.{
  interfaces_from, interfaces, parsed_interfaces, listed_interfaces, all_interfaces,
  get_all_ip_addresses, consider, best_from, get_best_route, get_interface_ip, get_type,
}
use traceroute_simulator.Simulator.{
  ip_lookup_from, build_comprehensive_ip_lookup, find_router_by_ip, resolve_ip_to_fqdn,
  resolve_ip_to_name, get_incoming_interface, is_public_ip, is_destination_reachable,
  first_reaching, validate_ip_reachability, get_gateway_public_interface, neighbor_with,
  get_next_hop,
}
use traceroute_simulator.Ip.V6.{hex_after, hextet, parts, number_of, groups, ipv6}
use traceroute_simulator.Ip.V4.{split, decimal_after, decimal, octet, ipv4}
use traceroute_simulator.Simulator.Networks.{left, no_dns}
use traceroute_simulator.Simulator.Trace.{
  before_arrow, has_arrow, set_outgoing, arrive, advance, step, walk,
}
use traceroute_simulator.Simulator.Start.{simulate_traceroute}
use traceroute_simulator.Simulator.Fallback.{
  has_text, has_route_failure, last_router_from, get_last_linux_router,
  simulate_traceroute_with_fallback,
}

abbrev no_mtr : String → String → Mtr String
no_mtr router ip = failed

abbrev mtr_to : String → String → Mtr String
mtr_to router ip = answered (record { hop = 1; ip = ip; hostname = ""; rtt = "1.5" } ∷ []) []

-- A source that no router owns or reaches directly is an error, also with mtr.
unknown_source :
    simulate_traceroute_with_fallback "0.0" no_dns
      (("left", left) ∷ [])
      "10.3.7.7"
      "10.1.0.9"
      (some mtr_to)
    ≡ raise value_error
unfolding split decimal_after decimal octet ipv4 hex_after hextet parts number_of groups ipv6
    ip_address mask_prefix ip_network is_in address_eq is_loopback interfaces_from interfaces
    parsed_interfaces listed_interfaces all_interfaces get_all_ip_addresses consider best_from
    get_best_route get_interface_ip get_type ip_lookup_from build_comprehensive_ip_lookup
    find_router_by_ip resolve_ip_to_fqdn resolve_ip_to_name get_incoming_interface is_public_ip
    is_destination_reachable first_reaching validate_ip_reachability get_gateway_public_interface
    neighbor_with get_next_hop before_arrow has_arrow set_outgoing arrive advance step walk
    simulate_traceroute keep any find mem_str get has put strip_prefix has_text has_route_failure
    last_router_from get_last_linux_router simulate_traceroute_with_fallback
unknown_source = refl

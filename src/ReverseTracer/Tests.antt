-- ===== src/ReverseTracer/Tests.antt =====
-- Traces through two Linux routers for src/core/reverse_path_tracer.py, and the theorem applied to
-- one of them.
use Prim.Native.Char.{code}
use traceroute_simulator.Prelude.{
  ℕ, String, ◌≡◌, refl, ◌==◌, none, some, List, [], ◌∷◌, map, Result, ok, raise, keep, any, find,
  mem_str, get, has, put, str_eq, if◌then◌else◌,
}
use traceroute_simulator.Ip.{ip_address, is_loopback}
use traceroute_simulator.Ip.V6.{hex_after, hextet, parts, number_of, groups, ipv6}
use traceroute_simulator.Ip.V4.{split, decimal_after, decimal, octet, ipv4}
use traceroute_simulator.Router.{
  interfaces_from, interfaces, parsed_interfaces, listed_interfaces, all_interfaces,
  get_all_ip_addresses, is_linux,
}
use traceroute_simulator.Simulator.{
  ip_lookup_from, build_comprehensive_ip_lookup, find_router_by_ip, resolve_ip_to_fqdn,
  resolve_ip_to_name,
}
use traceroute_simulator.Simulator.Networks.{two_routers}
use traceroute_simulator.Firewall.Words.{strip_prefix}
use traceroute_simulator.ReverseTracer.Combine.{
  Hop, linux_at, resolve_ip, first_linux, find_last_linux_router, destination_rtt, temp_path,
  resolved_end, final_hop, final_from, set_prev_hops, next_hops_from, link_hops,
  reverse_and_combine,
}
use traceroute_simulator.ReverseTracer.Interfaces.{
  Ran, printed, failed as command_failed, first_line, word, skip_spaces, dev_search,
  extract_interface_from_route, detect_router_interfaces,
}
use traceroute_simulator.Mtr.{MtrHop, Mtr, answered}
use traceroute_simulator.ReverseTracer.{
  World, Answer, number_hops, controller_to_destination, convert_mtr, destination_to_source,
  perform_reverse_trace,
}
use traceroute_simulator.ReverseTracer.Answers.{Answered, perform_reverse_trace-Outcome}

abbrev mtr_hop : ℕ → String → String → MtrHop String
mtr_hop n ip rtt = record { hop = n; ip = ip; hostname = ""; rtt = rtt }

-- To the destination from the controller, and back from the right router.
abbrev mtr : String → String → Mtr String
mtr from dst =
    if str_eq from "right"
    then answered (mtr_hop 1 "10.9.0.1" "0.4" ∷ mtr_hop 2 dst "0.9" ∷ [])
        (mtr_hop 1 "10.9.0.1" "0.4" ∷ [])
    else answered
        (mtr_hop 1 "10.1.0.1" "0.2" ∷ mtr_hop 2 "10.9.0.2" "0.5" ∷ mtr_hop 3 dst "0.8" ∷ []) []

abbrev route_get : String → String → Ran
route_get name ip =
    if str_eq name "left" then printed "via 10.0.0.9 dev wg0 src" else command_failed

abbrev world : World String
world = record {
  zero_rtt = "0.0";
  routers = two_routers;
  getent = λ ip. [];
  host_by_addr = λ ip. none;
  mtr = some mtr;
  route_get = route_get;
  is_space = λ c. code c == 32;
}

abbrev shape_of :
    Result (Answer (Hop String)) → List (ℕ × String × String × String × String × String × String)
shape_of (raise e) = []
shape_of (ok a) =
    map
      (λ (h : Hop String).
        (h.hop_num, h.router_name, h.ip, h.prev_hop, h.next_hop, h.outgoing, h.rtt))
      a.path

across :
    shape_of (perform_reverse_trace world "10.0.0.1" "10.1.7.7" "10.2.8.8")
    ≡ (1, "10.1.7.7", "10.1.7.7", "", "left", "", "0.0")
      ∷ (2, "left", "10.9.0.1", "10.1.7.7", "right", "wg0", "0.4")
      ∷ (3, "right", "10.9.0.2", "left", "10.2.8.8", "", "0.5")
      ∷ (4, "10.2.8.8", "10.2.8.8", "right", "", "", "0.8")
      ∷ []
unfolding split decimal_after decimal octet ipv4 hex_after hextet parts number_of groups ipv6
    ip_address is_loopback interfaces_from interfaces parsed_interfaces listed_interfaces
    all_interfaces get_all_ip_addresses is_linux ip_lookup_from build_comprehensive_ip_lookup
    find_router_by_ip resolve_ip_to_fqdn resolve_ip_to_name strip_prefix linux_at resolve_ip
    first_linux find_last_linux_router destination_rtt temp_path resolved_end final_hop final_from
    set_prev_hops next_hops_from link_hops reverse_and_combine first_line word skip_spaces
    dev_search extract_interface_from_route detect_router_interfaces number_hops
    controller_to_destination convert_mtr destination_to_source perform_reverse_trace keep find
    mem_str get has put any
across = refl

-- Of the right router the trace shows the destination alone.
abbrev to_router : String → String → Mtr String
to_router from dst =
    if str_eq from "right"
    then mtr from dst
    else answered (mtr_hop 1 "10.1.0.1" "0.2" ∷ mtr_hop 2 dst "0.8" ∷ []) []

-- The destination stands in the path twice.
destination_twice :
    shape_of (
      perform_reverse_trace
        (record world { mtr = some to_router })
        "10.0.0.1"
        "10.1.7.7"
        "10.2.0.1")
    ≡ (1, "10.1.7.7", "10.1.7.7", "", "left", "", "0.0")
      ∷ (2, "left", "10.9.0.1", "10.1.7.7", "right", "wg0", "0.4")
      ∷ (3, "right", "10.2.0.1", "left", "right", "", "0.8")
      ∷ (4, "right", "10.2.0.1", "right", "", "", "0.8")
      ∷ []
unfolding split decimal_after decimal octet ipv4 hex_after hextet parts number_of groups ipv6
    ip_address is_loopback interfaces_from interfaces parsed_interfaces listed_interfaces
    all_interfaces get_all_ip_addresses is_linux ip_lookup_from build_comprehensive_ip_lookup
    find_router_by_ip resolve_ip_to_fqdn resolve_ip_to_name strip_prefix linux_at resolve_ip
    first_linux find_last_linux_router destination_rtt temp_path resolved_end final_hop final_from
    set_prev_hops next_hops_from link_hops reverse_and_combine first_line word skip_spaces
    dev_search extract_interface_from_route detect_router_interfaces number_hops
    controller_to_destination convert_mtr destination_to_source perform_reverse_trace keep find
    mem_str get has put any
destination_twice = refl

perform_reverse_trace-Outcome_example :
    let forward = (controller_to_destination world "10.0.0.1" "10.2.8.8").path in
    Answered world "10.1.7.7" "10.2.8.8" forward
      (destination_to_source world forward "10.1.7.7").path
      (perform_reverse_trace world "10.0.0.1" "10.1.7.7" "10.2.8.8")
perform_reverse_trace-Outcome_example =
    perform_reverse_trace-Outcome world "10.1.7.7" "10.2.8.8" "10.0.0.1"

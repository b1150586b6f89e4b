-- ===== src/Simulator.antt =====
-- The class `TracerouteSimulator` of src/core/traceroute_simulator.py: which router owns or reaches
-- an address, and the next hop. What `getent hosts` prints is a parameter.
pub mod Trace
pub mod Start
pub mod Fallback
pub mod Walks
pub mod Numbering
pub mod Ends
pub mod Hops
pub mod Answers
pub mod Total
pub mod Endings
pub mod Complete
pub mod Networks
mod Tests
mod FallbackTests
use traceroute_simulator.Prelude.{
  String, Bool, true, false, not, ◌&&◌, Option, none, some, List, [], ◌∷◌, str_eq, if◌then◌else◌,
  keep, any, find, mem_str, value_error, key_error, Result, ok, raise, ◌>>=◌, Dict, get, has, put,
  keys, values,
}
use traceroute_simulator.Ip.{v4, Address, Network, version_eq, ip_address, ip_network, is_in}
use traceroute_simulator.Router.{
  Route, Router, or_empty, is_given, is_text, interfaces, not_loopback, get_all_ip_addresses,
  get_best_route, get_interface_ip, get_type,
}

abbrev pub Routers : Type 0
Routers = Dict Router

-- `self.routers[name]`
abbrev pub found : {V : Type 0} → Option V → Result V
found none = raise key_error
found (some v) = ok v

abbrev pub put_all : String → List String → Dict String → Dict String
put_all name [] lookup = lookup
put_all name (ip ∷ ips) lookup = put_all name ips (put ip name lookup)

unfoldable pub router_lookup_from : Dict String → Routers → Dict String
router_lookup_from lookup [] = lookup
router_lookup_from lookup ((name, router) ∷ routers) =
    router_lookup_from (put_all name (values (interfaces router)) lookup) routers

-- `_build_router_lookup`
unfoldable pub build_router_lookup : Routers → Dict String
build_router_lookup routers = router_lookup_from [] routers

abbrev pub owned_ip : String → Bool
owned_ip ip = not (str_eq ip "") && not_loopback (ip_address ip)

unfoldable pub ip_lookup_from : Dict String → Routers → Dict String
ip_lookup_from lookup [] = lookup
ip_lookup_from lookup ((name, router) ∷ routers) =
    ip_lookup_from (put_all name (keep owned_ip (get_all_ip_addresses router)) lookup) routers

-- `_build_comprehensive_ip_lookup`
unfoldable pub build_comprehensive_ip_lookup : Routers → Dict String
build_comprehensive_ip_lookup routers = ip_lookup_from [] routers

-- `_find_router_by_ip`. Routers are named by files, so that no name is empty.
unfoldable pub find_router_by_ip : Routers → String → Option String
find_router_by_ip routers ip = get ip (build_comprehensive_ip_lookup routers)

-- `_resolve_ip_to_fqdn`, from the words that `getent hosts ip` prints: none where it fails.
abbrev pub fqdn_of : String → Option Address → List String → String
fqdn_of ip none words = ip
fqdn_of ip (some a) [] = ip
fqdn_of ip (some a) (w ∷ []) = ip
fqdn_of ip (some a) (w ∷ hostname ∷ words) = hostname

unfoldable pub resolve_ip_to_fqdn : (String → List String) → String → String
resolve_ip_to_fqdn getent ip = fqdn_of ip (ip_address ip) (getent ip)

-- `_resolve_ip_to_name`
abbrev pub name_or : String → Option String → String
name_or s none = s
name_or s (some name) = name

unfoldable pub resolve_ip_to_name : (String → List String) → Routers → String → String
resolve_ip_to_name getent routers ip =
    name_or (resolve_ip_to_fqdn getent ip) (find_router_by_ip routers ip)

abbrev pub in_network : Address → Option Network → Bool
in_network a none = false
in_network a (some n) = is_in a n

-- A kernel route of link scope, to a network that holds the address.
abbrev pub is_connected : Address → Route → Bool
is_connected a r =
    is_text "kernel" r.protocol
    && is_text "link" r.scope
    && in_network a (ip_network (or_empty r.dst))

abbrev pub dev_of : Option Route → Option String
dev_of none = none
dev_of (some r) = r.dev

abbrev pub incoming : Option Router → Option Address → Result (Option String)
incoming none a = ok none
incoming (some router) none = raise value_error
incoming (some router) (some a) = ok (dev_of (find (is_connected a) router.routes))

-- `_get_incoming_interface`
unfoldable pub get_incoming_interface : Routers → String → String → Result (Option String)
get_incoming_interface routers router_name from_ip =
    incoming (get router_name routers) (ip_address from_ip)

abbrev pub private_networks : List String
private_networks =
    "10.0.0.0/8" ∷ "172.16.0.0/12" ∷ "192.168.0.0/16" ∷ "127.0.0.0/8" ∷ "169.254.0.0/16"
    ∷ "224.0.0.0/4" ∷ "240.0.0.0/4" ∷ "0.0.0.0/8" ∷ []

abbrev pub public_address : Option Address → Bool
public_address none = false
public_address (some a) =
    version_eq a.version v4 && not (any (λ s. in_network a (ip_network s)) private_networks)

-- `_is_public_ip`
unfoldable pub is_public_ip : String → Bool
is_public_ip ip = public_address (ip_address ip)

abbrev pub reachable : Option Router → String → Option Address → Result (Bool × Bool)
reachable none dst_ip a = ok (false, false)
reachable (some router) dst_ip none = raise value_error
reachable (some router) dst_ip (some a) =
    if mem_str dst_ip (values (interfaces router))
    then ok (true, true)
    else if any (is_connected a) router.routes
    then ok (true, false)
    else if str_eq (get_type router) "gateway" && is_public_ip dst_ip
    then ok (true, false)
    else ok (false, false)

-- `_is_destination_reachable`
unfoldable pub is_destination_reachable : Routers → String → String → Result (Bool × Bool)
is_destination_reachable routers router_name dst_ip =
    reachable (get router_name routers) dst_ip (ip_address dst_ip)

-- The first of some routers that reaches the address.
unfoldable pub first_reaching : Routers → List String → String → Result (Option String)
first_reaching routers [] ip = ok none
first_reaching routers (name ∷ names) ip =
    let rest = first_reaching routers names ip in
    is_destination_reachable routers name ip >>= λ ((is_reachable, is_owned) : Bool × Bool).
    if is_reachable then ok (some name) else rest

abbrev pub is_some : Option String → Bool
is_some none = false
is_some (some s) = true

-- `_validate_ip_reachability`
unfoldable pub validate_ip_reachability : Routers → String → Result Bool
validate_ip_reachability routers ip =
    first_reaching routers (keys routers) ip >>= λ o. ok (is_some o)

-- The first entry with a value that passes the test: its key.
abbrev pub key_of : Option (String × String) → Option String
key_of none = none
key_of (some (k, v)) = some k

abbrev pub interface_with : String → Dict String → Option String
interface_with ip d = key_of (find (λ ((k, v) : String × String). str_eq v ip) d)

abbrev pub or_eth0 : Bool → Option String → Option String
or_eth0 has_eth0 (some i) = some i
or_eth0 has_eth0 none = if has_eth0 then some "eth0" else none

abbrev pub public_interface : Option Router → Option String
public_interface none = none
public_interface (some router) =
    or_eth0 (has "eth0" (interfaces router))
      (key_of (find (λ ((k, v) : String × String). is_public_ip v) (interfaces router)))

-- `_get_gateway_public_interface`
unfoldable pub get_gateway_public_interface : Routers → String → Option String
get_gateway_public_interface routers router_name = public_interface (get router_name routers)

abbrev pub first_value : Dict String → Option String
first_value [] = none
first_value ((k, v) ∷ d) = some v

abbrev pub or_option : Option String → Option String → Option String
or_option none o = o
or_option (some s) o = some s

-- eth0, eth1, and then any
abbrev pub controller_ip : Dict String → Option String
controller_ip d = or_option (get "eth0" d) (or_option (get "eth1" d) (first_value d))

unfoldable pub get_ansible_controller_ip : Routers → Option String
get_ansible_controller_ip [] = none
get_ansible_controller_ip ((name, router) ∷ routers) =
    let rest = get_ansible_controller_ip routers in
    if router.ansible_controller then or_option (controller_ip (interfaces router)) rest else rest

-- The next router, its address, and the interface to it.
abbrev pub NextHop : Type 0
NextHop = Option String × Option String × Option String

abbrev pub no_hop : NextHop
no_hop = (none, none, none)

-- The first other router that has the address on an interface.
unfoldable pub neighbor_with : String → String → Routers → Option String
neighbor_with current_router ip [] = none
neighbor_with current_router ip ((name, router) ∷ routers) =
    let rest = neighbor_with current_router ip routers in
    if not (str_eq name current_router) && mem_str ip (values (interfaces router))
    then some name
    else rest

abbrev pub direct_hop : String → Option String → Option String → NextHop
direct_hop dst_ip interface none = (none, none, interface)
direct_hop dst_ip interface (some name) = (some name, some dst_ip, interface)

abbrev pub internet_hop : String → Option String → NextHop
internet_hop dst_ip none = no_hop
internet_hop dst_ip (some i) = if str_eq i "" then no_hop else (none, some dst_ip, some i)

abbrev pub next_by : Routers → String → Router → String → Option Route → NextHop
next_by routers current_router router dst_ip none =
    if str_eq (get_type router) "gateway" && is_public_ip dst_ip
    then internet_hop dst_ip (get_gateway_public_interface routers current_router)
    else no_hop
next_by routers current_router router dst_ip (some route) =
    if is_given route.gateway
    then (find_router_by_ip routers (or_empty route.gateway), route.gateway, route.dev)
    else if is_given route.dev && is_given (get_interface_ip router (or_empty route.dev))
    then direct_hop dst_ip route.dev (neighbor_with current_router dst_ip routers)
    else (none, none, route.dev)

abbrev pub next_at : Routers → String → String → Option Router → Result NextHop
next_at routers current_router dst_ip none = ok no_hop
next_at routers current_router dst_ip (some router) =
    get_best_route router dst_ip >>= λ o. ok (next_by routers current_router router dst_ip o)

-- `_get_next_hop`
unfoldable pub get_next_hop : Routers → String → String → Result NextHop
get_next_hop routers current_router dst_ip =
    next_at routers current_router dst_ip (get current_router routers)

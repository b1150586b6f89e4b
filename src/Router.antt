-- ===== src/Router.antt =====
-- The class `Router` of src/core/traceroute_simulator.py: the routes of a router, its interfaces,
-- and the choice of a route. A key that a JSON route lacks is `none`.
pub mod Widths
pub mod Rounds
pub mod Prefixes
use traceroute_simulator.Prelude.{
  ℕ, String, Bool, true, false, not, ◌&&◌, Option, none, some, List, [], ◌∷◌, ◌++◌, map, ltb, leb,
  str_eq, if◌then◌else◌, length, keep, mem_str, value_error, Result, ok, raise, Dict, get, put,
  values,
}
use traceroute_simulator.Ip.{
  Address, Network, width, ip_address, ip_network, is_in, address_eq, is_loopback,
}
use traceroute_simulator.Ip.V4.{split}

pub record Route : Type 0 where
  pub dst : Option String
  pub gateway : Option String
  pub dev : Option String
  pub prefsrc : Option String
  pub protocol : Option String
  pub scope : Option String
  pub type : Option String

-- `addresses` of an interface: the family and the address
pub record AddressInfo : Type 0 where
  pub family : String
  pub address : Option String

-- An entry of the list format: `dev` and `prefsrc`
pub record InterfaceEntry : Type 0 where
  pub dev : Option String
  pub prefsrc : Option String

-- `facts['network']['interfaces']` in its two formats
pub data InterfaceData : Type 0 where
  parsed : Dict (List AddressInfo) → InterfaceData
  listed : List InterfaceEntry → InterfaceData

pub record Router : Type 0 where
  pub name : String
  pub routes : List Route
  pub interfaces_data : InterfaceData
  pub linux : Bool
  pub router_type : String
  pub ansible_controller : Bool

-- `route.get(key, '')`
abbrev pub or_empty : Option String → String
or_empty none = ""
or_empty (some s) = s

-- The truth of `route.get(key)`
abbrev pub is_given : Option String → Bool
is_given o = not (str_eq (or_empty o) "")

abbrev pub is_text : String → Option String → Bool
is_text s none = false
is_text s (some t) = str_eq t s

unfoldable pub interfaces_from : Dict String → List Route → Dict String
interfaces_from found [] = found
interfaces_from found (r ∷ routes) =
    interfaces_from
      (if is_given r.prefsrc && is_given r.dev
        then put (or_empty r.dev) (or_empty r.prefsrc) found
        else found)
      routes

-- `_extract_interfaces`, the attribute `interfaces`
unfoldable pub interfaces : Router → Dict String
interfaces router = interfaces_from [] router.routes

abbrev pub not_loopback : Option Address → Bool
not_loopback none = false
not_loopback (some a) = not (is_loopback a)

abbrev pub usable : AddressInfo → Bool
usable i =
    str_eq i.family "inet" && is_given i.address && not_loopback (ip_address (or_empty i.address))

abbrev pub put_nonempty : String → List String → Dict (List String) → Dict (List String)
put_nonempty name [] found = found
put_nonempty name (ip ∷ ips) found = put name (ip ∷ ips) found

abbrev pub given_list : Option (List String) → List String
given_list none = []
given_list (some l) = l

unfoldable pub parsed_interfaces : Dict (List String) → Dict (List AddressInfo) → Dict (List String)
parsed_interfaces found [] = found
parsed_interfaces found ((name, infos) ∷ d) =
    parsed_interfaces
      (put_nonempty name (map (λ (i : AddressInfo). or_empty i.address) (keep usable infos)) found)
      d

abbrev pub add_listed : Option String → Option String → Dict (List String) → Dict (List String)
add_listed (some dev) (some prefsrc) found =
    if not_loopback (ip_address prefsrc)
    then (if mem_str prefsrc (given_list (get dev found))
        then found
        else put dev (given_list (get dev found) ++ prefsrc ∷ []) found)
    else found
add_listed none p found = found
add_listed (some dev) none found = found

unfoldable pub listed_interfaces : Dict (List String) → List InterfaceEntry → Dict (List String)
listed_interfaces found [] = found
listed_interfaces found (e ∷ es) = listed_interfaces (add_listed e.dev e.prefsrc found) es

abbrev pub interfaces_of : InterfaceData → Dict (List String)
interfaces_of (parsed d) = parsed_interfaces [] d
interfaces_of (listed es) = listed_interfaces [] es

-- `_extract_all_interfaces`, the attribute `all_interfaces`
unfoldable pub all_interfaces : Router → Dict (List String)
all_interfaces router = interfaces_of router.interfaces_data

abbrev pub concat : List (List String) → List String
concat [] = []
concat (l ∷ ls) = l ++ concat ls

unfoldable pub get_all_ip_addresses : Router → List String
get_all_ip_addresses router = concat (values (all_interfaces router))

-- `best_route` and `best_match_len`, where `none` is no route and -1
abbrev pub Best : Type 0
Best = Option (Route × ℕ)

abbrev pub longer_than : ℕ → Best → Bool
longer_than n none = true
longer_than n (some (r, m)) = ltb m n

abbrev pub host_match : Address → Route → Option Address → Best → Best
host_match a r none best = best
host_match a r (some b) best = if address_eq a b then some (r, width a.version) else best

abbrev pub network_match : Address → Route → Option Network → Best → Best
network_match a r none best = best
network_match a r (some n) best =
    if is_in a n && longer_than n.prefixlen best then some (r, n.prefixlen) else best

abbrev pub default_match : Route → Best → Best
default_match r none = some (r, 0)
default_match r (some b) = some b

abbrev pub has_slash : String → Bool
has_slash s = leb 2 (length (split b'/' s))

-- One round of the loop. A `dst` that is no address or network is passed over.
unfoldable pub consider : Address → Route → Best → Best
consider a r best =
    let dst = or_empty r.dst in
    if str_eq dst "default"
    then default_match r best
    else if has_slash dst
    then network_match a r (ip_network dst) best
    else host_match a r (ip_address dst) best

unfoldable pub best_from : Address → List Route → Best → Best
best_from a [] best = best
best_from a (r ∷ routes) best = best_from a routes (consider a r best)

abbrev pub not_blackhole : Route → Bool
not_blackhole r = not (is_text "blackhole" r.type)

abbrev pub route_of : Best → Option Route
route_of none = none
route_of (some (r, n)) = some r

abbrev pub best_for : List Route → Option Address → Result (Option Route)
best_for routes none = raise value_error
best_for routes (some a) = ok (route_of (best_from a routes none))

-- The source address is not used.
unfoldable pub get_best_route : Router → String → Result (Option Route)
get_best_route router dst_ip = best_for (keep not_blackhole router.routes) (ip_address dst_ip)

unfoldable pub get_interface_ip : Router → String → Option String
get_interface_ip router interface = get interface (interfaces router)

unfoldable pub is_linux : Router → Bool
is_linux router = router.linux

unfoldable pub get_type : Router → String
get_type router = router.router_type

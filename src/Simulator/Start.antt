-- ===== src/Simulator/Start.antt =====
-- The start of `simulate_traceroute` in src/core/traceroute_simulator.py, and the whole of it.
use Prim.Native.String.{◌++◌ as text_append}
use traceroute_simulator.Prelude.{
  String, Bool, true, false, Option, none, some, List, [], ◌∷◌, map, str_eq, if◌then◌else◌, take,
  find, mem_str, value_error, Result, raise, ok, require, ◌>>=◌, ◌>>◌, Dict, get, keys, values,
}
use traceroute_simulator.Ip.{ip_address, Address}
use traceroute_simulator.Router.{Router, or_empty, interfaces, all_interfaces}
use traceroute_simulator.Simulator.{
  Routers, found, find_router_by_ip, resolve_ip_to_name, is_connected, dev_of, first_reaching,
  validate_ip_reachability, interface_with,
}
use traceroute_simulator.Simulator.Trace.{Hop, new_hop, Walk, walk_all}

abbrev pub ip_list_interface : String → Dict (List String) → String
ip_list_interface ip [] = ""
ip_list_interface ip ((name, ips) ∷ d) =
    let rest = ip_list_interface ip d in if mem_str ip ips then name else rest

abbrev pub arrow : String → String → String
arrow s t = text_append s (text_append " -> " t)

module _ (getent : String → List String) (routers : Routers) (src_ip dst_ip : String) where
  -- Both addresses are of one router: one entry, for the router's two interfaces.
  abbrev pub same_router_path : String → Router → List Hop
  same_router_path name router =
      new_hop 1 (arrow name name) (arrow src_ip dst_ip)
        (arrow (ip_list_interface src_ip (all_interfaces router))
          (ip_list_interface dst_ip (all_interfaces router)))
        false ""
      ∷ []

  -- The source is a router's own address.
  abbrev pub start_at_owner : String → Router → Walk
  start_at_owner name router = record {
    path =
        new_hop 1 name src_ip (or_empty (interface_with src_ip (interfaces router))) true "" ∷ [];
    visited = name ∷ [];
    hop = 2;
    current_router = name;
  }

  abbrev pub first_ip : String → Option String → Dict String → List String
  first_ip i (some ip) d = if str_eq ip "" then take 1 (values d) else ip ∷ []
  first_ip i none d = take 1 (values d)

  -- The source is in a network of the router.
  abbrev pub start_beside : String → Router → Option String → Walk
  start_beside name router src_interface = record {
    path =
        new_hop 1 (resolve_ip_to_name getent routers src_ip) src_ip (or_empty src_interface) false
          name
        ∷ map (λ ip. new_hop 2 name ip (or_empty src_interface) true "")
            (first_ip (or_empty src_interface) (get (or_empty src_interface) (interfaces router))
              (interfaces router));
    visited = name ∷ [];
    hop = 3;
    current_router = name;
  }

  abbrev pub beside : String → Router → Option Address → Result Walk
  beside name router none = raise value_error
  beside name router (some a) =
      ok (start_beside name router (dev_of (find (is_connected a) router.routes)))

  abbrev pub start_by : Option String → String → Router → Result Walk
  start_by none name router = beside name router (ip_address src_ip)
  start_by (some owner) name router = ok (start_at_owner name router)

  abbrev pub is_same : Option String → Option String → Bool
  is_same (some n) (some m) = str_eq n m
  is_same (some n) none = false
  is_same none o = false

  abbrev pub trace_from : String → Result (List Hop)
  trace_from start_router = found (get start_router routers) >>= λ router.
      if is_same (find_router_by_ip routers src_ip) (find_router_by_ip routers dst_ip)
      then ok (same_router_path start_router router)
      else start_by (find_router_by_ip routers src_ip) start_router router >>= λ w.
          walk_all getent routers dst_ip w >>= λ w'. ok w'.path

  -- The router that owns the source, or else the first that reaches it.
  abbrev pub start_router : Option String → Result (Option String)
  start_router (some name) = ok (some name)
  start_router none = first_reaching routers (keys routers) src_ip

  abbrev pub trace_at : Option String → Result (List Hop)
  trace_at none = raise value_error
  trace_at (some name) = trace_from name

  unfoldable pub simulate_traceroute : Result (List Hop)
  simulate_traceroute = validate_ip_reachability routers src_ip >>= λ valid.
      require valid value_error >> (start_router (find_router_by_ip routers src_ip) >>= trace_at)

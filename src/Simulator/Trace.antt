-- ===== src/Simulator/Trace.antt =====
-- `simulate_traceroute` of src/core/traceroute_simulator.py: the walk from router to router. A step
-- is one round of its loop, which ends after hop 30.
use Prim.Native.String.{begins, ◌++◌ as text_append}
use traceroute_simulator.Prelude.{
  ℕ, zero, suc, ◌-◌, String, Bool, true, false, not, ◌&&◌, ◌||◌, Option, none, some, List, [], ◌∷◌,
  ◌++◌, map, ◌==◌, str_eq, if◌then◌else◌, find, mem_str, value_error, Result, ok, raise, ◌>>=◌, get,
}
use traceroute_simulator.Ip.{Address, ip_address}
use traceroute_simulator.Router.{
  Route, Router, or_empty, is_given, interfaces, get_best_route, get_interface_ip, get_type,
}
use traceroute_simulator.Simulator.{
  Routers, found, find_router_by_ip, resolve_ip_to_name, is_connected, dev_of,
  get_incoming_interface, is_public_ip, is_destination_reachable, interface_with, NextHop,
  get_next_hop,
}

pub record Hop : Type 0 where
  pub hop_number : ℕ
  pub router_name : String
  pub ip_address : String
  pub interface : String
  pub is_router_owned : Bool
  pub connected_router : String
  pub outgoing_interface : String

abbrev pub new_hop : ℕ → String → String → String → Bool → String → Hop
new_hop n name ip interface owned connected = record {
  hop_number = n;
  router_name = name;
  ip_address = ip;
  interface = interface;
  is_router_owned = owned;
  connected_router = connected;
  outgoing_interface = "";
}

-- The local variables of the loop.
pub record Walk : Type 0 where
  pub path : List Hop
  pub visited : List String
  pub hop : ℕ
  pub current_router : String

abbrev starts_with_arrow : String → Bool
starts_with_arrow s = begins s " -> " 1 0 == 1

-- `s.split(' -> ')[0]`
unfoldable pub before_arrow : String → String
before_arrow String.[] = ""
before_arrow (String.◌∷◌ c s) =
    let rest = before_arrow s in
    if starts_with_arrow (String.◌∷◌ c s) then "" else String.◌∷◌ c rest

-- `' -> ' in s`
unfoldable pub has_arrow : String → Bool
has_arrow String.[] = false
has_arrow (String.◌∷◌ c s) = starts_with_arrow (String.◌∷◌ c s) || has_arrow s

abbrev pub is_plain : String → Bool
is_plain name = not (mem_str name ("source" ∷ "destination" ∷ [])) && not (has_arrow name)

abbrev pub leaving_by : String → Hop → Hop
leaving_by out h = record {
  hop_number = h.hop_number;
  router_name = h.router_name;
  ip_address = h.ip_address;
  interface = h.interface;
  is_router_owned = h.is_router_owned;
  connected_router = h.connected_router;
  outgoing_interface = if is_plain h.router_name then out else h.outgoing_interface;
}

-- The last entry is a router's, then it gets the outgoing interface.
unfoldable pub set_outgoing : String → List Hop → List Hop
set_outgoing out [] = []
set_outgoing out (h ∷ []) = leaving_by out h ∷ []
set_outgoing out (h ∷ g ∷ path) = h ∷ set_outgoing out (g ∷ path)

abbrev pub shown_ips : List Hop → List String
shown_ips path = map (λ (h : Hop). before_arrow h.ip_address) path

abbrev pub Step : Type 0
Step = Walk × Bool

abbrev pub with_path : List Hop → Walk → Walk
with_path path w = record {
  path = path;
  visited = w.visited;
  hop = w.hop;
  current_router = w.current_router;
}

abbrev pub add_hop : Hop → Walk → Walk
add_hop h w = with_path (w.path ++ h ∷ []) w

-- The walk moves on to a router.
abbrev pub move_on : Hop → String → Walk → Walk
move_on h next_router w = record {
  path = w.path ++ h ∷ [];
  visited = w.visited ++ next_router ∷ [];
  hop = suc w.hop;
  current_router = next_router;
}

module _ (getent : String → List String) (routers : Routers) (dst_ip : String) where
  abbrev pub owner_hop : ℕ → String → Option String → Result Hop
  owner_hop n current none = ok (new_hop n current dst_ip "" true "")
  owner_hop n current (some name) = found (get name routers) >>= λ (router : Router).
      ok (new_hop n name dst_ip (or_empty (interface_with dst_ip (interfaces router))) true "")

  abbrev pub connected_hop : ℕ → String → Router → Option Address → Result Hop
  connected_hop n current router none = raise value_error
  connected_hop n current router (some a) = ok (
      new_hop n (resolve_ip_to_name getent routers dst_ip) dst_ip
        (or_empty (dev_of (find (is_connected a) router.routes))) false current)

  abbrev pub destination_hop : ℕ → String → Router → Bool → Result Hop
  destination_hop n current router true = owner_hop n current (find_router_by_ip routers dst_ip)
  destination_hop n current router false =
      connected_hop n current router (traceroute_simulator.Ip.ip_address dst_ip)

  -- The destination is reachable from the current router.
  unfoldable pub arrive : Bool → Router → Walk → Result Walk
  arrive is_owned router w = get_best_route router dst_ip >>= λ (o : Option Route).
      let w' = with_path (set_outgoing (or_empty (dev_of o)) w.path) w in
      if mem_str dst_ip (shown_ips w'.path)
      then ok w'
      else destination_hop w.hop w.current_router router is_owned >>= λ h. ok (add_hop h w')

  abbrev pub no_route : Walk → Walk
  no_route w = add_hop (new_hop w.hop "* * *" "No route" "" false "") w

  abbrev pub looped : String → String → Option String → Walk → Walk
  looped next_router next_ip out w =
      add_hop
        (new_hop w.hop next_router (text_append next_ip " (loop detected)") (or_empty out) false "")
        w

  abbrev pub through_internet : Option String → Walk → Walk
  through_internet out w =
      add_hop
        (new_hop w.hop (resolve_ip_to_name getent routers dst_ip) dst_ip (or_empty out) false
          w.current_router)
        (with_path (set_outgoing (or_empty out) w.path) w)

  abbrev pub ip_of_out : Router → Option String → Option String
  ip_of_out router out = if is_given out then get_interface_ip router (or_empty out) else none

  abbrev pub next_incoming : String → Option String → Option String → Result (Option String)
  next_incoming next_router out ip =
      if is_given ip then get_incoming_interface routers next_router (or_empty ip) else ok out

  abbrev pub is_some_name : Option String → Bool
  is_some_name none = false
  is_some_name (some n) = true

  -- The next router is entered, and the walk stops there if it has the destination.
  abbrev pub enter : Router → String → String → Option String → Walk → Result Step
  enter router next_router next_ip out w =
      next_incoming next_router out (ip_of_out router out) >>= λ (i : Option String). ok (
        move_on
            (new_hop w.hop next_router next_ip (or_empty i)
              (is_some_name (find_router_by_ip routers next_ip)) "")
            next_router (with_path (set_outgoing (or_empty out) w.path) w),
        str_eq next_ip dst_ip,
      )

  -- What is done with the answer of `_get_next_hop`.
  unfoldable pub advance : Router → Walk → NextHop → Result Step
  advance router w (next_router, none, out) = ok (no_route w, true)
  advance router w (none, some next_ip, out) =
      if str_eq next_ip ""
      then ok (no_route w, true)
      else if str_eq next_ip dst_ip && str_eq (get_type router) "gateway" && is_public_ip dst_ip
      then ok (through_internet out w, true)
      else ok (no_route w, true)
  advance router w (some next_router, some next_ip, out) =
      if str_eq next_ip ""
      then ok (no_route w, true)
      else if mem_str next_router w.visited
      then ok (looped next_router next_ip out w, true)
      else enter router next_router next_ip out w

  abbrev pub go_on : Walk → Bool × Bool → Result Step
  go_on w (true, is_owned) = found (get w.current_router routers) >>= λ router.
      arrive is_owned router w >>= λ w'. ok (w', true)
  go_on w (false, is_owned) = get_next_hop routers w.current_router dst_ip >>= λ next.
      elim (get w.current_router routers) [
        | none ↦ ok (no_route w, true)
        | some router ↦ advance router w next
      ]

  -- One round of the loop: the walk after it, and whether it ends the loop.
  unfoldable pub step : Walk → Result Step
  step w = is_destination_reachable routers w.current_router dst_ip >>= go_on w

  -- `while hop <= max_hops`, for the rounds that are left.
  unfoldable pub walk : ℕ → Walk → Result Walk
  walk zero w = ok w
  walk (suc rounds) w = elim (step w) [
    | raise e ↦ raise e
    | ok (w', true) ↦ ok w'
    | ok (w', false) ↦ walk rounds w'
  ]

  abbrev pub max_hops : ℕ
  max_hops = 30

  abbrev pub walk_all : Walk → Result Walk
  walk_all w = walk (suc max_hops - w.hop) w

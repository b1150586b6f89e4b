-- ===== src/Simulator/Networks.antt =====
-- Two routers, with facts as src/core/traceroute_simulator.py reads them, for the tests.
use traceroute_simulator.Prelude.{ℕ, String, true, false, none, some, List, [], ◌∷◌}
use traceroute_simulator.Router.{Route, InterfaceEntry, listed, Router}
use traceroute_simulator.Simulator.{Routers}
use traceroute_simulator.Simulator.Trace.{Hop, new_hop, leaving_by}

abbrev pub link : String → String → String → Route
link dst dev prefsrc = record {
  dst = some dst;
  gateway = none;
  dev = some dev;
  prefsrc = some prefsrc;
  protocol = some "kernel";
  scope = some "link";
  type = none;
}

abbrev pub via : String → String → String → Route
via dst gateway dev = record {
  dst = some dst;
  gateway = some gateway;
  dev = some dev;
  prefsrc = none;
  protocol = some "static";
  scope = none;
  type = none;
}

abbrev pub router_of : String → List Route → List InterfaceEntry → Router
router_of name routes entries = record {
  name = name;
  routes = routes;
  interfaces_data = listed entries;
  router_type = "none";
  linux = true;
  ansible_controller = false;
}

abbrev pub entry : String → String → InterfaceEntry
entry dev ip = record { dev = some dev; prefsrc = some ip }

abbrev pub left : Router
left =
    router_of "left"
      (link "10.1.0.0/16" "eth0" "10.1.0.1"
        ∷ link "10.9.0.0/24" "wg0" "10.9.0.1"
        ∷ via "default" "10.9.0.2" "wg0"
        ∷ via "10.2.0.0/16" "10.9.0.2" "wg0"
        ∷ [])
      (entry "eth0" "10.1.0.1" ∷ entry "wg0" "10.9.0.1" ∷ [])

abbrev pub right : Router
right =
    router_of "right"
      (link "10.2.0.0/16" "eth0" "10.2.0.1"
        ∷ link "10.9.0.0/24" "wg0" "10.9.0.2"
        ∷ via "default" "10.9.0.1" "wg0"
        ∷ [])
      (entry "eth0" "10.2.0.1" ∷ entry "wg0" "10.9.0.2" ∷ [])

abbrev pub two_routers : Routers
two_routers = ("left", left) ∷ ("right", right) ∷ []

abbrev pub no_dns : String → List String
no_dns ip = []

abbrev pub passing : ℕ → String → String → String → String → Hop
passing n name ip interface out = leaving_by out (new_hop n name ip interface true "")

abbrev pub across_path : List Hop
across_path =
    new_hop 1 "10.1.7.7" "10.1.7.7" "eth0" false "left"
    ∷ passing 2 "left" "10.1.0.1" "eth0" "wg0"
    ∷ passing 3 "right" "10.9.0.2" "wg0" "eth0"
    ∷ new_hop 4 "10.2.8.8" "10.2.8.8" "eth0" false "right"
    ∷ []

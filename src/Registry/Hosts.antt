-- ===== src/Registry/Hosts.antt =====
-- The host registry of src/core/registry_manager.py: `check_and_register_host`, `unregister_host`,
-- `get_host_info` and `list_all_hosts`. The transaction log is not modelled.
pub mod Collisions
pub mod Register
use Prim.Native.Char.{code}
use traceroute_simulator.Prelude.{
  ℕ, String, Bool, true, false, ◌&&◌, ◌||◌, Option, none, some, [], ◌∷◌, ◌==◌, str_eq,
  if◌then◌else◌, collision, Result, ok, raise, ◌>>=◌, Dict, get, has, put, remove,
}
use traceroute_simulator.Registry.Files.{File, System, atomic_read, atomic_update, locked}

pub record Host : Type 0 where
  pub primary_ip : String
  pub connected_to : String
  pub mac_address : String
  pub registered_at : ℕ
  pub others : String

-- `additional_info`: it may give the three compared fields anew.
pub record Info : Type 0 where
  pub primary_ip : Option String
  pub connected_to : Option String
  pub mac_address : Option String
  pub others : String

-- `ip.split('/')[0]`
unfoldable pub ip_only : String → String
ip_only String.[] = ""
ip_only (String.◌∷◌ c s) = let rest = ip_only s in if code c == b'/' then "" else String.◌∷◌ c rest

-- The three checks of the loop of `update_fn`, in its order.
unfoldable pub collides : String → String → String → String → String → Host → Bool
collides name primary_ip connected_to mac existing_name existing =
    str_eq existing_name name
    || (str_eq (ip_only existing.primary_ip) (ip_only primary_ip)
          && str_eq existing.connected_to connected_to
        || str_eq existing.mac_address mac)

unfoldable pub any_collision : String → String → String → String → Dict Host → Bool
any_collision name primary_ip connected_to mac [] = false
any_collision name primary_ip connected_to mac ((k, h) ∷ hosts) =
    collides name primary_ip connected_to mac k h
    || any_collision name primary_ip connected_to mac hosts

abbrev pub or_else : Option String → String → String
or_else none s = s
or_else (some t) s = t

abbrev pub new_host : String → String → String → Option Info → ℕ → Host
new_host primary_ip connected_to mac none now = record {
  primary_ip = primary_ip;
  connected_to = connected_to;
  mac_address = mac;
  registered_at = now;
  others = "";
}
new_host primary_ip connected_to mac (some i) now = record {
  primary_ip = or_else i.primary_ip primary_ip;
  connected_to = or_else i.connected_to connected_to;
  mac_address = or_else i.mac_address mac;
  registered_at = now;
  others = i.others;
}

abbrev pub Register : Type 0
Register = Dict Host → Result (Bool × Dict Host)

unfoldable pub register_update : System → String → String → String → String → Option Info → Register
register_update sys name primary_ip connected_to mac info hosts =
    if any_collision name primary_ip connected_to mac hosts
    then raise collision
    else ok (true, put name (new_host primary_ip connected_to mac info sys.now) hosts)

-- `except TsimRegistryCollision: return False`
abbrev pub collision_is_false : Result Bool × File Host → Result Bool × File Host
collision_is_false (raise collision, file) = (ok false, file)
collision_is_false (r, file) = (r, file)

unfoldable pub check_and_register_host :
    System → String → String → String → String → Option Info → File Host → Result Bool × File Host
check_and_register_host sys name primary_ip connected_to mac info file =
    locked sys
      (collision_is_false
        (atomic_update sys (register_update sys name primary_ip connected_to mac info) file))
      file

unfoldable pub unregister_update : String → Register
unregister_update name hosts =
    ok (has name hosts, if has name hosts then remove name hosts else hosts)

unfoldable pub unregister_host : System → String → File Host → Result Bool × File Host
unregister_host sys name file = locked sys (atomic_update sys (unregister_update name) file) file

unfoldable pub get_host_info : String → File Host → Result (Option Host)
get_host_info name file = atomic_read file >>= λ hosts. ok (get name hosts)

unfoldable pub list_all_hosts : File Host → Result (Dict Host)
list_all_hosts file = atomic_read file

-- ===== src/Ip.antt =====
-- Python's `ipaddress`, as src/core/traceroute_simulator.py uses it: `ip_address`, `ip_network`
-- with `strict=False`, `in`, equality and `is_loopback`. Addresses are numbers below 2 ^ 32 or
-- 2 ^ 128; a scope (`%eth0`) is a part of an IPv6 address.
pub mod V4
pub mod V6
mod Tests
use traceroute_simulator.Prelude.{
  ℕ, zero, suc, ◌-◌, ◌*◌, ◌/◌, ◌^◌, String, Bool, true, false, ◌&&◌, Option, none, some, List, [],
  ◌∷◌, leb, ◌==◌, str_eq, if◌then◌else◌, length,
}
use traceroute_simulator.Ip.V4.{split, text_length, ipv4, decimal, at_most}
use traceroute_simulator.Ip.V6.{ipv6}

pub data Version : Type 0 where
  v4 v6 : Version

pub record Address : Type 0 where
  pub version : Version
  pub number : ℕ
  pub scope : String

pub record Network : Type 0 where
  pub version : Version
  pub network_address : ℕ
  pub prefixlen : ℕ

abbrev pub version_eq : Version → Version → Bool
version_eq v4 v4 = true
version_eq v6 v6 = true
version_eq v4 v6 = false
version_eq v6 v4 = false

-- `max_prefixlen`
abbrev pub width : Version → ℕ
width v4 = 32
width v6 = 128

abbrev pub v4_address : Option ℕ → Option Address
v4_address none = none
v4_address (some n) = some (record { version = v4; number = n; scope = "" })

abbrev pub v6_address : String → Option ℕ → Option Address
v6_address scope none = none
v6_address scope (some n) = some (record { version = v6; number = n; scope = scope })

-- At most one `%`, with a scope behind it.
abbrev pub scoped : List String → Option Address
scoped (s ∷ []) = v6_address "" (ipv6 s)
scoped (s ∷ scope ∷ []) = if text_length scope == 0 then none else v6_address scope (ipv6 s)
scoped _ = none

abbrev pub or_v6 : String → Option Address → Option Address
or_v6 s (some a) = some a
or_v6 s none = scoped (split b'%' s)

abbrev pub loopback : Version → ℕ → Bool
loopback v4 n = n / 2 ^ 24 == 127
loopback v6 n = n == 1

-- `ip_address(s)`, where `none` is its `ValueError`
unfoldable pub ip_address : String → Option Address
ip_address s = if length (split b'/' s) == 1 then or_v6 s (v4_address (ipv4 s)) else none

-- The prefix length of a netmask, found among those up to `n`.
unfoldable pub mask_prefix : ℕ → ℕ → Option ℕ
mask_prefix zero m = if m == 0 then some 0 else none
mask_prefix (suc n) m =
    let rest = mask_prefix n m in if m == (2 ^ 32 - 2 ^ (32 - suc n)) then some (suc n) else rest

abbrev pub or_mask : Option ℕ → Option ℕ → Option ℕ
or_mask none o = o
or_mask (some n) o = some n

-- A netmask, or else a hostmask.
abbrev pub dotted_mask : Option ℕ → Option ℕ
dotted_mask none = none
dotted_mask (some m) = or_mask (mask_prefix 32 m) (mask_prefix 32 (2 ^ 32 - 1 - m))

abbrev pub v4_prefix : String → Option ℕ → Option ℕ
v4_prefix s (some n) = if leb n 32 then some n else dotted_mask (ipv4 s)
v4_prefix s none = dotted_mask (ipv4 s)

-- `strict=False` clears the host bits.
abbrev pub clear_host : Version → ℕ → ℕ → ℕ
clear_host v p n = n / 2 ^ (width v - p) * 2 ^ (width v - p)

abbrev pub network : Version → Option ℕ → Option ℕ → Option Network
network v (some n) (some p) =
    some (record { version = v; network_address = clear_host v p n; prefixlen = p })
network v none p = none
network v (some n) none = none

abbrev pub or_network : Option Network → Option Network → Option Network
or_network none o = o
or_network (some n) o = some n

abbrev pub scoped_number : Option Address → Option ℕ
scoped_number none = none
scoped_number (some a) = some a.number

abbrev pub networks : List String → Option Network
networks (a ∷ p ∷ []) =
    or_network (network v4 (ipv4 a) (v4_prefix p (decimal p)))
      (network v6 (scoped_number (scoped (split b'%' a))) (at_most 128 (decimal p)))
networks _ = none

-- `ip_network(s, strict=False)` of a text with a `/`, where `none` is its `ValueError`
unfoldable pub ip_network : String → Option Network
ip_network s = networks (split b'/' s)

-- `a in n`
unfoldable pub is_in : Address → Network → Bool
is_in a n =
    version_eq a.version n.version && clear_host n.version n.prefixlen a.number == n.network_address

-- `a == b`
unfoldable pub address_eq : Address → Address → Bool
address_eq a b = version_eq a.version b.version && a.number == b.number && str_eq a.scope b.scope

-- `a.is_loopback`
unfoldable pub is_loopback : Address → Bool
is_loopback a = loopback a.version a.number

-- ===== src/Ip/Tests.antt =====
-- Addresses and networks as `ipaddress` reads them.
use traceroute_simulator.Prelude.{ℕ, ◌^◌, ◌≡◌, refl, Option, none, some, [], ◌∷◌, map}
use traceroute_simulator.Ip.{Address, Network, ip_address, mask_prefix, ip_network}
use traceroute_simulator.Ip.V6.{hex_after, hextet, parts, number_of, groups, ipv6}
use traceroute_simulator.Ip.V4.{split, decimal_after, decimal, octet, ipv4}

abbrev number_in : Option Address → Option ℕ
number_in none = none
number_in (some a) = some a.number

abbrev net_in : Option Network → Option (ℕ × ℕ)
net_in none = none
net_in (some n) = some (n.network_address, n.prefixlen)

v4_parsed :
    map
      (λ s. number_in (ip_address s))
      ("10.1.2.254" ∷ "10.1.2.256" ∷ "10.1.02.3" ∷ "10.1.2" ∷ "" ∷ "10.0.0.0/8" ∷ [])
    ≡ some 167838462 ∷ none ∷ none ∷ none ∷ none ∷ none ∷ []
unfolding ip_address ipv4 split octet decimal decimal_after ipv6 parts number_of groups hextet
    hex_after
v4_parsed = refl

v6_parsed :
    map
      (λ s. number_in (ip_address s))
      ("::1" ∷ "::" ∷ "1::" ∷ ":1::" ∷ "1:" ∷ ":::" ∷ "::ffff:1.2.3.4" ∷ "1:2:3:4:5:6:7:8"
        ∷ "1:2:3:4:5:6:7::8" ∷ "::1%" ∷ "::1%eth0" ∷ [])
    ≡ some 1
      ∷ some 0
      ∷ some (2 ^ 112)
      ∷ none
      ∷ none
      ∷ none
      ∷ some 281470698652420
      ∷ some 5192455318486707404433266433261576
      ∷ none
      ∷ none
      ∷ some 1
      ∷ []
unfolding ip_address ipv4 split octet decimal decimal_after ipv6 parts number_of groups hextet
    hex_after
v6_parsed = refl

networks_parsed :
    map
      (λ s. net_in (ip_network s))
      ("10.1.2.3/8" ∷ "10.1.2.3/255.255.0.0" ∷ "10.1.2.3/0.0.0.255" ∷ "10.1.2.3/33"
        ∷ "10.1.2.3/24/1" ∷ "::5/127" ∷ "0.0.0.0/0" ∷ [])
    ≡ some (167772160, 8)
      ∷ some (167837696, 16)
      ∷ some (167838208, 24)
      ∷ none
      ∷ none
      ∷ some (4, 127)
      ∷ some (0, 0)
      ∷ []
unfolding ip_address ip_network ipv4 split octet decimal decimal_after ipv6 parts number_of groups
    hextet hex_after mask_prefix
networks_parsed = refl

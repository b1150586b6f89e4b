-- ===== src/Ip/V6.antt =====
-- IPv6 addresses as Python's `ipaddress` reads them.
use Prim.Native.Char.{code}
use traceroute_simulator.Prelude.{
  ℕ, ◌+◌, ◌-◌, ◌*◌, ◌/◌, ◌%◌, ◌^◌, String, ◌&&◌, Option, none, some, List, [], ◌∷◌, ◌++◌, leb, ◌==◌,
  if◌then◌else◌, length,
}
use traceroute_simulator.Ip.V4.{split, text_length, ipv4}

abbrev pub hex_digit : ℕ → Option ℕ
hex_digit c =
    if leb b'0' c && leb c b'9'
    then some (c - b'0')
    else if leb b'a' c && leb c b'f'
    then some (c - b'a' + 10)
    else if leb b'A' c && leb c b'F'
    then some (c - b'A' + 10)
    else none

abbrev pub shifted : ℕ → Option ℕ → Option ℕ
shifted n none = none
shifted n (some d) = some (n * 16 + d)

unfoldable pub hex_after : Option ℕ → String → Option ℕ
hex_after none s = none
hex_after (some n) String.[] = some n
hex_after (some n) (String.◌∷◌ c s) = hex_after (shifted n (hex_digit (code c))) s

-- One to four hexadecimal digits.
unfoldable pub hextet : String → Option ℕ
hextet String.[] = none
hextet (String.◌∷◌ c s) =
    if leb (text_length s) 3 then hex_after (some 0) (String.◌∷◌ c s) else none

-- A part between colons: nothing, a group, or neither.
pub data Part : Type 0 where
  blank wrong : Part
  group : ℕ → Part

abbrev pub group_or_bad : Option ℕ → Part
group_or_bad none = wrong
group_or_bad (some n) = group n

abbrev pub part : String → Part
part String.[] = blank
part (String.◌∷◌ c s) = group_or_bad (hextet (String.◌∷◌ c s))

abbrev pub two_groups : Option ℕ → List Part
two_groups none = wrong ∷ []
two_groups (some n) = group (n / 2 ^ 16) ∷ group (n % 2 ^ 16) ∷ []

-- The last part may be a dotted quad, which is two groups.
unfoldable pub parts : List String → List Part
parts [] = []
parts (p ∷ []) = if leb 2 (length (split b'.' p)) then two_groups (ipv4 p) else part p ∷ []
parts (p ∷ q ∷ ps) = part p ∷ parts (q ∷ ps)

-- The number of some groups, after the number before them.
unfoldable pub number_of : ℕ → List Part → Option ℕ
number_of n [] = some n
number_of n (blank ∷ ps) = none
number_of n (wrong ∷ ps) = none
number_of n (group g ∷ ps) = number_of (n * 2 ^ 16 + g) ps

abbrev pub number_after : Option ℕ → ℕ → List Part → Option ℕ
number_after none skipped lo = none
number_after (some n) skipped lo = number_of (n * 2 ^ (16 * skipped)) lo

-- `::` between groups: at least one group is left out.
abbrev pub filled : List Part → List Part → Option ℕ
filled hi lo =
    if leb (length hi + length lo) 7
    then number_after (number_of 0 hi) (8 - (length hi + length lo)) lo
    else none

-- What stands behind the second colon of `::`, which is blank where the text ends there.
abbrev pub gap : List Part → List Part → Option ℕ
gap hi [] = none
gap hi (blank ∷ []) = filled hi []
gap hi (p ∷ lo) = filled hi (p ∷ lo)

-- The groups, the gap at the first blank part included.
unfoldable pub groups : List Part → List Part → Option ℕ
groups hi [] = if length hi == 8 then number_of 0 hi else none
groups hi (blank ∷ ps) = gap hi ps
groups hi (wrong ∷ ps) = none
groups hi (group g ∷ ps) = groups (hi ++ group g ∷ []) ps

abbrev pub ipv6_parts : List Part → Option ℕ
ipv6_parts (blank ∷ blank ∷ ps) = gap [] ps
ipv6_parts (group g ∷ ps) = groups [] (group g ∷ ps)
ipv6_parts _ = none

-- `IPv6Address(s)`, less its scope
unfoldable pub ipv6 : String → Option ℕ
ipv6 s = ipv6_parts (parts (split b':' s))

-- ===== src/Ip/V4.antt =====
-- IPv4 addresses as Python's `ipaddress` reads them.
use Prim.Native.Char.{Char, code}
use traceroute_simulator.Prelude.{
  ℕ, suc, ◌+◌, ◌-◌, ◌*◌, String, Bool, false, not, ◌&&◌, Option, none, some, List, [], ◌∷◌, leb,
  ◌==◌, if◌then◌else◌,
}

-- `s.split(sep)`
abbrev pub cons_to_head : Char → List String → List String
cons_to_head c [] = String.◌∷◌ c "" ∷ []
cons_to_head c (p ∷ ps) = String.◌∷◌ c p ∷ ps

unfoldable pub split : ℕ → String → List String
split sep String.[] = "" ∷ []
split sep (String.◌∷◌ c s) =
    let rest = split sep s in if code c == sep then "" ∷ rest else cons_to_head c rest

abbrev pub is_digit : Char → Bool
is_digit c = leb b'0' (code c) && leb (code c) b'9'

abbrev pub text_length : String → ℕ
text_length String.[] = 0
text_length (String.◌∷◌ c s) = suc (text_length s)

-- `int(s)` of decimal digits, after the value before them.
unfoldable pub decimal_after : ℕ → String → Option ℕ
decimal_after n String.[] = some n
decimal_after n (String.◌∷◌ c s) =
    let rest = decimal_after (n * 10 + (code c - b'0')) s in if is_digit c then rest else none

-- A nonempty text of digits.
unfoldable pub decimal : String → Option ℕ
decimal String.[] = none
decimal (String.◌∷◌ c s) = decimal_after 0 (String.◌∷◌ c s)

abbrev pub at_most : ℕ → Option ℕ → Option ℕ
at_most m none = none
at_most m (some n) = if leb n m then some n else none

abbrev pub leading_zero : String → Bool
leading_zero String.[] = false
leading_zero (String.◌∷◌ c String.[]) = false
leading_zero (String.◌∷◌ c (String.◌∷◌ d s)) = code c == b'0'

-- One part of a dotted quad: at most three digits, no leading zero, at most 255.
unfoldable pub octet : String → Option ℕ
octet s = if leb (text_length s) 3 && not (leading_zero s) then at_most 255 (decimal s) else none

abbrev pub quad : Option ℕ → Option ℕ → Option ℕ → Option ℕ → Option ℕ
quad (some a) (some b) (some c) (some d) = some (((a * 256 + b) * 256 + c) * 256 + d)
quad _ _ _ _ = none

abbrev pub four_parts : List String → Option ℕ
four_parts (a ∷ b ∷ c ∷ d ∷ []) = quad (octet a) (octet b) (octet c) (octet d)
four_parts _ = none

-- `IPv4Address(s)`
unfoldable pub ipv4 : String → Option ℕ
ipv4 s = four_parts (split b'.' s)

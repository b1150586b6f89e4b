-- ===== src/Firewall/Words.antt =====
-- The texts of src/analyzers/iptables_forward_analyzer.py: Python's `split`, `partition` at a
-- separator, `int`, `str` of a number. What Unicode says of characters is a parameter.
use Prim.Native.Char.{Char, code}
use traceroute_simulator.Prelude.{
  ℕ, zero, suc, ◌+◌, ◌*◌, ◌/◌, ◌%◌, String, Bool, true, false, ◌&&◌, ◌||◌, Option, none, some, List,
  [], ◌∷◌, ltb, leb, ◌==◌, if◌then◌else◌, keep,
}
use traceroute_simulator.Ip.V4.{cons_to_head}
use traceroute_simulator.Ports

-- The value of a decimal digit, what is a blank, `upper` and `lower`.
pub record Unicode : Type 0 where
  pub digit : Char → Option ℕ
  pub is_space : Char → Bool
  pub upper : String → String
  pub lower : String → String

-- The values of `int`: `negsuc n` is -(n + 1).
pub data ℤ : Type 0 where
  pos : ℕ → ℤ
  negsuc : ℕ → ℤ

-- `z <= n` and `n <= z` for a port `n`
abbrev pub le_port : ℤ → ℕ → Bool
le_port (pos m) n = leb m n
le_port (negsuc m) n = true

abbrev pub port_le : ℕ → ℤ → Bool
port_le n (pos m) = leb n m
port_le n (negsuc m) = false

abbrev pub nonempty : String → Bool
nonempty String.[] = false
nonempty (String.◌∷◌ c s) = true

-- `c in s`, for a character with this code
unfoldable pub has_char : ℕ → String → Bool
has_char x String.[] = false
has_char x (String.◌∷◌ c s) = code c == x || has_char x s

-- `s.count(c)`
unfoldable pub count_char : ℕ → String → ℕ
count_char x String.[] = 0
count_char x (String.◌∷◌ c s) = (if code c == x then 1 else 0) + count_char x s

abbrev pub push_first : Char → String × String → String × String
push_first c (s, t) = (String.◌∷◌ c s, t)

-- `s.split(sep, 1)` where `sep in s`: what is before the first `sep`, and what is after it.
unfoldable pub split_once : ℕ → String → String × String
split_once x String.[] = ("", "")
split_once x (String.◌∷◌ c s) =
    let rest = split_once x s in if code c == x then ("", s) else push_first c rest

-- What follows the prefix, where the text starts with it.
unfoldable pub strip_prefix : String → String → Option String
strip_prefix String.[] t = some t
strip_prefix (String.◌∷◌ c s) String.[] = none
strip_prefix (String.◌∷◌ c s) (String.◌∷◌ d t) =
    let rest = strip_prefix s t in if code c == code d then rest else none

abbrev pub digit_char : ℕ → Char
digit_char n =
    if n == 0
    then "0"
    else if n == 1
    then "1"
    else if n == 2
    then "2"
    else if n == 3
    then "3"
    else if n == 4
    then "4"
    else if n == 5
    then "5"
    else if n == 6
    then "6"
    else if n == 7
    then "7"
    else if n == 8
    then "8"
    else "9"

-- A number has at most as many digits as it counts, and one more.
digits_before : ℕ → ℕ → String → String
digits_before zero n s = s
digits_before (suc fuel) n s =
    let shown = String.◌∷◌ (digit_char (n % 10)) s in
    elim (ltb n 10) [ true ↦ shown | false ↦ digits_before fuel (n / 10) shown ]

-- `str(n)`
unfoldable pub str_of : ℕ → String
unfolding digits_before
str_of n = digits_before (suc n) n ""

module _ (u : Unicode) where
  -- `s.strip()`
  abbrev pub strip : String → String
  strip s = Ports.strip u.digit u.is_space u.lower s

  -- The text cut at every blank.
  unfoldable pub cut : String → List String
  cut String.[] = "" ∷ []
  cut (String.◌∷◌ c s) = let rest = cut s in if u.is_space c then "" ∷ rest else cons_to_head c rest

  -- `s.split()`
  unfoldable pub words : String → List String
  words s = keep nonempty (cut s)

  -- Digits, with single underscores between them; `ended` where the last character was a digit.
  unfoldable pub digits_after : ℕ → Bool → String → Option ℕ
  digits_after n ended String.[] = if ended then some n else none
  digits_after n ended (String.◌∷◌ c s) = elim (u.digit c) [
    | some d ↦ digits_after (n * 10 + d) true s
    | none ↦ elim (code c == b'_' && ended) [ true ↦ digits_after n false s | false ↦ none ]
  ]

  abbrev pub positive : Option ℕ → Option ℤ
  positive none = none
  positive (some n) = some (pos n)

  abbrev pub negative : Option ℕ → Option ℤ
  negative none = none
  negative (some zero) = some (pos 0)
  negative (some (suc n)) = some (negsuc n)

  abbrev pub signed : String → Option ℤ
  signed String.[] = none
  signed (String.◌∷◌ c s) =
      if code c == b'-'
      then negative (digits_after 0 false s)
      else if code c == b'+'
      then positive (digits_after 0 false s)
      else positive (digits_after 0 false (String.◌∷◌ c s))

  -- `int(s)`, where `none` is its `ValueError`
  unfoldable pub int : String → Option ℤ
  int s = signed (strip s)

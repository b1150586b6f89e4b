-- ===== src/Firewall/Rules.antt =====
-- The class `IptablesRule` of src/analyzers/iptables_forward_analyzer.py: the text of a rule and
-- the criteria that are read from its words.
use traceroute_simulator.Prelude.{
  ℕ, zero, suc, String, ◌&&◌, Option, none, some, List, [], ◌∷◌, str_eq, if◌then◌else◌, mem_str,
}
use traceroute_simulator.Firewall.Words.{Unicode, strip_prefix, strip, words}

pub record MatchSet : Type 0 where
  pub set_name : String
  pub direction : String

-- `parsed_criteria`. A key that is missing and one that is `None` have the same meaning wherever
-- they are read; so have no match sets and an empty list.
pub record Criteria : Type 0 where
  pub match_sets : List MatchSet
  pub protocol : Option String
  pub in_interface : Option String
  pub out_interface : Option String
  pub source : Option String
  pub destination : Option String
  pub source_port : Option String
  pub dest_port : Option String
  pub conntrack_state : Option String

abbrev pub no_criteria : Criteria
no_criteria = record {
  match_sets = [];
  protocol = none;
  in_interface = none;
  out_interface = none;
  source = none;
  destination = none;
  source_port = none;
  dest_port = none;
  conntrack_state = none;
}

-- The loop over `match-set`: the number is how many of the next words a match has taken.
unfoldable pub match_sets_in : ℕ → List String → List MatchSet
match_sets_in k [] = []
match_sets_in (suc k) (t ∷ ts) = match_sets_in k ts
match_sets_in zero (t ∷ []) = []
match_sets_in zero (t ∷ a ∷ []) = []
match_sets_in zero (t ∷ a ∷ b ∷ ts) =
    let taken = match_sets_in 2 (a ∷ b ∷ ts) in
    let passed = match_sets_in 0 (a ∷ b ∷ ts) in
    if mem_str t ("match-set" ∷ "--match-set" ∷ [])
    then record { set_name = a; direction = b } ∷ taken
    else passed

-- The options of one value, the word after them.
unfoldable pub value_option : String → String → Criteria → Option Criteria
value_option t v c =
    if str_eq t "-s"
    then some (record c { source = some v })
    else if str_eq t "-d"
    then some (record c { destination = some v })
    else if str_eq t "-i"
    then some (record c { in_interface = some v })
    else if str_eq t "-o"
    then some (record c { out_interface = some v })
    else if str_eq t "-p"
    then some (record c { protocol = some v })
    else if str_eq t "--sport"
    then some (record c { source_port = some v })
    else if mem_str t ("--dport" ∷ "--dports" ∷ "dports" ∷ [])
    then some (record c { dest_port = some v })
    else if mem_str t ("--sports" ∷ "sports" ∷ [])
    then some (record c { source_port = some v })
    else if str_eq t "state"
    then some (record c { conntrack_state = some v })
    else none

abbrev pub or_else : Option Criteria → Option Criteria → Option Criteria
or_else (some c) o = some c
or_else none o = o

abbrev pub set_dest_port : Criteria → Option String → Option Criteria
set_dest_port c none = none
set_dest_port c (some v) = some (record c { dest_port = some v })

abbrev pub set_source_port : Criteria → Option String → Option Criteria
set_source_port c none = none
set_source_port c (some v) = some (record c { source_port = some v })

-- The options that hold their value behind a colon.
unfoldable pub colon_option : String → Criteria → Option Criteria
colon_option t c = or_else (set_dest_port c (strip_prefix "dpts:" t)) (
    or_else (set_dest_port c (strip_prefix "dpt:" t)) (
      or_else (set_source_port c (strip_prefix "spts:" t))
        (set_source_port c (strip_prefix "spt:" t))))

-- The options of four words.
unfoldable pub long_option : (t a b v : String) → Criteria → Option Criteria
long_option t a b v c =
    if str_eq t "-m" && (str_eq a "conntrack" && str_eq b "--ctstate")
    then some (record c { conntrack_state = some v })
    else if str_eq t "-m" && (str_eq a "state" && str_eq b "--state")
    then some (record c { conntrack_state = some v })
    else if str_eq t "destination" && (str_eq a "IP" && str_eq b "range")
    then some (record c { destination = some v })
    else if str_eq t "source" && (str_eq a "IP" && str_eq b "range")
    then some (record c { source = some v })
    else none

-- The criteria after a word, and how many of the next words it has taken.
abbrev pub taking : ℕ → Criteria → Option Criteria → Criteria × ℕ
taking n c none = (c, 0)
taking n c (some c') = (c', n)

abbrev pub read_long : Criteria → String → String → List String → Criteria × ℕ
read_long c t a [] = (c, 0)
read_long c t a (b ∷ []) = (c, 0)
read_long c t a (b ∷ v ∷ ts) = taking 3 c (long_option t a b v c)

abbrev pub read_without_value :
    Criteria → String → String → List String → Option Criteria → Criteria × ℕ
read_without_value c t a ts none = read_long c t a ts
read_without_value c t a ts (some c') = (c', 0)

abbrev pub read_with_value :
    Criteria → String → String → List String → Option Criteria → Criteria × ℕ
read_with_value c t v ts none = read_without_value c t v ts (colon_option t c)
read_with_value c t v ts (some c') = (c', 1)

abbrev pub read_option : Criteria → String → List String → Criteria × ℕ
read_option c t [] = taking 0 c (colon_option t c)
read_option c t (v ∷ ts) = read_with_value c t v ts (value_option t v c)

-- The loop over the options.
unfoldable pub read_options : Criteria → ℕ → List String → Criteria
read_options c k [] = c
read_options c (suc k) (t ∷ ts) = read_options c k ts
read_options c zero (t ∷ ts) = let (c', n) = read_option c t ts in read_options c' n ts

abbrev pub unless : String → String → Option String
unless word t = if str_eq t word then none else some t

-- Six words with `--` as the second are the positional format of `iptables -L`.
unfoldable pub read_words : List MatchSet → List String → Criteria
read_words sets (p ∷ d ∷ i ∷ o ∷ s ∷ t ∷ rest) =
    let flagged =
      read_options (record no_criteria { match_sets = sets }) 0 (p ∷ d ∷ i ∷ o ∷ s ∷ t ∷ rest) in
    let listed =
      read_options
        (record {
          match_sets = sets;
          protocol = unless "all" p;
          in_interface = unless "*" i;
          out_interface = unless "*" o;
          source = unless "0.0.0.0/0" s;
          destination = unless "0.0.0.0/0" t;
          source_port = none;
          dest_port = none;
          conntrack_state = none;
        })
        0 rest in
    if str_eq d "--" then listed else flagged
read_words sets ts = read_options (record no_criteria { match_sets = sets }) 0 ts

pub record IptablesRule : Type 0 where
  pub line_number : ℕ
  pub rule_text : String
  pub target : String
  pub parsed_criteria : Criteria

module _ (u : Unicode) where
  unfoldable pub parse_rule_criteria : String → Criteria
  parse_rule_criteria rule_text =
      let tokens = words u rule_text in read_words (match_sets_in 0 tokens) tokens

  unfoldable pub new_rule : ℕ → String → String → IptablesRule
  new_rule line_number rule_text target = record {
    line_number = line_number;
    rule_text = strip u rule_text;
    target = target;
    parsed_criteria = parse_rule_criteria (strip u rule_text);
  }

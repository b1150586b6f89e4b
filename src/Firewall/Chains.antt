-- ===== src/Firewall/Chains.antt =====
-- `analyze_packet` and `_analyze_custom_chain` of src/analyzers/iptables_forward_analyzer.py: the
-- walk of a packet through the FORWARD chain. The depth of calls is fuel: a walk that is deeper
-- ends in Python's `RecursionError`.
pub mod Rulebook
pub mod Sound
pub mod Complete
pub mod Refines
pub mod Total
pub mod Blame
use traceroute_simulator.Prelude.{
  ℕ, zero, suc, String, Bool, true, false, Option, none, some, List, [], ◌∷◌, str_eq, ◌||◌,
  if◌then◌else◌, mem_str, Result, ok, raise, recursion_error, ◌>>=◌, Dict, get, has,
}
use traceroute_simulator.Firewall.Words.{Unicode}
use traceroute_simulator.Firewall.Rules.{IptablesRule}
use traceroute_simulator.Firewall.Matching.{Packet, Analyzer, matches_packet}

-- The texts of the reasons, by what they name.
pub data Reason : Type 0 where
  allowed denied returned : (line_number : ℕ) → Reason
  natted : (line_number : ℕ) (target : String) → Reason
  policy : String → Reason
  not_found : (chain_name : String) → Reason
  no_matches : Reason
  in_chain : (target : String) → Reason → Reason
  in_nested : (target : String) (line_number : ℕ) → Reason → Reason

abbrev pub known_targets : List String
known_targets =
    "ACCEPT" ∷ "DROP" ∷ "REJECT" ∷ "RETURN" ∷ "DNAT" ∷ "SNAT" ∷ "MASQUERADE" ∷ "REDIRECT" ∷ "LOG"
    ∷ "CONNMARK" ∷ "MARK" ∷ "LIMIT" ∷ "TOS" ∷ "DSCP" ∷ "ULOG" ∷ "NFLOG" ∷ "TCPMSS" ∷ "TTL" ∷ "HL"
    ∷ []

-- What a matching rule does, by the branches on its target.
pub data Action : Type 0 where
  accept deny give_back go_on nat follow : Action

abbrev pub Chains : Type 0
Chains = Dict (List IptablesRule)

unfoldable pub is_known : Unicode → Chains → String → Bool
is_known u chains target = mem_str (u.upper target) known_targets || has target chains

unfoldable pub action : Unicode → Chains → String → Action
action u chains target =
    let upper = u.upper target in
    if str_eq upper "ACCEPT"
    then accept
    else if mem_str upper ("DROP" ∷ "REJECT" ∷ [])
    then deny
    else if str_eq upper "RETURN"
    then give_back
    else if mem_str upper ("LOG" ∷ "ULOG" ∷ "NFLOG" ∷ [])
    then go_on
    else if mem_str upper ("CONNMARK" ∷ "MARK" ∷ "TOS" ∷ "DSCP" ∷ "TCPMSS" ∷ "TTL" ∷ "HL" ∷ [])
    then go_on
    else if mem_str upper ("DNAT" ∷ "SNAT" ∷ "MASQUERADE" ∷ "REDIRECT" ∷ [])
    then nat
    else if has target chains
    then follow
    else go_on

-- The answer of a chain: a decision, or `None` where the caller goes on.
abbrev pub ChainAnswer : Type 0
ChainAnswer = Option Bool × Reason

abbrev pub default_answer : Analyzer → Reason → Bool × Reason
default_answer an reason = (str_eq an.default_policy "ACCEPT", reason)

abbrev pub after_nested : IptablesRule → Result ChainAnswer → ChainAnswer → Result ChainAnswer
after_nested r rest (none, reason) = rest
after_nested r rest (some b, reason) = ok (some b, in_nested r.target r.line_number reason)

abbrev pub after_chain :
    IptablesRule → Result (Bool × Reason) → ChainAnswer → Result (Bool × Reason)
after_chain r rest (none, reason) = rest
after_chain r rest (some b, reason) = ok (b, in_chain r.target reason)

module _ (u : Unicode) (an : Analyzer) (p : Packet) (nested : String → Result ChainAnswer) where
  -- A rule of a custom chain that matches, with the answer of the rules after it.
  abbrev pub act_in_chain : IptablesRule → Action → Result ChainAnswer → Result ChainAnswer
  act_in_chain r accept rest = ok (some true, allowed r.line_number)
  act_in_chain r deny rest = ok (some false, denied r.line_number)
  act_in_chain r give_back rest = ok (none, returned r.line_number)
  act_in_chain r go_on rest = rest
  act_in_chain r nat rest = ok (some true, natted r.line_number r.target)
  act_in_chain r follow rest = nested r.target >>= after_nested r rest

  unfoldable pub chain_rules : List IptablesRule → Result ChainAnswer
  chain_rules [] = ok (none, no_matches)
  chain_rules (r ∷ rules) =
      let rest = chain_rules rules in
      if is_known u an.custom_chains r.target
      then (matches_packet u an p r >>= λ matched.
          if matched then act_in_chain r (action u an.custom_chains r.target) rest else rest)
      else rest

  -- The same for a rule of FORWARD, where `RETURN` applies the default policy.
  abbrev pub act_in_forward :
      IptablesRule → Action → Result (Bool × Reason) → Result (Bool × Reason)
  act_in_forward r accept rest = ok (true, allowed r.line_number)
  act_in_forward r deny rest = ok (false, denied r.line_number)
  act_in_forward r give_back rest = ok (default_answer an (returned r.line_number))
  act_in_forward r go_on rest = rest
  act_in_forward r nat rest = ok (true, natted r.line_number r.target)
  act_in_forward r follow rest = nested r.target >>= after_chain r rest

  unfoldable pub forward_from : List IptablesRule → Result (Bool × Reason)
  forward_from [] = ok (default_answer an (policy an.default_policy))
  forward_from (r ∷ rules) =
      let rest = forward_from rules in
      if is_known u an.custom_chains r.target
      then (matches_packet u an p r >>= λ matched.
          if matched then act_in_forward r (action u an.custom_chains r.target) rest else rest)
      else rest

unfoldable pub analyze_custom_chain : ℕ → Unicode → Analyzer → Packet → String → Result ChainAnswer
analyze_custom_chain zero u an p name = raise recursion_error
analyze_custom_chain (suc depth) u an p name = elim (get name an.custom_chains) [
  | none ↦ ok (none, not_found name)
  | some rules ↦ chain_rules u an p (analyze_custom_chain depth u an p) rules
]

unfoldable pub analyze_packet : ℕ → Unicode → Analyzer → Packet → Result (Bool × Reason)
analyze_packet depth u an p =
    forward_from u an p (analyze_custom_chain depth u an p) an.forward_rules

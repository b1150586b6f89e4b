-- ===== src/Firewall/Chains/Sound.antt =====
-- `_analyze_custom_chain` of src/analyzers/iptables_forward_analyzer.py answers by the rulebook.
use traceroute_simulator.Prelude.{
  ℕ, zero, suc, String, ◌≡◌, refl, ap, subst, ◌∙◌, inl, inr, Bool, true, Option, none, some, List,
  [], ◌∷◌, arith, Result, ok, >>=-eq-ok, get, has, has-eq-get, Option-cases, Bool-cases,
}
use traceroute_simulator.Firewall.Words.{Unicode}
use traceroute_simulator.Firewall.Rules.{IptablesRule}
use traceroute_simulator.Firewall.Matching.{Packet, Analyzer, matches_packet}
use traceroute_simulator.Firewall.Chains.{
  Chains, Reason, ChainAnswer, Action, is_known, action, accept, deny, give_back, go_on, nat,
  follow, after_nested, act_in_chain, chain_rules, analyze_custom_chain,
}
use traceroute_simulator.Firewall.Chains.Rulebook.{
  Applies, Runs, ends, skips, accepts, translates, denies, returns, passes, jumps, comes_back,
}

-- An action is none of the others, or it is to follow a chain that is there.
pub follow_has :
    (u : Unicode) (chains : Chains) (target : String)
    → action u chains target ≡ follow
    → has target chains ≡ true
unfolding action
follow_has u chains target h = ground arith

module _ (u : Unicode) (an : Analyzer) (p : Packet) where
  -- A nested chain that answers has run.
  abbrev pub Sound : (String → Result ChainAnswer) → Type 0
  Sound nested =
      (name : String) (o : Option Bool) (reason : Reason)
      → has name an.custom_chains ≡ true
      → nested name ≡ ok (o, reason)
      → (body : List IptablesRule) × (get name an.custom_chains ≡ some body) × Runs u an p body o

  module _ (nested : String → Result ChainAnswer) (sound : Sound nested) where
    -- A rule that follows a chain.
    after_nested-Runs :
        (r : IptablesRule) (rules body : List IptablesRule) (rest : Result ChainAnswer)
        → (answer : ChainAnswer) {o : Option Bool} {reason : Reason} → Applies u an p r
        → action u an.custom_chains r.target ≡ follow
        → get r.target an.custom_chains ≡ some body
        → Runs u an p body answer.0
        → ((o : Option Bool) (reason : Reason) → rest ≡ ok (o, reason) → Runs u an p rules o)
        → after_nested r rest answer ≡ ok (o, reason)
        → Runs u an p (r ∷ rules) o
    after_nested-Runs r rules body rest (none, _) {o} {reason} applies ac there run ih h =
        comes_back applies ac there run (ih o reason h)
    after_nested-Runs r rules body rest (some b, _) applies ac there run ih h =
        subst (Runs u an p (r ∷ rules)) (cc h) (jumps applies ac there run)

    -- A rule that applies, by its action.
    act_in_chain-Runs :
        (r : IptablesRule) (rules : List IptablesRule) (rest : Result ChainAnswer)
        → (a : Action) {o : Option Bool} {reason : Reason} → Applies u an p r
        → action u an.custom_chains r.target ≡ a
        → ((o : Option Bool) (reason : Reason) → rest ≡ ok (o, reason) → Runs u an p rules o)
        → act_in_chain u an p nested r a rest ≡ ok (o, reason)
        → Runs u an p (r ∷ rules) o
    act_in_chain-Runs r rules rest accept applies ac ih h =
        subst (Runs u an p (r ∷ rules)) (cc h) (accepts applies ac)
    act_in_chain-Runs r rules rest deny applies ac ih h =
        subst (Runs u an p (r ∷ rules)) (cc h) (denies applies ac)
    act_in_chain-Runs r rules rest give_back applies ac ih h =
        subst (Runs u an p (r ∷ rules)) (cc h) (returns applies ac)
    act_in_chain-Runs r rules rest go_on {o} {reason} applies ac ih h =
        passes applies ac (ih o reason h)
    act_in_chain-Runs r rules rest nat applies ac ih h =
        subst (Runs u an p (r ∷ rules)) (cc h) (translates applies ac)
    act_in_chain-Runs r rules rest follow applies ac ih h =
        let (answer, called, went) = >>=-eq-ok (nested r.target) (after_nested r rest) h in
        let (body, there, run) =
          sound r.target answer.0 answer.1 (follow_has u an.custom_chains r.target ac) called in
        after_nested-Runs r rules body rest answer applies ac there run ih went

    pub chain_rules-Runs :
        (rules : List IptablesRule) (o : Option Bool) (reason : Reason)
        → chain_rules u an p nested rules ≡ ok (o, reason)
        → Runs u an p rules o
    unfolding chain_rules
    chain_rules-Runs [] o reason h = subst (Runs u an p []) (cc h) ends
    chain_rules-Runs (r ∷ rules) o reason h =
        elim (Bool-cases (is_known u an.custom_chains r.target)) [
          | inr unknown ↦ skips (inl unknown) (chain_rules-Runs rules o reason (rw unknown at h))
          | inl known ↦
              let (matched, met, went) = >>=-eq-ok (matches_packet u an p r) _ (rw known at h) in
              elim (Bool-cases matched) [
                | inr no_match ↦
                    skips (inr (met ∙ ap ok no_match))
                      (chain_rules-Runs rules o reason (rw no_match at went))
                | inl match ↦
                    act_in_chain-Runs r rules (chain_rules u an p nested rules)
                      (action u an.custom_chains r.target) (known, met ∙ ap ok match) refl
                      (chain_rules-Runs rules) (rw match at went)
              ]
        ]

  pub analyze_custom_chain-Sound : (depth : ℕ) → Sound (analyze_custom_chain depth u an p)
  unfolding analyze_custom_chain
  analyze_custom_chain-Sound zero name o reason there h = cc h
  analyze_custom_chain-Sound (suc depth) name o reason there h =
      elim (Option-cases (get name an.custom_chains)) [
        | inl absent ↦ absurd (has-eq-get name an.custom_chains there absent)
        | inr (body, found) ↦ (
          body,
          found,
          chain_rules-Runs (analyze_custom_chain depth u an p) (analyze_custom_chain-Sound depth)
              body o reason (rw (found, analyze_custom_chain) at h),
        )
      ]

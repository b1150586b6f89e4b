-- ===== src/Firewall/Chains/Complete.antt =====
-- What the rulebook decides, `_analyze_custom_chain` of src/analyzers/iptables_forward_analyzer.py
-- answers, where no chain leads back to itself.
use traceroute_simulator.Prelude.{
  ℕ, zero, suc, ◌≤◌, ◌<◌, String, ◌≡◌, refl, ◌∙◌, inl, inr, Bool, true, Option, some, List, [], ◌∷◌,
  arith, ok, get, has, get-none_of_has, Bool-cases,
}
use traceroute_simulator.Firewall.Words.{Unicode}
use traceroute_simulator.Firewall.Rules.{IptablesRule}
use traceroute_simulator.Firewall.Matching.{Packet, Analyzer}
use traceroute_simulator.Firewall.Chains.{
  Chains, Reason, allowed, denied, returned, natted, no_matches, in_nested, Action, is_known,
  action, accept, deny, give_back, go_on, nat, follow, act_in_chain, chain_rules,
  analyze_custom_chain,
}
use traceroute_simulator.Firewall.Chains.Rulebook.{
  Applies, Skipped, Runs, ends, skips, accepts, translates, denies, returns, passes, jumps,
  comes_back, RefersBelow, IsAcyclic,
}

has_of_get :
    (name : String) (chains : Chains) {body : List IptablesRule}
    → get name chains ≡ some body
    → has name chains ≡ true
has_of_get name chains h = elim (Bool-cases (has name chains)) [
  | inl e ↦ e
  | inr e ↦ cc (h, get-none_of_has name chains e)
]

pub RefersBelow-mono :
    (rank : String → ℕ) (chains : Chains) (m n : ℕ) (rules : List IptablesRule)
    → m ≤ n
    → RefersBelow rank chains m rules
    → RefersBelow rank chains n rules
RefersBelow-mono rank chains m n [] k h = tt
RefersBelow-mono rank chains m n (r ∷ rules) k h =
    ((λ there. omega (arith, h.0 there)), RefersBelow-mono rank chains m n rules k h.1)

module _ (u : Unicode) (an : Analyzer) (p : Packet) (rank : String → ℕ) where
  -- The chain answers `o` at this depth.
  abbrev pub Gives : ℕ → List IptablesRule → Option Bool → Type 0
  Gives depth rules o =
      (reason : Reason) × (chain_rules u an p (analyze_custom_chain depth u an p) rules
        ≡ ok (o, reason))

  -- A nested chain answers what its rules give, at a depth above its rank.
  nested-Gives :
      (depth : ℕ) (r : IptablesRule) (body : List IptablesRule) (o : Option Bool)
      → get r.target an.custom_chains ≡ some body
      → Gives depth body o
      → (reason : Reason) × (analyze_custom_chain (suc depth) u an p r.target ≡ ok (o, reason))
  unfolding analyze_custom_chain
  nested-Gives depth r body o there (reason, e) = (reason, rw (there, analyze_custom_chain) e)

  Applies-step :
      (depth : ℕ) (r : IptablesRule) (rules : List IptablesRule) (a : Action)
      → Applies u an p r
      → action u an.custom_chains r.target ≡ a
      → chain_rules u an p (analyze_custom_chain depth u an p) (r ∷ rules)
        ≡ act_in_chain u an p
            (analyze_custom_chain depth u an p)
            r
            a
            (chain_rules u an p (analyze_custom_chain depth u an p) rules)
  unfolding chain_rules
  Applies-step depth r rules a (known, match) ac = rw (known, match, ac)

  Skipped-step :
      (depth : ℕ) (r : IptablesRule) (rules : List IptablesRule)
      → Skipped u an p r
      → chain_rules u an p (analyze_custom_chain depth u an p) (r ∷ rules)
        ≡ chain_rules u an p (analyze_custom_chain depth u an p) rules
  unfolding chain_rules
  Skipped-step depth r rules (inl unknown) = rw unknown
  Skipped-step depth r rules (inr no_match) =
      elim (Bool-cases (is_known u an.custom_chains r.target)) [
        | inl known ↦ rw (known, no_match)
        | inr unknown ↦ rw unknown
      ]

  -- A chain that is followed is called at a depth that is left.
  pub called_below :
      (depth : ℕ) (r : IptablesRule) {body : List IptablesRule}
      → IsAcyclic rank an.custom_chains
      → get r.target an.custom_chains ≡ some body
      → (has r.target an.custom_chains ≡ true → rank r.target < suc depth)
      → RefersBelow rank an.custom_chains depth body
  called_below depth r {body} acyclic there below =
      RefersBelow-mono rank an.custom_chains (rank r.target) depth body
        (omega (arith, below (has_of_get r.target an.custom_chains there)))
        (acyclic r.target body there)

  pub Runs-chain_rules :
      IsAcyclic rank an.custom_chains
      → (depth : ℕ) {rules : List IptablesRule} {o : Option Bool} → Runs u an p rules o
      → RefersBelow rank an.custom_chains depth rules
      → Gives depth rules o
  unfolding chain_rules
  Runs-chain_rules acyclic depth ends below = (no_matches, refl)
  Runs-chain_rules acyclic depth (skips {r} {rules} skipped run) below =
      let (reason, e) = Runs-chain_rules acyclic depth run below.1 in
      (reason, Skipped-step depth r rules skipped ∙ e)
  Runs-chain_rules acyclic depth (accepts {r} {rules} applies ac) below =
      (allowed r.line_number, Applies-step depth r rules accept applies ac)
  Runs-chain_rules acyclic depth (translates {r} {rules} applies ac) below =
      (natted r.line_number r.target, Applies-step depth r rules nat applies ac)
  Runs-chain_rules acyclic depth (denies {r} {rules} applies ac) below =
      (denied r.line_number, Applies-step depth r rules deny applies ac)
  Runs-chain_rules acyclic depth (returns {r} {rules} applies ac) below =
      (returned r.line_number, Applies-step depth r rules give_back applies ac)
  Runs-chain_rules acyclic depth (passes {r} {rules} applies ac run) below =
      let (reason, e) = Runs-chain_rules acyclic depth run below.1 in
      (reason, Applies-step depth r rules go_on applies ac ∙ e)
  Runs-chain_rules acyclic zero (jumps {r} applies ac there run) below =
      absurd (omega (arith, below.0 (has_of_get r.target an.custom_chains there)))
  Runs-chain_rules acyclic (suc depth) (jumps {r} {rules} {body} applies ac there run) below =
      let (reason, e) =
        nested-Gives depth r body _ there
          (Runs-chain_rules acyclic depth run (called_below depth r acyclic there below.0)) in
      (
        in_nested r.target r.line_number reason,
        Applies-step (suc depth) r rules follow applies ac ∙ rw e,
      )
  Runs-chain_rules acyclic zero (comes_back {r} applies ac there run after) below =
      absurd (omega (arith, below.0 (has_of_get r.target an.custom_chains there)))
  Runs-chain_rules acyclic (suc depth) (comes_back {r} {rules} {body} applies ac there run after)
        below =
      let (reason, e) =
        nested-Gives depth r body _ there
          (Runs-chain_rules acyclic depth run (called_below depth r acyclic there below.0)) in
      let (last, e') = Runs-chain_rules acyclic (suc depth) after below.1 in
      (last, Applies-step (suc depth) r rules follow applies ac ∙ rw e e')

-- ===== src/Firewall/Chains/Rulebook.antt =====
-- What a packet filter promises, apart from the loops of
-- src/analyzers/iptables_forward_analyzer.py: the rules of a chain apply in their order, a rule
-- that does not apply is passed over, and the first that decides is the answer. `none` is a chain
-- that ends with no decision.
use traceroute_simulator.Prelude.{
  ℕ, ◌<◌, String, ◌≡◌, ◌⊎◌, Bool, true, false, Option, none, some, List, [], ◌∷◌, ok, get, has, All,
  str_eq,
}
use traceroute_simulator.Firewall.Words.{Unicode}
use traceroute_simulator.Firewall.Rules.{IptablesRule}
use traceroute_simulator.Firewall.Matching.{Packet, Analyzer, matches_packet}
use traceroute_simulator.Firewall.Chains.{
  Chains, is_known, action, accept, deny, give_back, go_on, nat, follow,
}

module _ (u : Unicode) (an : Analyzer) (p : Packet) where
  abbrev pub Applies : IptablesRule → Type 0
  Applies r = (is_known u an.custom_chains r.target ≡ true) × (matches_packet u an p r ≡ ok true)

  abbrev pub Skipped : IptablesRule → Type 0
  Skipped r = (is_known u an.custom_chains r.target ≡ false) ⊎ (matches_packet u an p r ≡ ok false)

  pub data Runs : List IptablesRule → Option Bool → Type 0 where
    ends : Runs [] none
    skips :
        {r : IptablesRule} {rules : List IptablesRule} {o : Option Bool}
        → Skipped r
        → Runs rules o
        → Runs (r ∷ rules) o
    accepts :
        {r : IptablesRule} {rules : List IptablesRule}
        → Applies r
        → action u an.custom_chains r.target ≡ accept
        → Runs (r ∷ rules) (some true)
    translates :
        {r : IptablesRule} {rules : List IptablesRule}
        → Applies r
        → action u an.custom_chains r.target ≡ nat
        → Runs (r ∷ rules) (some true)
    denies :
        {r : IptablesRule} {rules : List IptablesRule}
        → Applies r
        → action u an.custom_chains r.target ≡ deny
        → Runs (r ∷ rules) (some false)
    returns :
        {r : IptablesRule} {rules : List IptablesRule}
        → Applies r
        → action u an.custom_chains r.target ≡ give_back
        → Runs (r ∷ rules) none
    passes :
        {r : IptablesRule} {rules : List IptablesRule} {o : Option Bool}
        → Applies r
        → action u an.custom_chains r.target ≡ go_on
        → Runs rules o
        → Runs (r ∷ rules) o
    jumps :
        {r : IptablesRule} {rules body : List IptablesRule} {b : Bool}
        → Applies r
        → action u an.custom_chains r.target ≡ follow
        → get r.target an.custom_chains ≡ some body
        → Runs body (some b)
        → Runs (r ∷ rules) (some b)
    comes_back :
        {r : IptablesRule} {rules body : List IptablesRule} {o : Option Bool}
        → Applies r
        → action u an.custom_chains r.target ≡ follow
        → get r.target an.custom_chains ≡ some body
        → Runs body none
        → Runs rules o
        → Runs (r ∷ rules) o

  -- The decision on the packet: that of the FORWARD chain, or else the default policy's.
  abbrev pub Decides : Bool → Type 0
  Decides b =
      Runs an.forward_rules (some b)
      ⊎ Runs an.forward_rules none × (str_eq an.default_policy "ACCEPT" ≡ b)

-- The rules refer only to chains whose rank is below `n`.
abbrev pub RefersBelow : (String → ℕ) → Chains → ℕ → List IptablesRule → Type 0
RefersBelow rank chains n rules = All (λ r. has r.target chains ≡ true → rank r.target < n) rules

-- No chain leads back to itself: each refers only to chains of a lower rank.
abbrev pub IsAcyclic : (String → ℕ) → Chains → Type 0
IsAcyclic rank chains =
    (name : String) (body : List IptablesRule)
    → get name chains ≡ some body
    → RefersBelow rank chains (rank name) body

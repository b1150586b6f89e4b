-- ===== src/Firewall/Chains/Total.antt =====
-- `analyze_packet` of src/analyzers/iptables_forward_analyzer.py answers, where the chains end.
use traceroute_simulator.Prelude.{
  ℕ, zero, suc, ◌<◌, String, ◌≡◌, refl, inl, inr, Bool, true, false, Option, none, some, List, [],
  ◌∷◌, arith, ok, get, has, has-eq-get, Option-cases, All, Bool-cases, ◌≢◌, get-none_of_has,
}
use traceroute_simulator.Firewall.Words.{Unicode}
use traceroute_simulator.Firewall.Rules.{IptablesRule}
use traceroute_simulator.Firewall.Matching.{Packet, Analyzer, matches_packet}
use traceroute_simulator.Firewall.Chains.{
  Chains, Reason, Action, is_known, action, accept, deny, give_back, go_on, nat, follow,
  chain_rules, analyze_custom_chain, analyze_packet,
}
use traceroute_simulator.Firewall.Chains.Rulebook.{
  Applies, Runs, ends, skips, accepts, translates, denies, returns, passes, jumps, comes_back,
  RefersBelow, IsAcyclic,
}
use traceroute_simulator.Firewall.Chains.Sound.{follow_has}
use traceroute_simulator.Firewall.Chains.Complete.{called_below, Runs-chain_rules}
use traceroute_simulator.Firewall.Chains.Refines.{all_below, gives_decision, by_default}

has_of_ne_none : (name : String) (chains : Chains) → get name chains ≢ none → has name chains ≡ true
has_of_ne_none name chains h = elim (Bool-cases (has name chains)) [
  | inl e ↦ e
  | inr e ↦ absurd (h (get-none_of_has name chains e))
]

module _ (u : Unicode) (an : Analyzer) (p : Packet) where
  -- The criteria of the rules can be tested on the packet.
  abbrev pub Testable : List IptablesRule → Type 0
  Testable rules = All (λ r. (b : Bool) × (matches_packet u an p r ≡ ok b)) rules

  Applies-Runs :
      (r : IptablesRule) (rules : List IptablesRule) (a : Action)
      → Applies u an p r
      → action u an.custom_chains r.target ≡ a
      → ((o : Option Bool) × Runs u an p rules o)
      → (get r.target an.custom_chains ≢ none
          → (body : List IptablesRule) × (o : Option Bool) × (get r.target an.custom_chains
              ≡ some body)
            × Runs u an p body o)
      → (o : Option Bool) × Runs u an p (r ∷ rules) o
  Applies-Runs r rules accept applies ac rest body = (some true, accepts applies ac)
  Applies-Runs r rules deny applies ac rest body = (some false, denies applies ac)
  Applies-Runs r rules give_back applies ac rest body = (none, returns applies ac)
  Applies-Runs r rules go_on applies ac (o, run) body = (o, passes applies ac run)
  Applies-Runs r rules nat applies ac rest body = (some true, translates applies ac)
  Applies-Runs r rules follow applies ac (o, run) body =
      let (rs, o', there, inside) =
        body (has-eq-get r.target an.custom_chains (follow_has u an.custom_chains r.target ac)) in
      by_body rs o' there inside
    where
      by_body :
          (rs : List IptablesRule) (o' : Option Bool)
          → get r.target an.custom_chains ≡ some rs
          → Runs u an p rs o'
          → (o : Option Bool) × Runs u an p (r ∷ rules) o
      by_body rs none there inside = (o, comes_back applies ac there inside run)
      by_body rs (some b) there inside = (some b, jumps applies ac there inside)

  rule-Runs :
      (r : IptablesRule) (rules : List IptablesRule) (m : Bool)
      → matches_packet u an p r ≡ ok m
      → ((o : Option Bool) × Runs u an p rules o)
      → (get r.target an.custom_chains ≢ none
          → (body : List IptablesRule) × (o : Option Bool) × (get r.target an.custom_chains
              ≡ some body)
            × Runs u an p body o)
      → (o : Option Bool) × Runs u an p (r ∷ rules) o
  rule-Runs r rules false e (o, run) body = (o, skips (inr e) run)
  rule-Runs r rules true e (o, run) body =
      elim (Bool-cases (is_known u an.custom_chains r.target)) [
        | inr unknown ↦ (o, skips (inl unknown) run)
        | inl known ↦
            Applies-Runs r rules (action u an.custom_chains r.target) (known, e) refl (o, run) body
      ]

  Runs-total :
      (rank : String → ℕ)
      → IsAcyclic rank an.custom_chains
      → ((name : String) (body : List IptablesRule)
          → get name an.custom_chains ≡ some body
          → Testable body)
      → (depth : ℕ) (rules : List IptablesRule) → RefersBelow rank an.custom_chains depth rules
      → Testable rules
      → (o : Option Bool) × Runs u an p rules o
  Runs-total rank acyclic tested depth [] below test = (none, ends)
  Runs-total rank acyclic tested zero (r ∷ rules) below ((m, e), test) =
      let rest = Runs-total rank acyclic tested zero rules below.1 test in
      rule-Runs r rules m e rest
        (λ there. absurd (omega (arith, below.0 (has_of_ne_none r.target an.custom_chains there))))
  Runs-total rank acyclic tested (suc depth) (r ∷ rules) below ((m, e), test) =
      let rest = Runs-total rank acyclic tested (suc depth) rules below.1 test in
      rule-Runs r rules m e rest λ there. elim (Option-cases (get r.target an.custom_chains)) [
        | inl absent ↦ absurd (there absent)
        | inr (body, found) ↦
            let (o, run) =
              Runs-total rank acyclic tested depth body
                (called_below u an p rank depth r acyclic found below.0)
                (tested r.target body found) in
            (body, o, found, run)
      ]

  -- Where no chain leads back to itself, by ranks below the depth of calls, and the criteria of all
  -- rules can be tested on the packet, `analyze_packet` answers: it does not run into the limit of
  -- calls, and no exception is raised.
  pub analyze_packet-answers :
      (rank : String → ℕ) (depth : ℕ)
      → IsAcyclic rank an.custom_chains
      → ((name : String) → rank name < depth)
      → Testable an.forward_rules
      → ((name : String) (body : List IptablesRule)
          → get name an.custom_chains ≡ some body
          → Testable body)
      → (b : Bool) × (reason : Reason) × (analyze_packet depth u an p ≡ ok (b, reason))
  analyze_packet-answers rank depth acyclic k test tested =
      let below = all_below u an p rank depth an.forward_rules k in
      let (o, run) = Runs-total rank acyclic tested depth an.forward_rules below test in
      let (reason, e) = Runs-chain_rules u an p rank acyclic depth run below in
      decided_by o reason e
    where
      decided_by :
          (o : Option Bool) (reason : Reason)
          → chain_rules u an p (analyze_custom_chain depth u an p) an.forward_rules ≡ ok (o, reason)
          → (b : Bool) × (reason : Reason) × (analyze_packet depth u an p ≡ ok (b, reason))
      decided_by none reason e =
          let (why, h) = gives_decision u an p depth none (by_default u an p) reason e refl in
          (by_default u an p, why, h)
      decided_by (some b) reason e =
          let (why, h) = gives_decision u an p depth (some b) b reason e refl in (b, why, h)

-- ===== src/Firewall/Chains/Refines.antt =====
-- `analyze_packet` of src/analyzers/iptables_forward_analyzer.py decides what the rulebook decides.
use traceroute_simulator.Prelude.{
  ℕ, ◌<◌, String, ◌≡◌, refl, sym, ap, ◌∙◌, ◌⊎◌, ◌↔◌, inl, inr, Bool, true, false, Option, none,
  some, List, [], ◌∷◌, Result, ok, raise, ◌>>=◌, str_eq, Bool-cases, if◌then◌else◌,
}
use traceroute_simulator.Firewall.Words.{Unicode}
use traceroute_simulator.Firewall.Rules.{IptablesRule}
use traceroute_simulator.Firewall.Matching.{Packet, Analyzer, matches_packet}
use traceroute_simulator.Firewall.Chains.{
  Reason, ChainAnswer, Action, is_known, action, accept, deny, give_back, go_on, nat, follow,
  after_nested, after_chain, act_in_chain, act_in_forward, chain_rules, forward_from,
  analyze_custom_chain, analyze_packet,
}
use traceroute_simulator.Firewall.Chains.Rulebook.{Decides, RefersBelow, IsAcyclic}
use traceroute_simulator.Firewall.Chains.Sound.{chain_rules-Runs, analyze_custom_chain-Sound}
use traceroute_simulator.Firewall.Chains.Complete.{Runs-chain_rules}

-- The decision, without its reason.
abbrev pub decision : Result (Bool × Reason) → Result Bool
decision (raise e) = raise e
decision (ok (b, reason)) = ok b

-- The decision of an answer that a chain of FORWARD's rules would give.
abbrev pub settle : Bool → Result ChainAnswer → Result Bool
settle default (raise e) = raise e
settle default (ok (none, reason)) = ok default
settle default (ok (some b, reason)) = ok b

module _ (u : Unicode) (an : Analyzer) (p : Packet) where
  abbrev pub by_default : Bool
  by_default = str_eq an.default_policy "ACCEPT"

  module _ (nested : String → Result ChainAnswer) where
    after_chain-settle :
        (r : IptablesRule) (answer : Result ChainAnswer) (fwd : Result (Bool × Reason))
        (rest : Result ChainAnswer)
        → decision fwd ≡ settle by_default rest
        → decision (answer >>= after_chain r fwd)
          ≡ settle by_default (answer >>= after_nested r rest)
    after_chain-settle r (raise e) fwd rest ih = refl
    after_chain-settle r (ok (none, reason)) fwd rest ih = ih
    after_chain-settle r (ok (some b, reason)) fwd rest ih = refl

    act-settle :
        (r : IptablesRule) (a : Action) (fwd : Result (Bool × Reason)) (rest : Result ChainAnswer)
        → decision fwd ≡ settle by_default rest
        → decision (act_in_forward u an p nested r a fwd)
          ≡ settle by_default (act_in_chain u an p nested r a rest)
    act-settle r accept fwd rest ih = refl
    act-settle r deny fwd rest ih = refl
    act-settle r give_back fwd rest ih = refl
    act-settle r go_on fwd rest ih = ih
    act-settle r nat fwd rest ih = refl
    act-settle r follow fwd rest ih = after_chain-settle r (nested r.target) fwd rest ih

    matched-settle :
        (r : IptablesRule) (m : Result Bool) (a : Action) (fwd : Result (Bool × Reason))
        (rest : Result ChainAnswer)
        → decision fwd ≡ settle by_default rest
        → decision (m >>= λ t. if t then act_in_forward u an p nested r a fwd else fwd)
          ≡ settle by_default (m >>= λ t. if t then act_in_chain u an p nested r a rest else rest)
    matched-settle r (raise e) a fwd rest ih = refl
    matched-settle r (ok true) a fwd rest ih = act-settle r a fwd rest ih
    matched-settle r (ok false) a fwd rest ih = ih

    -- FORWARD decides as its rules would in a chain of their own.
    forward_from-settle :
        (rules : List IptablesRule)
        → decision (forward_from u an p nested rules)
          ≡ settle by_default (chain_rules u an p nested rules)
    unfolding forward_from chain_rules
    forward_from-settle [] = refl
    forward_from-settle (r ∷ rules) = elim (Bool-cases (is_known u an.custom_chains r.target)) [
      | inl known ↦ rw known (
          matched-settle r (matches_packet u an p r) (action u an.custom_chains r.target)
            (forward_from u an p nested rules) (chain_rules u an p nested rules)
            (forward_from-settle rules))
      | inr unknown ↦ rw unknown (forward_from-settle rules)
    ]

  settled :
      (answer : Result ChainAnswer) (b : Bool)
      → settle by_default answer ≡ ok b
      → ((reason : Reason) × (answer ≡ ok (some b, reason)))
        ⊎ ((reason : Reason) × (answer ≡ ok (none, reason)) × (by_default ≡ b))
  settled (raise e) b h = cc h
  settled (ok (none, reason)) b h = inr (reason, refl, cc h)
  settled (ok (some c, reason)) b h = inl (reason, cc h)

  decided :
      (answer : Result (Bool × Reason)) (b : Bool)
      → decision answer ≡ ok b
      → (reason : Reason) × (answer ≡ ok (b, reason))
  decided (raise e) b h = cc h
  decided (ok (c, reason)) b h = (reason, cc h)

  pub analyze_packet-Decides :
      (depth : ℕ) (b : Bool) (reason : Reason)
      → analyze_packet depth u an p ≡ ok (b, reason)
      → Decides u an p b
  unfolding analyze_packet
  analyze_packet-Decides depth b reason h =
      let nested = analyze_custom_chain depth u an p in
      let run =
        chain_rules-Runs u an p nested (analyze_custom_chain-Sound u an p depth) an.forward_rules in
      elim (settled (chain_rules u an p nested an.forward_rules) b
        (sym (forward_from-settle nested an.forward_rules) ∙ ap decision h)) [
          | inl (why, e) ↦ inl (run (some b) why e)
          | inr (why, e, d) ↦ inr (run none why e, d)
        ]

  pub gives_decision :
      (depth : ℕ) (o : Option Bool) (b : Bool)
      → (reason : Reason)
      → chain_rules u an p (analyze_custom_chain depth u an p) an.forward_rules ≡ ok (o, reason)
      → settle by_default (ok (o, reason)) ≡ ok b
      → (reason : Reason) × (analyze_packet depth u an p ≡ ok (b, reason))
  unfolding analyze_packet
  gives_decision depth o b reason e h =
      let nested = analyze_custom_chain depth u an p in
      decided (forward_from u an p nested an.forward_rules) b
        (forward_from-settle nested an.forward_rules ∙ (ap (settle by_default) e ∙ h))

  pub all_below :
      (rank : String → ℕ) (depth : ℕ) (rules : List IptablesRule)
      → ((name : String) → rank name < depth)
      → RefersBelow rank an.custom_chains depth rules
  all_below rank depth [] k = tt
  all_below rank depth (r ∷ rules) k = ((λ there. k r.target), all_below rank depth rules k)

  -- Where no chain leads back to itself, by ranks below the depth of calls: `analyze_packet`
  -- answers a decision exactly if the rulebook decides so. The first rule of FORWARD that applies
  -- and decides, itself or by the chain that it follows, is the answer, and else the policy.
  pub analyze_packet-refines :
      (rank : String → ℕ) (depth : ℕ)
      → IsAcyclic rank an.custom_chains
      → ((name : String) → rank name < depth)
      → (b : Bool)
      → ((reason : Reason) × (analyze_packet depth u an p ≡ ok (b, reason))) ↔ Decides u an p b
  analyze_packet-refines rank depth acyclic k b =
      let below = all_below rank depth an.forward_rules k in
      (
        (λ (reason, e). analyze_packet-Decides depth b reason e),
        elim [
          | inl run ↦
              let (reason, e) = Runs-chain_rules u an p rank acyclic depth run below in
              gives_decision depth (some b) b reason e refl
          | inr (run, default) ↦
              let (reason, e) = Runs-chain_rules u an p rank acyclic depth run below in
              gives_decision depth none b reason e (ap ok default)
        ],
      )

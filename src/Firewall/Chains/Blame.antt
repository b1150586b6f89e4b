-- ===== src/Firewall/Chains/Blame.antt =====
-- Why `analyze_packet` of src/analyzers/iptables_forward_analyzer.py denies a packet.
use mathlib.Core.List.{Memᴰ}
use traceroute_simulator.Prelude.{
  ℕ, ◌≡◌, refl, ◌⊎◌, inl, inr, Bool, false, Option, some, List, ◌∷◌, String, ok, get, arith, eq_iff,
}
use traceroute_simulator.Firewall.Words.{Unicode}
use traceroute_simulator.Firewall.Rules.{IptablesRule}
use traceroute_simulator.Firewall.Matching.{Packet, Analyzer}
use traceroute_simulator.Firewall.Chains.{Reason, action, deny, analyze_packet}
use traceroute_simulator.Firewall.Chains.Rulebook.{
  Applies, Runs, ends, skips, accepts, translates, denies, returns, passes, jumps, comes_back,
}
use traceroute_simulator.Firewall.Chains.Refines.{analyze_packet-Decides}

module _ (u : Unicode) (an : Analyzer) (p : Packet) where
  -- A rule of these, or of a custom chain, that applies and whose target is DROP or REJECT.
  abbrev pub Culprit : List IptablesRule → Type 0
  Culprit rules =
      (r : IptablesRule) × Applies u an p r
      × (action u an.custom_chains r.target ≡ deny)
      × (Memᴰ r rules
          ⊎ ((name : String) × (body : List IptablesRule) × (get name an.custom_chains ≡ some body)
              × Memᴰ r body))

  later : (r : IptablesRule) (rules : List IptablesRule) → Culprit rules → Culprit (r ∷ rules)
  later r rules (q, applies, ac, inl m) = (q, applies, ac, inl (Memᴰ.tail m))
  later r rules (q, applies, ac, inr m) = (q, applies, ac, inr m)

  inside :
      (name : String) (body rules : List IptablesRule)
      → get name an.custom_chains ≡ some body
      → Culprit body
      → Culprit rules
  inside name body rules there (q, applies, ac, inl m) =
      (q, applies, ac, inr (name, body, there, m))
  inside name body rules there (q, applies, ac, inr m) = (q, applies, ac, inr m)

  Runs-Culprit :
      {rules : List IptablesRule} {o : Option Bool}
      → Runs u an p rules o
      → o ≡ some false
      → Culprit rules
  Runs-Culprit ends h = cc h
  Runs-Culprit (skips {r} {rules} s run) h = later r rules (Runs-Culprit run h)
  Runs-Culprit (accepts applies ac) h = cc h
  Runs-Culprit (translates applies ac) h = cc h
  Runs-Culprit (denies {r} applies ac) h = (r, applies, ac, inl (Memᴰ.head refl))
  Runs-Culprit (returns applies ac) h = cc h
  Runs-Culprit (passes {r} {rules} applies ac run) h = later r rules (Runs-Culprit run h)
  Runs-Culprit (jumps {r} {rules} {body} applies ac there run) h =
      inside r.target body (r ∷ rules) there (Runs-Culprit run h)
  Runs-Culprit (comes_back {r} {rules} applies ac there run after) h =
      later r rules (Runs-Culprit after h)

  -- Where the default policy is ACCEPT, a packet is denied only because of a rule with the target
  -- DROP or REJECT, in FORWARD or in a custom chain, whose target is known and whose criteria the
  -- packet matches.
  pub analyze_packet-Culprit :
      (depth : ℕ) (reason : Reason)
      → an.default_policy ≡ "ACCEPT"
      → analyze_packet depth u an p ≡ ok (false, reason)
      → Culprit an.forward_rules
  analyze_packet-Culprit depth reason policy h =
      elim (analyze_packet-Decides u an p depth false reason h) [
        | inl run ↦ Runs-Culprit run refl
        | inr (run, default) ↦ absurd (ground (arith, eq_iff an.default_policy "ACCEPT"))
      ]

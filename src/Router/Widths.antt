-- ===== src/Router/Widths.antt =====
-- The prefix of a network that `ip_network` reads is at most the width of its addresses.
use traceroute_simulator.Prelude.{
  ℕ, zero, suc, ◌-◌, ◌^◌, ◌≤◌, String, ◌≡◌, refl, subst, ◌∙◌, inl, inr, Option, none, some, List,
  [], ◌∷◌, arith, leb, ◌==◌, Bool-cases, Option-cases,
}
use traceroute_simulator.Ip.{
  Version, v4, v6, Network, width, scoped, mask_prefix, dotted_mask, v4_prefix, clear_host, network,
  or_network, scoped_number, networks, ip_network,
}
use traceroute_simulator.Ip.V4.{split, decimal, at_most, ipv4}

mask_prefix_le : (n m : ℕ) {p : ℕ} → mask_prefix n m ≡ some p → p ≤ n
unfolding mask_prefix
mask_prefix_le zero m {p} h = elim (Bool-cases (m == 0)) [
  | inl e ↦ let same : some 0 ≡ some p = rw e at h in let q : 0 ≡ p = cc same in omega (arith, q)
  | inr e ↦ let bad : none ≡ some p = rw e at h in cc bad
]
mask_prefix_le (suc n) m {p} h = elim (Bool-cases (m == (2 ^ 32 - 2 ^ (32 - suc n)))) [
  | inl e ↦
      let same : some (suc n) ≡ some p = rw e at h in
      let q : suc n ≡ p = cc same in omega (arith, q)
  | inr e ↦ omega (arith, mask_prefix_le n m (rw e at h))
]

at_most_le : (m : ℕ) (o : Option ℕ) {p : ℕ} → at_most m o ≡ some p → p ≤ m
at_most_le m none h = cc
at_most_le m (some n) {p} h = elim (Bool-cases (leb n m)) [
  | inl e ↦ let same : some n ≡ some p = rw e at h in let q : n ≡ p = cc same in ground (arith, q)
  | inr e ↦ let bad : none ≡ some p = rw e at h in cc bad
]

dotted_mask_le : (o : Option ℕ) {p : ℕ} → dotted_mask o ≡ some p → p ≤ 32
dotted_mask_le none h = cc
dotted_mask_le (some m) {p} h = elim (Option-cases (mask_prefix 32 m)) [
  | inl e ↦ mask_prefix_le 32 (2 ^ 32 - 1 - m) (rw e at h)
  | inr (q, e) ↦ mask_prefix_le 32 m (e ∙ (rw e at h))
]

v4_prefix_le : (s : String) (o : Option ℕ) {p : ℕ} → v4_prefix s o ≡ some p → p ≤ 32
v4_prefix_le s none h = dotted_mask_le (ipv4 s) h
v4_prefix_le s (some n) {p} h = elim (Bool-cases (leb n 32)) [
  | inl e ↦ let same : some n ≡ some p = rw e at h in let q : n ≡ p = cc same in ground (arith, q)
  | inr e ↦ dotted_mask_le (ipv4 s) (rw e at h)
]

network_le :
    (v : Version) (base prefix : Option ℕ) {n : Network}
    → ((p : ℕ) → prefix ≡ some p → p ≤ width v)
    → network v base prefix ≡ some n
    → n.prefixlen ≤ width n.version
network_le v none prefix k h = cc
network_le v (some b) none k h = cc
network_le v (some b) (some p) {n} k h =
    let same : record { version = v; network_address = clear_host v p b; prefixlen = p } ≡ n =
      cc h in
    subst (λ (m : Network). m.prefixlen ≤ width m.version) same (k p refl)

or_network_le :
    (x y : Option Network) {n : Network}
    → ((m : Network) → x ≡ some m → m.prefixlen ≤ width m.version)
    → ((m : Network) → y ≡ some m → m.prefixlen ≤ width m.version)
    → or_network x y ≡ some n
    → n.prefixlen ≤ width n.version
or_network_le none y {n} k l h = l n h
or_network_le (some x) y {n} k l h = k n h

networks_le :
    (ps : List String) {n : Network} → networks ps ≡ some n → n.prefixlen ≤ width n.version
networks_le [] h = cc
networks_le (a ∷ []) h = cc
networks_le (a ∷ p ∷ []) h =
    or_network_le (network v4 (ipv4 a) (v4_prefix p (decimal p)))
      (network v6 (scoped_number (scoped (split b'%' a))) (at_most 128 (decimal p)))
      (λ m. network_le v4 (ipv4 a) (v4_prefix p (decimal p)) (λ q. v4_prefix_le p (decimal p)))
      (λ m.
        network_le v6 (scoped_number (scoped (split b'%' a))) (at_most 128 (decimal p))
          (λ q. at_most_le 128 (decimal p)))
      h
networks_le (a ∷ p ∷ q ∷ ps) h = cc

-- A network's prefix is at most the width of its addresses.
pub prefixlen_bounded :
    (s : String) {n : Network} → ip_network s ≡ some n → n.prefixlen ≤ width n.version
unfolding ip_network
prefixlen_bounded s h = networks_le (split b'/' s) h

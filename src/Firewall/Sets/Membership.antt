-- ===== src/Firewall/Sets/Membership.antt =====
-- The fast tests of `check_membership` in src/analyzers/iptables_forward_analyzer.py.
use Prim.Native.Char.{Char, code}
use traceroute_simulator.Prelude.{
  ℕ, ◌≤◌, ◌==◌, String, ◌≡◌, refl, ◌⊎◌, inl, inr, Bool, true, false, Option, some, List, [], ◌∷◌,
  arith, eq_iff, length, Bool-cases, any, get, sym, ◌∙◌,
}
use traceroute_simulator.Ip.{Address, ip_address}
use traceroute_simulator.Ip.V4.{split, cons_to_head}
use traceroute_simulator.Firewall.Words.{Unicode, has_char}
use traceroute_simulator.Firewall.Sets.{
  Member, IpsetParser, port_protocol_matches, member_eq, in_lookup_set, member_matches, in_members,
  port_or_any, protocol_or_any, check_membership,
}

length-cons_to_head :
    (c : Char) (ps : List String) → 1 ≤ length ps → length (cons_to_head c ps) ≡ length ps
length-cons_to_head c [] h = absurd (omega arith)
length-cons_to_head c (p ∷ ps) h = refl

length-split_pos : (x : ℕ) (s : String) → 1 ≤ length (split x s)
unfolding split
length-split_pos x String.[] = omega arith
length-split_pos x (String.◌∷◌ c s) = elim (Bool-cases (code c == x)) [
  | inl e ↦ rw e (omega arith)
  | inr e ↦ rw (e, length-cons_to_head c (split x s) (length-split_pos x s)) (length-split_pos x s)
]

-- A text that a split leaves whole does not have the separator.
has_char-split : (x : ℕ) (s : String) → length (split x s) ≡ 1 → has_char x s ≡ false
unfolding split has_char
has_char-split x String.[] h = refl
has_char-split x (String.◌∷◌ c s) h = elim (Bool-cases (code c == x)) [
  | inl e ↦ absurd (omega (arith, length-split_pos x s, rw e at h))
  | inr e ↦ rw e (
      has_char-split x s
        (sym (length-cons_to_head c (split x s) (length-split_pos x s)) ∙ (rw e at h)))
]

has_char-ip_address : (s : String) {a : Address} → ip_address s ≡ some a → has_char b'/' s ≡ false
unfolding ip_address
has_char-ip_address s h = has_char-split b'/' s (ground arith)

any_mono {ℓ} :
    {A : Type ℓ} (p q : A → Bool) (xs : List A)
    → ((x : A) → p x ≡ true → q x ≡ true)
    → any p xs ≡ true
    → any q xs ≡ true
unfolding any
any_mono p q [] imp h = h
any_mono p q (x ∷ xs) imp h = ground (arith, imp x, any_mono p q xs imp)

module _ (a : Address) (ip port protocol : String) (valid : ip_address ip ≡ some a) where
  member_eq-matches :
      (p q : String) (m : Member)
      → (p ≡ port) ⊎ (p ≡ "*")
      → (q ≡ protocol) ⊎ (q ≡ "*")
      → member_eq ip p q m ≡ true
      → member_matches a ip port protocol m ≡ true
  unfolding member_matches port_protocol_matches
  member_eq-matches p q m hp hq h = ground (
    arith,
    eq_iff m.ip ip,
    eq_iff ip m.ip,
    eq_iff m.port p,
    eq_iff m.port port,
    eq_iff m.port "*",
    eq_iff m.protocol q,
    eq_iff m.protocol protocol,
    eq_iff m.protocol "*",
    has_char-ip_address ip valid,
  )

  fast_test :
      (p q : String) (s : List Member)
      → (p ≡ port) ⊎ (p ≡ "*")
      → (q ≡ protocol) ⊎ (q ≡ "*")
      → in_lookup_set ip p q s ≡ true
      → any (member_matches a ip port protocol) s ≡ true
  unfolding in_lookup_set
  fast_test p q s hp hq =
      any_mono (member_eq ip p q) (member_matches a ip port protocol) s
        (λ m. member_eq-matches p q m hp hq)

  in_members-any :
      (s : List Member)
      → in_members (some a) ip port protocol s ≡ any (member_matches a ip port protocol) s
  unfolding in_members
  in_members-any s = ground (
    arith,
    fast_test port protocol s (inl refl) (inl refl),
    fast_test "*" "*" s (inr refl) (inr refl),
    fast_test port "*" s (inl refl) (inr refl),
    fast_test "*" protocol s (inr refl) (inl refl),
  )

-- For an address and a set that is there, `check_membership` answers whether some member of the
-- lookup set matches: the member's address is the address, or its network holds it, and its port
-- and its protocol are `*` or those asked for. The four fast tests change no answer.
pub check_membership-eq-any :
    (u : Unicode) (p : IpsetParser) (ip set_name : String) (port : Option ℕ) (protocol : String)
    → (a : Address) (s : List Member) → ip_address ip ≡ some a
    → get set_name p.ipset_lookup_sets ≡ some s
    → check_membership u p ip set_name port protocol
      ≡ any (member_matches a ip (port_or_any port) (protocol_or_any u protocol)) s
unfolding check_membership
check_membership-eq-any u p ip set_name port protocol a s valid found =
    rw (found, valid, check_membership)
      (in_members-any a ip (port_or_any port) (protocol_or_any u protocol) valid s)

-- ===== src/Registry/Hosts/Collisions.antt =====
-- What the collision checks of src/core/registry_manager.py keep apart.
use traceroute_simulator.Prelude.{
  String, ◌≡◌, refl, sym, ap, subst, ◌≢◌, inl, inr, true, false, none, some, [], ◌∷◌, arith, eq_iff,
  str_eq, Bool-cases, str_eq_of_ne, if_ind, All, Distinct, Dict, get, put, remove, keys, values,
  All-values-remove, Distinct-keys-remove, Distinct-keys-put, put_new_All-values,
}
use traceroute_simulator.Registry.Hosts.{Host, ip_only, collides, any_collision}

-- Two hosts differ in their MAC, and in their address or their router.
pub record IsApart (g h : Host) : Type 0 where
  pub other_mac : h.mac_address ≢ g.mac_address
  pub other_place :
      ¬ ((ip_only h.primary_ip ≡ ip_only g.primary_ip) × (h.connected_to ≡ g.connected_to))

abbrev pub AllApart : Dict Host → Type 0
AllApart [] = Unit
AllApart ((k, h) ∷ hosts) = All (IsApart h) (values hosts) × AllApart hosts

-- No name stands twice, no MAC stands twice, and on a router no address stands twice.
pub record IsUnique (hosts : Dict Host) : Type 0 where
  pub names : Distinct (keys hosts)
  pub apart : AllApart hosts

IsApart-sym : {g h : Host} → IsApart g h → IsApart h g
IsApart-sym a = record {
  other_mac = λ e. a.other_mac (sym e);
  other_place = λ e. a.other_place (sym e.0, sym e.1);
}

AllApart-remove : (k : String) (hosts : Dict Host) → AllApart hosts → AllApart (remove k hosts)
unfolding remove
AllApart-remove k [] a = tt
AllApart-remove k ((j, h) ∷ hosts) a =
    if_ind AllApart (str_eq j k) (λ _. AllApart-remove k hosts a.1)
      (λ _. (All-values-remove (IsApart h) k hosts a.0, AllApart-remove k hosts a.1))

pub IsUnique-remove : (k : String) (hosts : Dict Host) → IsUnique hosts → IsUnique (remove k hosts)
IsUnique-remove k hosts u = record {
  names = Distinct-keys-remove k hosts u.names;
  apart = AllApart-remove k hosts u.apart;
}

-- A new name, and a host that is apart from all.
AllApart-put :
    (k : String) (h : Host) (hosts : Dict Host)
    → get k hosts ≡ none
    → All (λ g. IsApart g h) (values hosts)
    → AllApart hosts
    → AllApart (put k h hosts)
unfolding put get
AllApart-put k h [] n c a = (tt, tt)
AllApart-put k h ((j, g) ∷ hosts) n c a = elim (Bool-cases (str_eq j k)) [
  | inl same ↦ let bad : some g ≡ none = rw same at n in cc
  | inr other ↦
      let behind : get k hosts ≡ none = rw other at n in
      rw other
        (put_new_All-values (IsApart g) k h hosts c.0 a.0, AllApart-put k h hosts behind c.1 a.1)
]

module _ (name primary_ip connected_to mac : String) where
  -- No collision at one host.
  not-collides :
      (k : String) (g h : Host)
      → h.mac_address ≡ mac
      → h.primary_ip ≡ primary_ip
      → h.connected_to ≡ connected_to
      → collides name primary_ip connected_to mac k g ≡ false
      → (k ≢ name) × IsApart g h
  unfolding collides
  not-collides k g h m i c e = (
    λ s. ground (arith, eq_iff k name),
    record {
      other_mac = λ s. ground (arith, eq_iff g.mac_address mac);
      other_place = λ s. ground (
        arith,
        eq_iff (ip_only g.primary_ip) (ip_only primary_ip),
        eq_iff g.connected_to connected_to,
        s.0,
        s.1,
        ap ip_only i,
      );
    },
  )

  pub no_collision :
      (h : Host) (hosts : Dict Host)
      → h.mac_address ≡ mac
      → h.primary_ip ≡ primary_ip
      → h.connected_to ≡ connected_to
      → any_collision name primary_ip connected_to mac hosts ≡ false
      → (get name hosts ≡ none) × All (λ g. IsApart g h) (values hosts)
  unfolding any_collision get
  no_collision h [] m i c e = (refl, tt)
  no_collision h ((k, g) ∷ hosts) m i c e =
      let here : collides name primary_ip connected_to mac k g ≡ false = ground arith in
      let later : any_collision name primary_ip connected_to mac hosts ≡ false = ground arith in
      let (other, apart) = not-collides k g h m i c here in
      let (absent, rest) = no_collision h hosts m i c later in
      (rw (str_eq_of_ne k name other) absent, (apart, rest))

pub IsUnique-put :
    (name : String) (h : Host) (hosts : Dict Host)
    → any_collision name h.primary_ip h.connected_to h.mac_address hosts ≡ false
    → IsUnique hosts
    → IsUnique (put name h hosts)
IsUnique-put name h hosts e u =
    let (absent, apart) =
      no_collision name h.primary_ip h.connected_to h.mac_address h hosts refl refl refl e in
    record {
      names = Distinct-keys-put name h hosts u.names;
      apart = AllApart-put name h hosts absent apart u.apart;
    }

-- A registry with the name, or with a host of that MAC, or of that address on that router, collides.
pub collision_complete :
    (name primary_ip connected_to mac k : String) (g : Host) (hosts : Dict Host)
    → get k hosts ≡ some g
    → collides name primary_ip connected_to mac k g ≡ true
    → any_collision name primary_ip connected_to mac hosts ≡ true
unfolding get any_collision
collision_complete name ip router mac k g [] f e = cc
collision_complete name ip router mac k g ((j, h) ∷ hosts) f e = elim (Bool-cases (str_eq j k)) [
  | inl same ↦
      let first : some h ≡ some g = rw same at f in
      let c : collides name ip router mac j h ≡ true =
        subst (λ x. collides name ip router mac x h ≡ true) (sym ((eq_iff j k).0 same))
          (subst (λ x. collides name ip router mac k x ≡ true) (sym (cc first)) e) in
      rw c
  | inr other ↦
      let c = collision_complete name ip router mac k g hosts (rw other at f) e in ground (arith, c)
]

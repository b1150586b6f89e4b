-- ===== src/Dscp/Invariant.antt =====
-- What every method of wsgi/services/tsim_dscp_registry.py keeps true of the registry file.
use traceroute_simulator.Prelude.{
  ℕ, String, ◌≡◌, sym, ◌≢◌, inl, inr, false, none, some, List, [], ◌∷◌, arith, ◌==◌, str_eq,
  Bool-cases, length, All, Distinct, Dict, get, put, remove, keys, values, All-values-remove,
  Distinct-keys-remove, Distinct-keys-put, put_new_All-values,
}
use traceroute_simulator.Dscp.{
  Allocation, Registry, Config, System, stale_jobs, remove_all, cleanup_stale, mem, used_dscps,
}
use traceroute_simulator.Dscp.Lowest.{InRange}

-- No job has two entries, no value is held twice, and every value is in the range.
abbrev pub HasOther : ℕ → Allocation → Type 0
HasOther n a = a.dscp ≢ n

abbrev pub DistinctDscps : Dict Allocation → Type 0
DistinctDscps [] = Unit
DistinctDscps ((k, a) ∷ d) = All (HasOther a.dscp) (values d) × DistinctDscps d

abbrev pub HasInRange : Config → Allocation → Type 0
HasInRange c a = InRange c a.dscp

pub record IsSound (c : Config) (d : Dict Allocation) : Type 0 where
  pub one_each : Distinct (keys d)
  pub exclusive : DistinctDscps d
  pub in_range : All (HasInRange c) (values d)

DistinctDscps-remove :
    (k : String) (d : Dict Allocation) → DistinctDscps d → DistinctDscps (remove k d)
unfolding remove
DistinctDscps-remove k [] h = tt
DistinctDscps-remove k ((j, a) ∷ d) h =
    ground (arith, DistinctDscps-remove k d h.1, All-values-remove (HasOther a.dscp) k d h.0)

pub IsSound-remove :
    (c : Config) (k : String) (d : Dict Allocation) → IsSound c d → IsSound c (remove k d)
IsSound-remove c k d s = record {
  one_each = Distinct-keys-remove k d s.one_each;
  exclusive = DistinctDscps-remove k d s.exclusive;
  in_range = All-values-remove (HasInRange c) k d s.in_range;
}

IsSound-remove_all :
    (c : Config) (ks : List String) (d : Dict Allocation)
    → IsSound c d
    → IsSound c (remove_all ks d)
unfolding remove_all
IsSound-remove_all c [] d s = s
IsSound-remove_all c (k ∷ ks) d s = IsSound-remove_all c ks (remove k d) (IsSound-remove c k d s)

pub cleanup_stale-IsSound :
    (c : Config) (sys : System) (r : Registry)
    → IsSound c r.allocations
    → IsSound c (cleanup_stale c sys r).1.allocations
unfolding cleanup_stale
cleanup_stale-IsSound c sys r s =
    let kept = IsSound-remove_all c (stale_jobs c sys r.allocations) r.allocations s in
    elim (Bool-cases (length (stale_jobs c sys r.allocations) == 0)) [
      | inl e ↦ rw e kept
      | inr e ↦ rw e kept
    ]

unused-HasOther :
    (n : ℕ) (d : Dict Allocation) → mem n (used_dscps d) ≡ false → All (HasOther n) (values d)
unfolding mem
unused-HasOther n [] h = tt
unused-HasOther n ((k, a) ∷ d) h = (ground arith, unused-HasOther n d (ground arith))

-- A new entry for a value that nobody holds.
DistinctDscps-put :
    (k : String) (a : Allocation) (d : Dict Allocation)
    → get k d ≡ none
    → All (HasOther a.dscp) (values d)
    → DistinctDscps d
    → DistinctDscps (put k a d)
unfolding put get
DistinctDscps-put k a [] g o h = (tt, tt)
DistinctDscps-put k a ((j, b) ∷ d) g o h = elim (Bool-cases (str_eq j k)) [
  | inl same ↦ let bad : some b ≡ none = rw same at g in cc
  | inr other ↦
      let behind : get k d ≡ none = rw other at g in
      rw other (
        put_new_All-values (HasOther b.dscp) k a d (λ e. o.0 (sym e)) h.0,
        DistinctDscps-put k a d behind o.1 h.1,
      )
]

pub IsSound-put :
    (c : Config) (k : String) (a : Allocation) (d : Dict Allocation)
    → get k d ≡ none
    → InRange c a.dscp
    → mem a.dscp (used_dscps d) ≡ false
    → IsSound c d
    → IsSound c (put k a d)
IsSound-put c k a d g r u s = record {
  one_each = Distinct-keys-put k a d s.one_each;
  exclusive = DistinctDscps-put k a d g (unused-HasOther a.dscp d u) s.exclusive;
  in_range = put_new_All-values (HasInRange c) k a d r s.in_range;
}

-- ===== src/Registry/Leases/Counts.antt =====
-- The reference counts of the source-host leases of src/core/registry_manager.py.
use traceroute_simulator.Prelude.{
  ℕ, suc, ◌+◌, ◌≤◌, String, ◌≡◌, refl, sym, subst, ◌∙◌, ◌≢◌, ◌↔◌, inl, inr, Bool, true, false,
  Option, none, some, List, [], ◌∷◌, arith, ◌==◌, str_eq, if◌then◌else◌, Bool-cases, length, keep,
  length-append, value_error, runtime_error, ok, raise, Result-cases, Dict, get, put, remove,
  get-put, get-remove,
}
use traceroute_simulator.Registry.Files.{
  File, missing, corrupt, readable, System, atomic_read, atomic_update, entries, atomic_update_ok,
  locked_ok,
}
use traceroute_simulator.Registry.Hosts.{Host, get_host_info}
use traceroute_simulator.Registry.Leases.{
  Lease, HostLeases, new_lease, entry_or_new, add_lease, acquire_update, acquire_source_host_lease,
  held_by_other, set_leases, release_entry, release_update, release_source_host_lease, count_of,
}

-- The count that a host has in a file.
abbrev pub lease_count : String → File HostLeases → ℕ
lease_count host_name file = count_of (get host_name (entries file))

-- How many leases a run holds on a host.
abbrev pub held_in : String → Option HostLeases → ℕ
held_in run_id none = 0
held_in run_id (some e) = length (keep (λ l. str_eq l.run_id run_id) e.leases)

abbrev pub held : String → String → File HostLeases → ℕ
held run_id host_name file = held_in run_id (get host_name (entries file))

length-split :
    (run_id : String) (ls : List Lease)
    → length (keep (held_by_other run_id) ls) + length (keep (λ l. str_eq l.run_id run_id) ls)
      ≡ length ls
unfolding keep
length-split run_id [] = refl
length-split run_id (l ∷ ls) = ground (arith, length-split run_id ls)

count_of_if :
    (b : Bool) (x y : Option HostLeases)
    → count_of (if b then x else y) ≡ (if b then count_of x else count_of y)
count_of_if true x y = refl
count_of_if false x y = refl

entry_count :
    (router_name : String) (l : Lease) (o : Option HostLeases)
    → length (add_lease l (entry_or_new router_name o)).leases ≡ suc (count_of o)
entry_count router_name l none = refl
entry_count router_name l (some e) = omega (arith, length-append e.leases (l ∷ []))

count-put :
    (host_name other : String) (e : HostLeases) (leases : Dict HostLeases)
    → count_of (get other (put host_name e leases))
      ≡ (if str_eq host_name other then length e.leases else count_of (get other leases))
count-put host_name other e leases =
    rw (get-put host_name other e leases)
      (count_of_if (str_eq host_name other) (some e) (get other leases))

count-remove :
    (host_name other : String) (leases : Dict HostLeases)
    → count_of (get other (remove host_name leases))
      ≡ (if str_eq host_name other then 0 else count_of (get other leases))
count-remove host_name other leases =
    rw (get-remove host_name other leases)
      (count_of_if (str_eq host_name other) none (get other leases))

moved :
    (other : String) (b : Bool) (c m n : ℕ) (x d : Dict HostLeases)
    → count_of (get other x) ≡ (if b then m else c)
    → x ≡ d
    → m ≡ n
    → count_of (get other d) ≡ (if b then n else c)
moved other b c m n x d h stored counted =
    subst (λ y. count_of (get other y) ≡ (if b then n else c)) stored
      (subst (λ k. count_of (get other x) ≡ (if b then k else c)) counted h)

acquire_update_ok :
    (host_name router_name other : String) (l : Lease) (leases d : Dict HostLeases) {n : ℕ}
    → acquire_update host_name router_name l leases ≡ ok (n, d)
    → (n ≡ suc (count_of (get host_name leases)))
      × (count_of (get other d)
          ≡ (if str_eq host_name other then n else count_of (get other leases)))
unfolding acquire_update
acquire_update_ok host_name router_name other l leases d {n} h =
    let entry = add_lease l (entry_or_new router_name (get host_name leases)) in
    let same : ok (length entry.leases, put host_name entry leases) ≡ ok (n, d) = h in
    let counted : length entry.leases ≡ n = cc same in
    let stored : put host_name entry leases ≡ d = cc same in
    let whole = entry_count router_name l (get host_name leases) in
    (
      sym counted ∙ whole,
      moved other (str_eq host_name other) (count_of (get other leases)) (length entry.leases) n
          (put host_name entry leases) d (count-put host_name other entry leases) stored counted,
    )

none_left :
    (n left all mine : ℕ)
    → (left == all) ≡ false
    → (left == 0) ≡ true
    → 0 ≡ n
    → left + mine ≡ all
    → (1 ≤ mine) × (n + mine ≡ all)
none_left n left all mine p q r s = ground arith

some_left :
    (n left all mine : ℕ)
    → (left == all) ≡ false
    → (left == 0) ≡ false
    → left ≡ n
    → left + mine ≡ all
    → (1 ≤ mine) × (n + mine ≡ all) × (n ≢ 0)
some_left n left all mine p q r s = (ground arith, ground arith, λ z. ground arith)

last_iff_none : (n : ℕ) (last : Bool) → n ≢ 0 → false ≡ last → ((last ≡ true) ↔ (n ≡ 0))
last_iff_none n last p q = ground arith

release_entry_ok :
    (run_id host_name other : String) (leases d : Dict HostLeases) (o : Option HostLeases) {n : ℕ}
    {last : Bool}
    → release_entry run_id host_name leases o ≡ ok ((n, last), d)
    → (1 ≤ held_in run_id o)
      × (n + held_in run_id o ≡ count_of o)
      × ((last ≡ true) ↔ (n ≡ 0))
      × (count_of (get other d)
          ≡ (if str_eq host_name other then n else count_of (get other leases)))
release_entry_ok run_id host_name other leases d none h = cc
release_entry_ok run_id host_name other leases d (some e) {n} {last} h =
    let left = keep (held_by_other run_id) e.leases in
    let split = length-split run_id e.leases in
    let mv = moved other (str_eq host_name other) (count_of (get other leases)) in
    elim (Bool-cases (length left == length e.leases)) [
      | inl all ↦ let bad : raise value_error ≡ ok ((n, last), d) = rw all at h in cc bad
      | inr some_held ↦ elim (Bool-cases (length left == 0)) [
        | inl nothing ↦
            let same : ok ((0, true), remove host_name leases) ≡ ok ((n, last), d) =
              rw (some_held, nothing) at h in
            let zero_left : 0 ≡ n = cc same in
            let is_last : true ≡ last = cc same in
            let stored : remove host_name leases ≡ d = cc same in
            let (h1, h2) =
              none_left n (length left) (length e.leases) (held_in run_id (some e)) some_held
                nothing zero_left split in
            (
              h1,
              h2,
              ((λ _. sym zero_left), λ _. sym is_last),
              mv 0 n (remove host_name leases) d (count-remove host_name other leases) stored
                  zero_left,
            )
        | inr more ↦
            let same : ok ((length left, false), put host_name (set_leases left e) leases)
                ≡ ok ((n, last), d) =
              rw (some_held, more) at h in
            let counted : length left ≡ n = cc same in
            let not_last : false ≡ last = cc same in
            let stored : put host_name (set_leases left e) leases ≡ d = cc same in
            let (h1, h2, h3) =
              some_left n (length left) (length e.leases) (held_in run_id (some e)) some_held more
                counted split in
            (
              h1,
              h2,
              last_iff_none n last h3 not_last,
              mv (length left) n (put host_name (set_leases left e) leases) d
                  (count-put host_name other (set_leases left e) leases) stored counted,
            )
      ]
    ]

registered :
    (host_name : String) (hosts : File Host) {g : Host}
    → get_host_info host_name hosts ≡ ok (some g)
    → get host_name (entries hosts) ≢ none
unfolding get_host_info atomic_read get
registered host_name missing {g} h e = let bad : ok none ≡ ok (some g) = h in cc bad
registered host_name corrupt {g} h e = let bad : raise runtime_error ≡ ok (some g) = h in cc bad
registered host_name (readable d) {g} h e = let bad : ok none ≡ ok (some g) = rw e at h in cc bad

release_update_entry :
    (run_id host_name : String) (leases : Dict HostLeases) {r : (ℕ × Bool) × Dict HostLeases}
    → release_update run_id host_name leases ≡ ok r
    → release_entry run_id host_name leases (get host_name leases) ≡ ok r
unfolding release_update
release_update_entry run_id host_name leases h = h

-- A lease that is acquired is on a registered host; its answer is the host's count before and one,
-- which is the host's count after; the counts of other hosts stay.
pub acquire_counts :
    (sys : System) (run_id host_name job_type router_name : String) (dscp : Option ℕ)
    (hosts : File Host) (file : File HostLeases) (other : String) {n : ℕ}
    → (acquire_source_host_lease sys run_id host_name job_type router_name dscp hosts file).0 ≡ ok n
    → (get host_name (entries hosts) ≢ none)
      × (n ≡ suc (lease_count host_name file))
      × (lease_count other
            (acquire_source_host_lease sys run_id host_name job_type router_name dscp hosts file).1
          ≡ (if str_eq host_name other then n else lease_count other file))
unfolding acquire_source_host_lease
acquire_counts sys run_id host_name job_type router_name dscp hosts file other {n} h =
    let l = new_lease sys run_id job_type dscp in
    elim (Result-cases (get_host_info host_name hosts)) [
      | inl (e, r) ↦ let bad : raise e ≡ ok n = rw (r, acquire_source_host_lease) at h in cc bad
      | inr (none, r) ↦
          let bad : raise value_error ≡ ok n = rw (r, acquire_source_host_lease) at h in cc bad
      | inr (some g, r) ↦
          let run = atomic_update sys (acquire_update host_name router_name l) file in
          let (inside, whole) = locked_ok sys run file (rw (r, acquire_source_host_lease) at h) in
          let (d, computed, stored) =
            atomic_update_ok sys (acquire_update host_name router_name l) file inside in
          let (n_eq, count) =
            acquire_update_ok host_name router_name other l (entries file) d computed in
          (
            registered host_name hosts r,
            n_eq,
            rw (r, acquire_source_host_lease, whole, stored) count,
          )
    ]

-- A lease that is released was held; the answer is the host's count after, which is the count
-- before less what the run held; the host is to be deleted exactly if no lease is left; the counts
-- of other hosts stay.
pub release_counts :
    (sys : System) (run_id host_name other : String) (file : File HostLeases) {n : ℕ} {last : Bool}
    → (release_source_host_lease sys run_id host_name file).0 ≡ ok (n, last)
    → (1 ≤ held run_id host_name file)
      × (n + held run_id host_name file ≡ lease_count host_name file)
      × ((last ≡ true) ↔ (n ≡ 0))
      × (lease_count other (release_source_host_lease sys run_id host_name file).1
          ≡ (if str_eq host_name other then n else lease_count other file))
unfolding release_source_host_lease
release_counts sys run_id host_name other file {n} {last} h =
    let run = atomic_update sys (release_update run_id host_name) file in
    let (inside, whole) = locked_ok sys run file h in
    let (d, computed, stored) =
      atomic_update_ok sys (release_update run_id host_name) file inside in
    let (some_held, sum, last_iff, count) =
      release_entry_ok run_id host_name other (entries file) d (get host_name (entries file))
        (release_update_entry run_id host_name (entries file) computed) in
    (some_held, sum, last_iff, rw (whole, stored) count)

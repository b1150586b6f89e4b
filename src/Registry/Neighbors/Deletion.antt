-- ===== src/Registry/Neighbors/Deletion.antt =====
-- When `release_neighbor_lease` of src/core/registry_manager.py has a neighbour deleted.
use traceroute_simulator.Prelude.{
  ℕ, String, ◌≡◌, refl, sym, subst, ◌↔◌, inl, inr, Bool, true, false, Option, none, some, List, [],
  ◌∷◌, str_eq, if◌then◌else◌, Option-cases, length, keep, value_error, ok, raise, Dict, get, put,
  remove, get-put, get-remove,
}
use traceroute_simulator.Registry.Files.{
  File, System, atomic_update, entries, atomic_update_ok, locked_ok,
}
use traceroute_simulator.Registry.Neighbors.{
  NeighborLease, Neighbor, neighbor_key, set_neighbor_leases, others_lease, release_left,
  release_neighbor_update, release_neighbor_lease,
}

abbrev pub leases_of : Option Neighbor → List NeighborLease
leases_of none = []
leases_of (some e) = e.leases

-- The leases of a neighbour in a file.
abbrev pub leases_in : String → String → File Neighbor → List NeighborLease
leases_in host_name neighbor_ip file =
    leases_of (get (neighbor_key host_name neighbor_ip) (entries file))

leases_of_if :
    (b : Bool) (x y : Option Neighbor)
    → leases_of (if b then x else y) ≡ (if b then leases_of x else leases_of y)
leases_of_if true x y = refl
leases_of_if false x y = refl

release_left_ok :
    (key other : String) (e : Neighbor) (left : List NeighborLease) (leases d : Dict Neighbor)
    {n : ℕ} {last : Bool}
    → release_left key e left leases ≡ ok ((n, last), d)
    → (n ≡ length left)
      × ((last ≡ true) ↔ (left ≡ []))
      × (leases_of (get other d)
          ≡ (if str_eq key other then left else leases_of (get other leases)))
release_left_ok key other e [] leases d {n} {last} h =
    let zero_left : 0 ≡ n = cc h in
    let is_last : true ≡ last = cc h in
    let stored : remove key leases ≡ d = cc h in
    (
      sym zero_left,
      ((λ _. refl), λ _. sym is_last),
      subst
          (λ x.
            leases_of (get other x)
            ≡ (if str_eq key other then [] else leases_of (get other leases)))
          stored
          (rw (get-remove key other leases)
            (leases_of_if (str_eq key other) none (get other leases))),
    )
release_left_ok key other e (l ∷ left) leases d {n} {last} h =
    let entry = set_neighbor_leases (l ∷ left) e in
    let counted : length (l ∷ left) ≡ n = cc h in
    let not_last : false ≡ last = cc h in
    let stored : put key entry leases ≡ d = cc h in
    (
      sym counted,
      ((λ t. cc (t, not_last)), λ z. cc z),
      subst
          (λ x.
            leases_of (get other x)
            ≡ (if str_eq key other then l ∷ left else leases_of (get other leases)))
          stored
          (rw (get-put key other entry leases)
            (leases_of_if (str_eq key other) (some entry) (get other leases))),
    )

release_update_ok :
    (run_id key other : String) (leases d : Dict Neighbor) {n : ℕ} {last : Bool}
    → release_neighbor_update run_id key leases ≡ ok ((n, last), d)
    → (n ≡ length (keep (others_lease run_id) (leases_of (get key leases))))
      × ((last ≡ true) ↔ (keep (others_lease run_id) (leases_of (get key leases)) ≡ []))
      × (leases_of (get other d) ≡ (
          if str_eq key other
          then keep (others_lease run_id) (leases_of (get key leases))
          else leases_of (get other leases)))
unfolding release_neighbor_update
release_update_ok run_id key other leases d {n} {last} h = elim (Option-cases (get key leases)) [
  | inl absent ↦ let bad : raise value_error ≡ ok ((n, last), d) = rw absent at h in cc bad
  | inr (e, there) ↦
      rw there
        (release_left_ok key other e (keep (others_lease run_id) e.leases) leases d (rw there at h))
]

-- A neighbour's release that answers leaves exactly the leases of the other runs, answers their
-- number, and has the neighbour deleted exactly if there is none; other keys keep their leases.
pub release_neighbor_last :
    (sys : System) (run_id host_name neighbor_ip other : String) (file : File Neighbor) {n : ℕ}
    {last : Bool}
    → (release_neighbor_lease sys run_id host_name neighbor_ip file).0 ≡ ok (n, last)
    → (n ≡ length (keep (others_lease run_id) (leases_in host_name neighbor_ip file)))
      × ((last ≡ true) ↔ (keep (others_lease run_id) (leases_in host_name neighbor_ip file) ≡ []))
      × (leases_of
            (get other (entries (release_neighbor_lease sys run_id host_name neighbor_ip file).1))
          ≡ (if str_eq (neighbor_key host_name neighbor_ip) other
              then keep (others_lease run_id) (leases_in host_name neighbor_ip file)
              else leases_of (get other (entries file))))
unfolding release_neighbor_lease
release_neighbor_last sys run_id host_name neighbor_ip other file h =
    let key = neighbor_key host_name neighbor_ip in
    let run = atomic_update sys (release_neighbor_update run_id key) file in
    let (inside, whole) = locked_ok sys run file h in
    let (d, computed, stored) =
      atomic_update_ok sys (release_neighbor_update run_id key) file inside in
    let (count, last_iff, left) = release_update_ok run_id key other (entries file) d computed in
    (count, last_iff, rw (whole, stored) left)

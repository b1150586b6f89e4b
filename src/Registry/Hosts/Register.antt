-- ===== src/Registry/Hosts/Register.antt =====
-- What `check_and_register_host` and `unregister_host` of src/core/registry_manager.py promise.
use traceroute_simulator.Prelude.{
  ℕ, String, ◌≡◌, refl, sym, subst, ◌⊎◌, inl, inr, Bool, true, false, Option, none, some, List, [],
  ◌∷◌, eq_iff, str_eq, if◌then◌else◌, Bool-cases, if_ind, All, value_error, runtime_error,
  key_error, lock_timeout, collision, Result, ok, raise, Dict, get, has, put, remove, get-put,
  get-remove, get-none_of_has, type_error, recursion_error,
}
use traceroute_simulator.Registry.Files.{
  File, readable, System, atomic_read, atomic_write, atomic_update, locked, entries,
  atomic_update_ok, atomic_update_keeps, locked_ok, locked_keeps,
}
use traceroute_simulator.Registry.Hosts.{
  Host, Info, any_collision, new_host, register_update, collision_is_false, check_and_register_host,
  unregister_update, unregister_host,
}
use traceroute_simulator.Registry.Hosts.Collisions.{IsUnique, IsUnique-remove, IsUnique-put}

-- The additional information leaves the compared fields alone.
abbrev pub KeepsFields : Option Info → Type 0
KeepsFields none = Unit
KeepsFields (some i) = (i.primary_ip ≡ none) × (i.connected_to ≡ none) × (i.mac_address ≡ none)

-- A writer's call on the host registry.
pub data Call : Type 0 where
  register : String → String → String → String → Option Info → Call
  unregister : String → Call

abbrev pub CallKeepsFields : Call → Type 0
CallKeepsFields (register name primary_ip connected_to mac info) = KeepsFields info
CallKeepsFields (unregister name) = Unit

abbrev pub perform : System × Call → File Host → Result Bool × File Host
perform (sys, register name primary_ip connected_to mac info) file =
    check_and_register_host sys name primary_ip connected_to mac info file
perform (sys, unregister name) file = unregister_host sys name file

abbrev pub perform_all : List (System × Call) → File Host → File Host
perform_all [] file = file
perform_all (c ∷ cs) file = perform_all cs (perform c file).1

collision_is_false-file : (r : Result Bool × File Host) → (collision_is_false r).1 ≡ r.1
collision_is_false-file (ok b, file) = refl
collision_is_false-file (raise value_error, file) = refl
collision_is_false-file (raise runtime_error, file) = refl
collision_is_false-file (raise key_error, file) = refl
collision_is_false-file (raise type_error, file) = refl
collision_is_false-file (raise recursion_error, file) = refl
collision_is_false-file (raise lock_timeout, file) = refl
collision_is_false-file (raise collision, file) = refl

collision_is_false-true :
    (r : Result Bool × File Host) → (collision_is_false r).0 ≡ ok true → r.0 ≡ ok true
collision_is_false-true (ok b, file) h = h
collision_is_false-true (raise value_error, file) h = cc
collision_is_false-true (raise runtime_error, file) h = cc
collision_is_false-true (raise key_error, file) h = cc
collision_is_false-true (raise type_error, file) h = cc
collision_is_false-true (raise recursion_error, file) h = cc
collision_is_false-true (raise lock_timeout, file) h = cc
collision_is_false-true (raise collision, file) h = let bad : ok false ≡ ok true = h in cc

module _ (sys : System) (name primary_ip connected_to mac : String) (info : Option Info) where
  abbrev with_host : Dict Host → Dict Host
  with_host hosts = put name (new_host primary_ip connected_to mac info sys.now) hosts

  register_update_ok :
      (hosts : Dict Host) {b : Bool} (d : Dict Host)
      → register_update sys name primary_ip connected_to mac info hosts ≡ ok (b, d)
      → (any_collision name primary_ip connected_to mac hosts ≡ false) × (d ≡ with_host hosts)
  unfolding register_update
  register_update_ok hosts {b} d h =
      elim (Bool-cases (any_collision name primary_ip connected_to mac hosts)) [
        | inl c ↦ let bad : raise collision ≡ ok (b, d) = rw c at h in cc bad
        | inr c ↦ let same : ok (true, with_host hosts) ≡ ok (b, d) = rw c at h in (c, cc same)
      ]

  -- A call that answers `True` found no collision with the name, the address or the MAC, and
  -- leaves a file in which the name has the new host and every other name what it had.
  pub register_true :
      (other : String) (file : File Host)
      → (check_and_register_host sys name primary_ip connected_to mac info file).0 ≡ ok true
      → (any_collision name primary_ip connected_to mac (entries file) ≡ false)
        × (get other
              (entries (check_and_register_host sys name primary_ip connected_to mac info file).1)
            ≡ (if str_eq name other
                then some (new_host primary_ip connected_to mac info sys.now)
                else get other (entries file)))
  unfolding check_and_register_host
  register_true other file h =
      let run =
        atomic_update sys (register_update sys name primary_ip connected_to mac info) file in
      let (inside, whole) = locked_ok sys (collision_is_false run) file h in
      let (d, computed, stored) =
        atomic_update_ok sys (register_update sys name primary_ip connected_to mac info) file
          (collision_is_false-true run inside) in
      let (free, same) = register_update_ok (entries file) d computed in
      (
        free,
        rw (whole, collision_is_false-file run, stored, same)
            (get-put name other (new_host primary_ip connected_to mac info sys.now) (entries file)),
      )

-- With its lock granted and a file that can be read and written, a registration answers whether
-- nothing collides, and where something does it leaves the file as it is.
pub register_decides :
    (sys : System) (name primary_ip connected_to mac : String) (info : Option Info)
    (hosts : Dict Host)
    → sys.lock_granted ≡ true
    → sys.writable ≡ true
    → check_and_register_host sys name primary_ip connected_to mac info (readable hosts) ≡ (
        if any_collision name primary_ip connected_to mac hosts
        then (ok false, readable hosts)
        else (
          ok true,
          readable (put name (new_host primary_ip connected_to mac info sys.now) hosts),
        ))
unfolding check_and_register_host locked atomic_update atomic_read atomic_write register_update
register_decides sys name primary_ip connected_to mac info hosts l w =
    elim (Bool-cases (any_collision name primary_ip connected_to mac hosts)) [
      | inl c ↦ rw (l, c)
      | inr c ↦ rw (l, c, w)
    ]

new_host-IsUnique :
    (name primary_ip connected_to mac : String) (info : Option Info) (now : ℕ) (hosts : Dict Host)
    → KeepsFields info
    → any_collision name primary_ip connected_to mac hosts ≡ false
    → IsUnique hosts
    → IsUnique (put name (new_host primary_ip connected_to mac info now) hosts)
new_host-IsUnique name ip router mac none now hosts k c u =
    IsUnique-put name (new_host ip router mac none now) hosts c u
new_host-IsUnique name ip router mac (some i) now hosts (k, l, m) c u =
    IsUnique-put name (new_host ip router mac (some i) now) hosts (rw (k, l, m) c) u

unregister_update_ok :
    (name : String) (hosts : Dict Host) {b : Bool} (d : Dict Host)
    → unregister_update name hosts ≡ ok (b, d)
    → (b ≡ has name hosts) × ((d ≡ remove name hosts) ⊎ ((d ≡ hosts) × (has name hosts ≡ false)))
unfolding unregister_update
unregister_update_ok name hosts {b} d e = elim (Bool-cases (has name hosts)) [
  | inl h ↦
      let same : ok (true, remove name hosts) ≡ ok (b, d) = rw h at e in
      (rw h (sym (cc same)), inl (cc same))
  | inr h ↦
      let same : ok (false, hosts) ≡ ok (b, d) = rw h at e in
      (rw h (sym (cc same)), inr (cc same, h))
]

unregister_update-IsUnique :
    (name : String) (hosts : Dict Host) {b : Bool} (d : Dict Host)
    → IsUnique hosts
    → unregister_update name hosts ≡ ok (b, d)
    → IsUnique d
unregister_update-IsUnique name hosts d u e = elim (unregister_update_ok name hosts d e).1 [
  | inl s ↦ subst IsUnique (sym s) (IsUnique-remove name hosts u)
  | inr (s, absent) ↦ subst IsUnique (sym s) u
]

perform-IsUnique :
    (c : System × Call) (file : File Host)
    → CallKeepsFields c.1
    → IsUnique (entries file)
    → IsUnique (entries (perform c file).1)
unfolding check_and_register_host unregister_host
perform-IsUnique (sys, register name ip router mac info) file k u =
    let run = atomic_update sys (register_update sys name ip router mac info) file in
    let kept =
      atomic_update_keeps sys (register_update sys name ip router mac info) IsUnique file
        (λ b d e.
          let (free, same) = register_update_ok sys name ip router mac info (entries file) d e in
          subst IsUnique (sym same)
            (new_host-IsUnique name ip router mac info sys.now (entries file) k free u))
        u in
    locked_keeps sys (collision_is_false run) file IsUnique
      (subst (λ f. IsUnique (entries f)) (sym (collision_is_false-file run)) kept) u
perform-IsUnique (sys, unregister name) file k u =
    locked_keeps sys (atomic_update sys (unregister_update name) file) file IsUnique
      (atomic_update_keeps sys (unregister_update name) IsUnique file
        (λ b d e. unregister_update-IsUnique name (entries file) d u e) u)
      u

-- After any registrations, with no additional information on the compared fields, and removals,
-- whatever they answered, the hosts have different names and MACs, and different addresses on one
-- router, if they had before.
pub perform_all-IsUnique :
    (cs : List (System × Call)) (file : File Host)
    → All (λ c. CallKeepsFields c.1) cs
    → IsUnique (entries file)
    → IsUnique (entries (perform_all cs file))
perform_all-IsUnique [] file k u = u
perform_all-IsUnique (c ∷ cs) file k u =
    perform_all-IsUnique cs (perform c file).1 k.1 (perform-IsUnique c file k.0 u)

absent_get :
    (name other : String) (hosts : Dict Host)
    → has name hosts ≡ false
    → get other hosts ≡ (if str_eq name other then none else get other hosts)
absent_get name other hosts h =
    let none_there = get-none_of_has name hosts h in
    if_ind (λ x. get other hosts ≡ x) (str_eq name other)
      (λ e. subst (λ n. get n hosts ≡ none) ((eq_iff name other).0 e) none_there) (λ _. refl)

-- A removal that answers tells whether the name was there, and leaves all other names alone.
pub unregister_frees :
    (sys : System) (name other : String) (file : File Host) {b : Bool}
    → (unregister_host sys name file).0 ≡ ok b
    → (b ≡ has name (entries file))
      × (get other (entries (unregister_host sys name file).1)
          ≡ (if str_eq name other then none else get other (entries file)))
unfolding unregister_host
unregister_frees sys name other file h =
    let (inside, whole) = locked_ok sys (atomic_update sys (unregister_update name) file) file h in
    let (d, computed, stored) = atomic_update_ok sys (unregister_update name) file inside in
    let (answer, cases) = unregister_update_ok name (entries file) d computed in
    (
      answer,
      rw (whole, stored)
          (elim cases [
            | inl s ↦ rw s (get-remove name other (entries file))
            | inr (s, absent) ↦ rw s (absent_get name other (entries file) absent)
          ]),
    )

-- ===== src/Registry/Locks/Released.antt =====
-- What a release of src/core/registry_manager.py really does.
use traceroute_simulator.Prelude.{
  ℕ, ◌+◌, String, ◌≡◌, refl, sym, subst, true, arith, eq_refl, str_eq, mem_str,
}
use traceroute_simulator.Registry.Locks.{Locks, value, release, one_if}
use traceroute_simulator.Registry.Locks.Atomic.{release-gives, release-opened}

release-answer :
    (name : String) (locks : Locks)
    → mem_str name locks.opened ≡ true
    → (release name locks).0 ≡ true
unfolding release
release-answer name locks h = rw h refl

twice :
    (a b c : ℕ) (name : String)
    → b ≡ a + one_if (str_eq name name)
    → c ≡ b + one_if (str_eq name name)
    → c ≡ a + 2
twice a b c name p q =
    let p' : b ≡ a + 1 = rw (eq_refl name) at p in
    let q' : c ≡ b + 1 = rw (eq_refl name) at q in omega (arith, p', q')

-- A name that this process has opened is released twice in a row with the answer `True` both times,
-- and the semaphore is two higher, whether the process held it or not.
pub release_twice :
    (name : String) (locks : Locks)
    → mem_str name locks.opened ≡ true
    → ((release name locks).0 ≡ true)
      × ((release name (release name locks).1).0 ≡ true)
      × (value name (release name (release name locks).1).1.values ≡ value name locks.values + 2)
release_twice name locks h =
    let once = (release name locks).1 in
    let still : mem_str name once.opened ≡ true =
      subst (λ o. mem_str name o ≡ true) (sym (release-opened name locks)) h in
    (
      release-answer name locks h,
      release-answer name once still,
      twice (value name locks.values) (value name once.values)
          (value name (release name once).1.values) name (release-gives name locks h name)
          (release-gives name once still name),
    )

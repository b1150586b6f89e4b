-- ===== src/Registry/Files.antt =====
-- The registry files of src/core/registry_manager.py, and the guarded read-modify-write that every
-- operation on them is. The semaphore of a registry is held for the whole operation, so operations
-- on one file follow one another.
use traceroute_simulator.Prelude.{
  ℕ, ◌≡◌, Bool, [], if◌then◌else◌, runtime_error, lock_timeout, Result, ok, raise, ◌>>=◌, Dict,
  refl, inl, inr, Bool-cases, if_ind, Exception, Result-cases,
}

-- A file that is absent, that holds no JSON, or that holds a dict.
pub data File (V : Type 0) : Type 0 where
  missing corrupt : File V
  readable : Dict V → File V

-- The answers of the system during one call: the time, the own process, whether the registry's lock
-- is granted before the timeout, and whether the file can be written.
pub record System : Type 0 where
  pub now : ℕ
  pub getpid : ℕ
  pub lock_granted : Bool
  pub writable : Bool

module _ {V : Type 0} where
  -- After the retries a corrupt file is an error, an absent one is empty.
  unfoldable pub atomic_read : File V → Result (Dict V)
  atomic_read missing = ok []
  atomic_read corrupt = raise runtime_error
  atomic_read (readable d) = ok d

  unfoldable pub atomic_write : System → Dict V → Result (File V)
  atomic_write sys d = if sys.writable then ok (readable d) else raise runtime_error

  abbrev pub written : {A : Type 0} → Result (File V) → A → File V → Result A × File V
  written (ok file') a file = (ok a, file')
  written (raise e) a file = (raise e, file)

  abbrev pub updated : {A : Type 0} → System → Result (A × Dict V) → File V → Result A × File V
  updated sys (ok (a, d)) file = written (atomic_write sys d) a file
  updated sys (raise e) file = (raise e, file)

  -- `atomic_update`: what `update_fn` raises leaves the file as it is. `update_fn` also gives what
  -- the caller computes from the old and the new data.
  unfoldable pub atomic_update :
      {A : Type 0} → System → (Dict V → Result (A × Dict V)) → File V → Result A × File V
  atomic_update sys update_fn file = updated sys (atomic_read file >>= update_fn) file

  -- Every operation first takes the registry's lock.
  unfoldable pub locked : {A : Type 0} → System → Result A × File V → File V → Result A × File V
  locked sys op file = if sys.lock_granted then op else (raise lock_timeout, file)

  abbrev pub entries : File V → Dict V
  entries missing = []
  entries corrupt = []
  entries (readable d) = d

module _ {V A : Type 0} (sys : System) (f : Dict V → Result (A × Dict V)) where
  -- An update that returns has applied its function to the entries, and the file holds the result.
  pub updated_ok :
      (file : File V) (r : Result (A × Dict V)) {a : A}
      → (updated sys r file).0 ≡ ok a
      → (d : Dict V) × (r ≡ ok (a, d)) × ((updated sys r file).1 ≡ readable d)
  unfolding atomic_write
  updated_ok file (raise e) h = cc
  updated_ok file (ok (b, d)) {a} h = elim (Bool-cases sys.writable) [
    | inl w ↦ let same : ok b ≡ ok a = rw w at h in (d, cc same, rw w)
    | inr w ↦ let bad : raise runtime_error ≡ ok a = rw w at h in cc
  ]

  pub atomic_update_ok :
      (file : File V) {a : A}
      → (atomic_update sys f file).0 ≡ ok a
      → (d : Dict V) × (f (entries file) ≡ ok (a, d)) × ((atomic_update sys f file).1 ≡ readable d)
  unfolding atomic_update atomic_read
  atomic_update_ok missing h = updated_ok missing (f []) h
  atomic_update_ok corrupt h = cc
  atomic_update_ok (readable d) h = updated_ok (readable d) (f d) h

  updated_keeps {ℓ} :
      (P : Dict V → Type ℓ) (file : File V) (r : Result (A × Dict V))
      → ((a : A) (d : Dict V) → r ≡ ok (a, d) → P d)
      → P (entries file)
      → P (entries (updated sys r file).1)
  unfolding atomic_write
  updated_keeps P file (raise e) k h = h
  updated_keeps P file (ok (a, d)) k h = elim (Bool-cases sys.writable) [
    | inl w ↦ rw w (k a d refl)
    | inr w ↦ rw w h
  ]

  -- What the function keeps true of the entries, the update keeps true, also where it raises.
  pub atomic_update_keeps {ℓ} :
      (P : Dict V → Type ℓ) (file : File V)
      → ((a : A) (d : Dict V) → f (entries file) ≡ ok (a, d) → P d)
      → P (entries file)
      → P (entries (atomic_update sys f file).1)
  unfolding atomic_update atomic_read
  atomic_update_keeps P missing k h = updated_keeps P missing (f []) k h
  atomic_update_keeps P corrupt k h = h
  atomic_update_keeps P (readable d) k h = updated_keeps P (readable d) (f d) k h

  -- An update that raises leaves the file as it is.
  pub atomic_update_raises :
      (file : File V) {e : Exception}
      → (atomic_update sys f file).0 ≡ raise e
      → (atomic_update sys f file).1 ≡ file
  unfolding atomic_update atomic_write
  atomic_update_raises file h = elim (Result-cases (atomic_read file >>= f)) [
    | inl (e, r) ↦ rw r
    | inr ((a, d), r) ↦ elim (Bool-cases sys.writable) [
      | inl w ↦ let bad : ok a ≡ raise _ = rw (r, w) at h in cc
      | inr w ↦ rw (r, w)
    ]
  ]

module _ {V A : Type 0} (sys : System) (op : Result A × File V) (file : File V) where
  pub locked_ok :
      {a : A} → (locked sys op file).0 ≡ ok a → (op.0 ≡ ok a) × (locked sys op file ≡ op)
  unfolding locked
  locked_ok {a} h = elim (Bool-cases sys.lock_granted) [
    | inl l ↦ (rw l at h, rw l)
    | inr l ↦ let bad : raise lock_timeout ≡ ok a = rw l at h in cc
  ]

  pub locked_keeps {ℓ} :
      (P : Dict V → Type ℓ)
      → P (entries op.1)
      → P (entries file)
      → P (entries (locked sys op file).1)
  unfolding locked
  locked_keeps P h k =
      if_ind (λ (r : Result A × File V). P (entries r.1)) sys.lock_granted (λ _. h) (λ _. k)

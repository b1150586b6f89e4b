-- ===== src/Dscp.antt =====
-- wsgi/services/tsim_dscp_registry.py: which job has which DSCP value, in a registry file.
-- Times and process ids are natural numbers. What the operating system answers is a parameter.
pub mod Status
pub mod Stale
pub mod Lowest
pub mod Invariant
pub mod Allocate
pub mod Promises
pub mod Free
pub mod Capacity
mod Tests
use traceroute_simulator.Prelude.{
  ℕ, zero, suc, ◌+◌, ◌-◌, min, String, Bool, true, false, not, ◌||◌, Option, none, some, List, [],
  ◌∷◌, ltb, ◌==◌, str_eq, if◌then◌else◌, length, keep, value_error, runtime_error, Result, ok,
  raise, Dict, get, has, put, remove,
}

pub record Allocation : Type 0 where
  pub dscp : ℕ
  pub job_id : String
  pub username : String
  pub allocated_at : ℕ
  pub pid : ℕ
  pub status : String

pub record Registry : Type 0 where
  pub version : ℕ
  pub created_at : ℕ
  pub updated_at : ℕ
  pub allocations : Dict Allocation

-- The registry file: absent, no JSON or without a dict of allocations, or a registry.
pub data File : Type 0 where
  missing corrupt : File
  readable : Registry → File

pub record Config : Type 0 where
  pub dscp_min : ℕ
  pub dscp_max : ℕ
  pub max_age : ℕ
  pub enabled : Bool

-- The answers of the system during one call: the time, the own process, `os.kill(pid, 0)`, and
-- whether the registry file can be written.
pub record System : Type 0 where
  pub now : ℕ
  pub getpid : ℕ
  pub kill_0 : ℕ → Bool
  pub writable : Bool

-- The check of the constructor.
unfoldable pub validate_range : Config → Result Config
validate_range c =
    if ltb 63 c.dscp_max || ltb c.dscp_max c.dscp_min then raise value_error else ok c

abbrev pub new_registry : ℕ → Registry
new_registry now = record { version = 1; created_at = now; updated_at = now; allocations = [] }

unfoldable pub load_registry : System → File → Registry
load_registry sys missing = new_registry sys.now
load_registry sys corrupt = new_registry sys.now
load_registry sys (readable r) = r

unfoldable pub save_registry : System → Registry → File → Result File
save_registry sys r file = if sys.writable then ok (readable r) else raise runtime_error

unfoldable pub is_process_alive : System → ℕ → Bool
is_process_alive sys pid = if pid == 0 then false else sys.kill_0 pid

unfoldable pub is_stale : Config → System → Allocation → Bool
is_stale c sys a =
    if not (is_process_alive sys a.pid) then true else ltb c.max_age (sys.now - a.allocated_at)

-- The keys collected by the first loop of `_cleanup_stale_allocations`.
unfoldable pub stale_jobs : Config → System → Dict Allocation → List String
stale_jobs c sys [] = []
stale_jobs c sys ((k, a) ∷ d) =
    let rest = stale_jobs c sys d in if is_stale c sys a then k ∷ rest else rest

unfoldable pub remove_all : List String → Dict Allocation → Dict Allocation
remove_all [] d = d
remove_all (k ∷ ks) d = remove_all ks (remove k d)

unfoldable pub cleanup_stale : Config → System → Registry → ℕ × Registry
cleanup_stale c sys r =
    let stale = stale_jobs c sys r.allocations in
    let left = remove_all stale r.allocations in
    let n = length stale in
    if n == 0
    then (0, record r { allocations = left })
    else (n, record r { allocations = left; updated_at = sys.now })

-- `range(a, a + n)`
unfoldable pub range : ℕ → ℕ → List ℕ
range a zero = []
range a (suc n) = a ∷ range (a + 1) n

unfoldable pub mem : ℕ → List ℕ → Bool
mem n [] = false
mem n (x ∷ xs) = x == n || mem n xs

-- `min(xs)`, or nothing for an empty set
unfoldable pub smallest : List ℕ → Option ℕ
smallest [] = none
smallest (x ∷ xs) = elim (smallest xs) [ none ↦ some x | some y ↦ some (min x y) ]

abbrev pub used_dscps : Dict Allocation → List ℕ
used_dscps [] = []
used_dscps ((k, a) ∷ d) = a.dscp ∷ used_dscps d

unfoldable pub available_dscps : Config → Dict Allocation → List ℕ
available_dscps c d =
    keep (λ n. not (mem n (used_dscps d))) (range c.dscp_min (c.dscp_max + 1 - c.dscp_min))

abbrev pub or_unknown : Option String → String
or_unknown none = "unknown"
or_unknown (some u) = if str_eq u "" then "unknown" else u

abbrev pub new_allocation : ℕ → String → Option String → System → Allocation
new_allocation dscp job_id username sys = record {
  dscp = dscp;
  job_id = job_id;
  username = or_unknown username;
  allocated_at = sys.now;
  pid = sys.getpid;
  status = "active";
}

abbrev pub with_allocation : ℕ → String → Option String → System → Registry → Registry
with_allocation dscp job_id username sys r = record r {
  allocations = put job_id (new_allocation dscp job_id username sys) r.allocations;
  updated_at = sys.now;
}

abbrev pub saved : Result File → File → ℕ → Result (Option ℕ) × File
saved (ok file') file dscp = (ok (some dscp), file')
saved (raise e) file dscp = (raise runtime_error, file)

-- `allocate_dscp` after the stale allocations are gone from the registry `r`.
unfoldable pub allocate_in :
    Config → System → String → Option String → File → Registry → Result (Option ℕ) × File
allocate_in c sys job_id username file r = elim (get job_id r.allocations) [
  | some existing ↦ (ok (some existing.dscp), file)
  | none ↦ elim (smallest (available_dscps c r.allocations)) [
    | none ↦ (ok none, file)
    | some dscp ↦
        saved (save_registry sys (with_allocation dscp job_id username sys r) file) file dscp
  ]
]

unfoldable pub allocate_dscp :
    Config → System → String → Option String → File → Result (Option ℕ) × File
allocate_dscp c sys job_id username file =
    if not c.enabled
    then (ok (some 32), file)
    else allocate_in c sys job_id username file (cleanup_stale c sys (load_registry sys file)).1

abbrev pub without_allocation : String → System → Registry → Registry
without_allocation job_id sys r = record r {
  allocations = remove job_id r.allocations;
  updated_at = sys.now;
}

-- An exception is logged, and the method returns its default.
abbrev pub saved_or {ℓ} : {A : Type ℓ} → Result File → File → A → A → A × File
saved_or (ok file') file a default = (a, file')
saved_or (raise e) file a default = (default, file)

unfoldable pub release_dscp : Config → System → String → File → Bool × File
release_dscp c sys job_id file =
    if not c.enabled
    then (true, file)
    else (let r = load_registry sys file in
        if has job_id r.allocations
        then saved_or (save_registry sys (without_allocation job_id sys r) file) file true false
        else (false, file))

abbrev pub dscp_of : Option Allocation → Option ℕ
dscp_of none = none
dscp_of (some a) = some a.dscp

unfoldable pub get_job_dscp : Config → System → String → File → Option ℕ
get_job_dscp c sys job_id file =
    if not c.enabled then some 32 else dscp_of (get job_id (load_registry sys file).allocations)

unfoldable pub get_dscp_for_job : Config → System → String → File → Option ℕ
get_dscp_for_job c sys job_id file =
    if not c.enabled then none else dscp_of (get job_id (load_registry sys file).allocations)

unfoldable pub cleanup_stale_allocations : Config → System → File → ℕ × File
cleanup_stale_allocations c sys file =
    if not c.enabled
    then (0, file)
    else (let (cleaned, r) = cleanup_stale c sys (load_registry sys file) in
        if ltb 0 cleaned
        then saved_or (save_registry sys r file) file cleaned 0
        else (cleaned, file))

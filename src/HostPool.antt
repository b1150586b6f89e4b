-- ===== src/HostPool.antt =====
-- wsgi/services/tsim_quick_job_host_pool_service.py: which quick jobs use which source hosts, and
-- when a host that no job uses is removed. A part of a method that holds the pool's lock is one
-- step; the clock, the running jobs and the answers of `tsimsh` are parameters. Times are seconds.
pub mod Batch
pub mod Users
pub mod Kept
pub mod Pending
mod Tests
use traceroute_simulator.Prelude.{
  ℕ, ◌+◌, String, Bool, true, false, not, Option, none, some, List, [], ◌∷◌, ◌++◌, ltb, str_eq,
  if◌then◌else◌, mem_str, keep, length, Dict, get, has, put, remove, keys,
}

-- `{'ip': …, 'router': …}`
pub record HostInfo : Type 0 where
  pub ip : String
  pub router : String

-- The attributes of the service. A set is a list, a timer is the time at which it goes off.
pub record Pool : Type 0 where
  pub host_refcounts : Dict (List String)
  pub cleanup_timers : Dict ℕ
  pub host_expiry_times : Dict ℕ
  pub paused_for_detailed_jobs : List String
  pub cleanup_grace_period : ℕ

abbrev pub new_pool : ℕ → Pool
new_pool grace = record {
  host_refcounts = [];
  cleanup_timers = [];
  host_expiry_times = [];
  paused_for_detailed_jobs = [];
  cleanup_grace_period = grace;
}

-- `s.add(x)` and `s.discard(x)`
unfoldable pub add : String → List String → List String
add x s = if mem_str x s then s else s ++ x ∷ []

abbrev pub other : String → String → Bool
other x y = not (str_eq y x)

unfoldable pub discard : String → List String → List String
discard x s = keep (other x) s

abbrev pub users : Option (List String) → List String
users none = []
users (some jobs) = jobs

-- The jobs that use a host.
unfoldable pub users_of : String → Pool → List String
users_of host p = users (get host p.host_refcounts)

abbrev pub is_empty_set : List String → Bool
is_empty_set [] = true
is_empty_set (x ∷ s) = false

abbrev pub in_use : String → Pool → Bool
in_use host p = not (is_empty_set (users_of host p))

-- One round of the loop of phase 4.
unfoldable pub use_host : String → String → Pool → Pool
use_host job_id host p = record p {
  host_refcounts = put host (add job_id (users_of host p)) p.host_refcounts;
  cleanup_timers = remove host p.cleanup_timers;
  host_expiry_times = remove host p.host_expiry_times;
}

unfoldable pub use_hosts : String → List String → Pool → Pool
use_hosts job_id [] p = p
use_hosts job_id (host ∷ hosts) p = use_hosts job_id hosts (use_host job_id host p)

-- Phase 4 of `prepare_and_execute_jobs`.
unfoldable pub register_usage : Dict (Dict HostInfo) → Pool → Pool
register_usage [] p = p
register_usage ((job_id, hosts) ∷ reqs) p = register_usage reqs (use_hosts job_id (keys hosts) p)

-- A timer of ten seconds for `_cleanup_host`.
abbrev pub schedule : ℕ → String → Pool → Pool
schedule now host p = record p { cleanup_timers = put host (now + 10) p.cleanup_timers }

abbrev pub pause : String → Pool → Pool
pause host p = record p { paused_for_detailed_jobs = add host p.paused_for_detailed_jobs }

abbrev pub expire_later : ℕ → String → Pool → Pool
expire_later now host p = record p {
  host_expiry_times = put host (now + p.cleanup_grace_period) p.host_expiry_times;
}

-- `_has_running_detailed_jobs`, of the types of the running jobs
unfoldable pub has_running_detailed_jobs : List String → Bool
has_running_detailed_jobs types = mem_str "detailed" types

-- A host that no job uses any more, with the answer whether a detailed job is running.
abbrev pub unused : ℕ → Bool → String → Pool → Pool
unused now detailed host p =
    if detailed
    then schedule now host (pause host p)
    else schedule now host (expire_later now host p)

-- One round of the loop of `release_job`.
unfoldable pub release_host : ℕ → Bool → String → String → Pool → Pool
release_host now detailed job_id host p =
    if has host p.host_refcounts
    then (let left = discard job_id (users_of host p) in
        let p' = record p { host_refcounts = put host left p.host_refcounts } in
        if is_empty_set left then unused now detailed host p' else p')
    else p

unfoldable pub release_job : ℕ → Bool → String → List String → Pool → Pool
release_job now detailed job_id [] p = p
release_job now detailed job_id (host ∷ hosts) p =
    release_job now detailed job_id hosts (release_host now detailed job_id host p)

abbrev pub forget : String → Pool → Pool
forget host p = record p {
  host_refcounts = remove host p.host_refcounts;
  cleanup_timers = remove host p.cleanup_timers;
  host_expiry_times = remove host p.host_expiry_times;
}

abbrev pub not_expired : ℕ → Option ℕ → Bool
not_expired now none = false
not_expired now (some expiry) = ltb (now + 1) expiry

-- The part of `_cleanup_host` with no detailed job running: whether the host is to be removed.
unfoldable pub cleanup_idle : ℕ → String → Pool → Bool × Pool
cleanup_idle now host p =
    if mem_str host p.paused_for_detailed_jobs
    then (
      false,
      schedule now host (
          expire_later now host
            (record p { paused_for_detailed_jobs = discard host p.paused_for_detailed_jobs })),
    )
    else if in_use host p
    then (false, p)
    else if not_expired now (get host p.host_expiry_times)
    then (false, schedule now host p)
    else (true, forget host p)

abbrev pub cleanup_paused : ℕ → String → Pool → Pool
cleanup_paused now host p = record (schedule now host (pause host p)) {
  host_expiry_times = remove host p.host_expiry_times;
}

-- `_cleanup_host`, up to the removal of the host
unfoldable pub cleanup_host : ℕ → Bool → String → Pool → Bool × Pool
cleanup_host now detailed host p =
    if detailed then (false, cleanup_paused now host p) else cleanup_idle now host p

-- `remove_host_manual`, up to the removal of the host
unfoldable pub remove_host_manual : String → Pool → Bool × Pool
remove_host_manual host p = if in_use host p then (false, p) else (
  true,
  record (forget host p) { paused_for_detailed_jobs = discard host p.paused_for_detailed_jobs },
)

unfoldable pub active_hosts : Dict (List String) → Dict (List String)
active_hosts [] = []
active_hosts ((host, jobs) ∷ d) =
    let rest = active_hosts d in if is_empty_set jobs then rest else (host, jobs) ∷ rest

pub record Status : Type 0 where
  pub active_hosts : Dict (List String)
  pub active_host_count : ℕ
  pub cleanup_pending : List String
  pub cleanup_pending_count : ℕ
  pub host_expiry_times : Dict ℕ

unfoldable pub get_status : Pool → Status
get_status p = record {
  active_hosts = active_hosts p.host_refcounts;
  active_host_count = length (active_hosts p.host_refcounts);
  cleanup_pending = keys p.cleanup_timers;
  cleanup_pending_count = length (keys p.cleanup_timers);
  host_expiry_times = p.host_expiry_times;
}

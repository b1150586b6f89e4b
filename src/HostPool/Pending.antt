-- ===== src/HostPool/Pending.antt =====
-- No host of the pool in wsgi/services/tsim_quick_job_host_pool_service.py is left behind: one that
-- no job uses has a timer.
use traceroute_simulator.Prelude.{
  ℕ, ◌+◌, String, ◌≡◌, Bool, true, false, List, [], ◌∷◌, arith, mem_str, get, has, has-put,
  has-remove, Dict, keys,
}
use traceroute_simulator.HostPool.{
  Pool, HostInfo, add, discard, users, users_of, is_empty_set, in_use, use_host, use_hosts,
  register_usage, release_host, release_job, schedule, forget, cleanup_idle, cleanup_host,
  remove_host_manual,
}
use traceroute_simulator.HostPool.Users.{users-put, users-remove}
use traceroute_simulator.HostPool.Kept.{Call, batch, release, timer, manual, perform, perform_all}

-- Of one host, by what the pool has for it.
abbrev HasTimer : Bool → Bool → Bool → Type 0
HasTimer tracked used timed = tracked ≡ true → used ≡ false → timed ≡ true

-- A host of the pool that no job uses has a timer.
abbrev pub IsPending : Pool → Type 0
IsPending p = (g : String) → HasTimer (has g p.host_refcounts) (in_use g p) (has g p.cleanup_timers)

add_nonempty : (x : String) (s : List String) → is_empty_set (add x s) ≡ false
unfolding add mem_str
add_nonempty x [] = ground arith
add_nonempty x (y ∷ s) = ground arith

use_host-IsPending : (j h : String) (p : Pool) → IsPending p → IsPending (use_host j h p)
unfolding use_host users_of
use_host-IsPending j h p v g = ground (
  arith,
  v g,
  has-put h g (add j (users (get h p.host_refcounts))) p.host_refcounts,
  has-remove h g p.cleanup_timers,
  users-put h g (add j (users (get h p.host_refcounts))) p.host_refcounts,
  add_nonempty j (users (get h p.host_refcounts)),
)

release_host-IsPending :
    (now : ℕ) (detailed : Bool) (j h : String) (p : Pool)
    → IsPending p
    → IsPending (release_host now detailed j h p)
unfolding release_host users_of
release_host-IsPending now detailed j h p v g = ground (
  arith,
  v g,
  has-put h g (discard j (users (get h p.host_refcounts))) p.host_refcounts,
  has-put h g (now + 10) p.cleanup_timers,
  users-put h g (discard j (users (get h p.host_refcounts))) p.host_refcounts,
)

forget-IsPending : (h : String) (p : Pool) → IsPending p → IsPending (forget h p)
unfolding users_of
forget-IsPending h p v g = ground (
  arith,
  v g,
  has-remove h g p.host_refcounts,
  has-remove h g p.cleanup_timers,
  users-remove h g p.host_refcounts,
)

schedule-IsPending : (now : ℕ) (h : String) (p : Pool) → IsPending p → IsPending (schedule now h p)
unfolding users_of
schedule-IsPending now h p v g = ground (arith, v g, has-put h g (now + 10) p.cleanup_timers)

cleanup_host-IsPending :
    (now : ℕ) (detailed : Bool) (h : String) (p : Pool)
    → IsPending p
    → IsPending (cleanup_host now detailed h p).1
unfolding cleanup_host cleanup_idle users_of
cleanup_host-IsPending now detailed h p v g =
    ground (arith, v g, schedule-IsPending now h p v g, forget-IsPending h p v g)

remove_host_manual-IsPending :
    (h : String) (p : Pool) → IsPending p → IsPending (remove_host_manual h p).1
unfolding remove_host_manual users_of
remove_host_manual-IsPending h p v g = ground (arith, v g, forget-IsPending h p v g)

use_hosts-IsPending :
    (j : String) (hosts : List String) (p : Pool) → IsPending p → IsPending (use_hosts j hosts p)
unfolding use_hosts
use_hosts-IsPending j [] p v = v
use_hosts-IsPending j (h ∷ hosts) p v =
    use_hosts-IsPending j hosts (use_host j h p) (use_host-IsPending j h p v)

register_usage-IsPending :
    (reqs : Dict (Dict HostInfo)) (p : Pool) → IsPending p → IsPending (register_usage reqs p)
unfolding register_usage
register_usage-IsPending [] p v = v
register_usage-IsPending ((j, hosts) ∷ reqs) p v =
    register_usage-IsPending reqs (use_hosts j (keys hosts) p)
      (use_hosts-IsPending j (keys hosts) p v)

release_job-IsPending :
    (now : ℕ) (detailed : Bool) (j : String) (hosts : List String) (p : Pool)
    → IsPending p
    → IsPending (release_job now detailed j hosts p)
unfolding release_job
release_job-IsPending now detailed j [] p v = v
release_job-IsPending now detailed j (h ∷ hosts) p v =
    release_job-IsPending now detailed j hosts (release_host now detailed j h p)
      (release_host-IsPending now detailed j h p v)

perform-IsPending : (c : Call) (p : Pool) → IsPending p → IsPending (perform c p).1
unfolding perform
perform-IsPending (batch reqs) p v = register_usage-IsPending reqs p v
perform-IsPending (release now detailed j hosts) p v =
    release_job-IsPending now detailed j hosts p v
perform-IsPending (timer now detailed h) p v = cleanup_host-IsPending now detailed h p v
perform-IsPending (manual h) p v = remove_host_manual-IsPending h p v

-- No host is left behind: if every host of the pool that no job uses has a timer in cleanup_timers,
-- then so it is after any batches, ends of jobs, timers and manual removals, in any order and at
-- any times.
pub perform_all-IsPending :
    (calls : List Call) (p : Pool) → IsPending p → IsPending (perform_all calls p).1
unfolding perform_all
perform_all-IsPending [] p v = v
perform_all-IsPending (c ∷ calls) p v =
    perform_all-IsPending calls (perform c p).1 (perform-IsPending c p v)

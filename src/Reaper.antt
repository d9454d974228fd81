-- ===== src/Reaper.antt =====
-- dead_pool_reaper.go: the jobs and locks of worker pools that stopped beating are given back.
-- A worker pool's Stop uses the same two steps for its own jobs (worker_pool.go).
pub mod Backlog
pub mod Loop
pub mod Names
pub mod Pools
pub mod Timer
use work.Prelude.{ℕ, zero, suc, List, [], ◌∷◌, map, Option, none, some}
use work.Text.{Text}
use work.Keys
use work.Redis.{Redis, Store, Key}
use work.Conn.{out_of_fuel, M, ◌>>=◌, pure, fail, call, command}
use work.Scripts.Reenqueue.{RequeueKeys, Requeued, reenqueue_job}
use work.Scripts.Reap.{reap_stale_locks}

-- The script's KEYS for a pool's job types.
unfoldable pub requeue_keys : Text → Text → List Text → List RequeueKeys
requeue_keys ns pool = map λ name. record {
  in_prog_queue = Keys.jobs_in_progress ns pool name;
  job_queue = Keys.jobs ns name;
  lock_key = Keys.jobs_lock ns name;
  lock_info_key = Keys.jobs_lock_info ns name;
}

unfoldable pub lock_keys : Text → List Text → List (Key × Key)
lock_keys ns = map λ name. (Keys.jobs_lock ns name, Keys.jobs_lock_info ns name)

module _ (redis : Redis) where
  -- The loop of requeueInProgressJobs.
  unfoldable pub requeue_loop : ℕ → List RequeueKeys → Text → M (Unit {0})
  requeue_loop zero keys pool = fail out_of_fuel
  requeue_loop (suc fuel) keys pool =
      let again = requeue_loop fuel keys pool in
      call (reenqueue_job redis keys pool) >>= (λ res. elim res [ none ↦ pure tt | some r ↦ again ])

  unfoldable pub requeue_in_progress_jobs : ℕ → Text → Text → List Text → M (Unit {0})
  unfolding requeue_loop requeue_keys
  requeue_in_progress_jobs fuel ns pool job_types =
      requeue_loop fuel (requeue_keys ns pool job_types) pool

  unfoldable pub clean_stale_lock_info : Text → Text → List Text → M (Unit {0})
  unfolding lock_keys
  clean_stale_lock_info ns pool job_types =
      command (reap_stale_locks redis (lock_keys ns job_types) pool)

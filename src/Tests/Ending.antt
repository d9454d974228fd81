-- ===== src/Tests/Ending.antt =====
-- Examples of a pool that is stopped.
use work.Prelude.{◌<◌, refl, arith, false, [], ◌∷◌, All, none, some}
use work.Text.{text, Text-discrete}
use work.Job.{serialize}
use work.Keys
use work.Keys.Apart.{IsName}
use work.Redis.{update}
use work.Conn.{World}
use work.Worker.{JobType}
use work.Reaper.{requeue_keys}
use work.Reaper.Loop.{total}
use work.Pool.Lifecycle.{WorkerPool, new_worker_pool, names_of, start, stop}
use work.Pool.Lifecycle.Stopping.{IsStopped, stop-IsStopped}
use work.Tests.{redis, redis-IsDocumented, empty_store, world_on, mail}

abbrev type_m : JobType
type_m = record {
  name = text "m";
  priority = 1;
  max_fails = 4;
  skip_dead = false;
  max_concurrency = 0;
  backoff = none;
}

abbrev pool : WorkerPool
pool = record (new_worker_pool (text "a") 2 (text "n") (text "w" ∷ [])) { job_types = type_m ∷ [] }

-- A job was in progress when the workers returned.
abbrev left : World
left = world_on (record empty_store {
  lists =
      update (λ k. []) (Keys.jobs_in_progress (text "n") (text "a") (text "m"))
        (serialize mail ∷ []);
})

pool-IsName : All IsName (names_of pool.job_types)
pool-IsName = ((omega arith, tt), tt)

one_below :
    total (requeue_keys pool.namespace pool.worker_pool_id (names_of pool.job_types)) left.store < 2
unfolding requeue_keys Text-discrete Keys.jobs_in_progress Keys.jobs Keys.namespace_prefix
    Keys.jobs_prefix new_worker_pool
one_below = omega arith

stop-IsStopped_example :
    IsStopped redis 2 pool left
      (stop redis 2 (start redis 7 (some (text "h")) 10 pool (world_on empty_store)).0 left)
unfolding new_worker_pool
stop-IsStopped_example =
    stop-IsStopped redis redis-IsDocumented 7 (some (text "h")) 10 pool (world_on empty_store) left
      2 refl pool-IsName refl one_below

-- ===== src/Pool/Lifecycle.antt =====
-- worker_pool.go: what is registered with a pool, and what Start and Stop do. A worker's sampler is made
-- of the job types registered (Worker.sampler_of), cron's parser is a parameter. The goroutines that
-- Start leaves running are those of Worker, Heartbeat, Requeuer, Reaper and Periodic. Stop goes on when
-- they have returned: its world is the one that they left. An error is only logged.
pub mod Stopping
use work.Prelude.{
  ℕ, Bool, true, false, not, List, [], ◌∷◌, ◌++◌, map, Option, none, some, if◌then◌else◌,
}
use work.Text.{Text}
use work.Redis.{Redis}
use work.Conn.{World}
use work.Worker.{JobType}
use work.Heartbeat.{
  WorkerPoolHeartbeater, new_worker_pool_heartbeater, heartbeat, remove_heartbeat, regardless,
}
use work.Reaper.{requeue_in_progress_jobs, clean_stale_lock_info}
use work.Periodic.{PeriodicJob}
use work.Pool.{
  FnType, is_valid_middleware_type, job_with_options, write_concurrency_controls, write_known_jobs,
}

pub record WorkerPool : Type 0 where
  pub worker_pool_id : Text
  pub concurrency : ℕ
  pub namespace : Text
  pub job_types : List JobType
  pub middleware : List FnType
  pub periodic_jobs : List PeriodicJob
  pub worker_ids : List Text
  pub started : Bool
  pub heartbeater : Option WorkerPoolHeartbeater

-- NewWorkerPoolWithOptions, before any job type is registered.
unfoldable pub new_worker_pool : Text → ℕ → Text → List Text → WorkerPool
new_worker_pool id concurrency namespace worker_ids = record {
  worker_pool_id = id;
  concurrency = concurrency;
  namespace = namespace;
  job_types = [];
  middleware = [];
  periodic_jobs = [];
  worker_ids = worker_ids;
  started = false;
  heartbeater = none;
}

-- Middleware; `none` is the panic over its type.
unfoldable pub add_middleware : Text → FnType → WorkerPool → Option WorkerPool
unfolding is_valid_middleware_type
add_middleware ctx fn wp =
    if is_valid_middleware_type ctx fn
    then some (record wp { middleware = wp.middleware ++ fn ∷ [] })
    else none

abbrev pub with_job_types : WorkerPool → Option (List JobType) → Option WorkerPool
with_job_types wp none = none
with_job_types wp (some jts) = some (record wp { job_types = jts })

-- JobWithOptions, on the pool.
unfoldable pub add_job : Text → JobType → FnType → WorkerPool → Option WorkerPool
unfolding job_with_options
add_job ctx opts fn wp = with_job_types wp (job_with_options ctx opts fn wp.job_types)

abbrev pub with_schedule : Text → Text → WorkerPool → Option (ℕ → ℕ) → Option WorkerPool
with_schedule spec job_name wp none = none
with_schedule spec job_name wp (some schedule) = some (record wp {
  periodic_jobs =
      wp.periodic_jobs ++ record { job_name = job_name; spec = spec; schedule = schedule } ∷ [];
})

-- `none` is the panic over a spec that cron does not parse.
unfoldable pub periodically_enqueue :
    (Text → Option (ℕ → ℕ)) → Text → Text → WorkerPool → Option WorkerPool
periodically_enqueue parse spec job_name wp = with_schedule spec job_name wp (parse spec)

abbrev pub names_of : List JobType → List Text
names_of = map (λ (jt : JobType). jt.name)

-- The heartbeater as its loop starts it.
unfoldable pub heartbeater_of : ℕ → Option Text → ℕ → WorkerPool → WorkerPoolHeartbeater
heartbeater_of pid host now wp =
    record (new_worker_pool_heartbeater wp.namespace wp.worker_pool_id (names_of wp.job_types)
      wp.concurrency wp.worker_ids pid host) { started_at = now }

module _ (redis : Redis) where
  -- The known jobs are written by a goroutine; the first beat comes at once.
  unfoldable pub start : ℕ → Option Text → ℕ → WorkerPool → World → WorkerPool × World
  unfolding heartbeater_of heartbeat write_concurrency_controls write_known_jobs
  start pid host now wp w =
      let h = heartbeater_of pid host now wp in
      let running : WorkerPool × World = (
        record wp { started = true; heartbeater = some h },
        heartbeat redis h now (
            write_known_jobs redis wp.namespace wp.job_types
              (write_concurrency_controls redis wp.namespace wp.job_types w)),
      ) in
      if wp.started then (wp, w) else running

  -- The heartbeater's end; without one there is nothing to stop.
  abbrev pub stop_heartbeater : Option WorkerPoolHeartbeater → World → World
  stop_heartbeater none w = w
  stop_heartbeater (some h) w = remove_heartbeat redis h w

  -- `fuel` is that of requeueInProgressJobs.
  unfoldable pub stop : ℕ → WorkerPool → World → WorkerPool × World
  unfolding requeue_in_progress_jobs clean_stale_lock_info remove_heartbeat
  stop fuel wp w =
      let names = names_of wp.job_types in
      let requeued =
        regardless (requeue_in_progress_jobs redis fuel wp.namespace wp.worker_pool_id names w) in
      let cleaned =
        regardless (clean_stale_lock_info redis wp.namespace wp.worker_pool_id names requeued) in
      if wp.started
      then (record wp { started = false }, stop_heartbeater wp.heartbeater cleaned)
      else (wp, w)

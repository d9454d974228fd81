-- ===== src/Pool/Requeuers.antt =====
-- worker_pool.go, startRequeuers and workerIDs: what the pool starts beside its workers.
use work.Prelude.{List}
use work.Text.{Text}
use work.Text.Names.{sort_strings}
use work.Keys
use work.Requeuer.{Requeuer, new_requeuer}
use work.Reaper.Timer.{DeadPoolReaper, new_dead_pool_reaper}
use work.Pool.Lifecycle.{WorkerPool, names_of}

pub record Requeuers : Type 0 where
  pub retrier : Requeuer
  pub scheduler : Requeuer
  pub dead_pool_reaper : DeadPoolReaper

unfoldable pub start_requeuers : WorkerPool → Requeuers
unfolding new_requeuer new_dead_pool_reaper
start_requeuers wp =
    let names = names_of wp.job_types in
    record {
      retrier = new_requeuer wp.namespace (Keys.retry wp.namespace) names;
      scheduler = new_requeuer wp.namespace (Keys.scheduled wp.namespace) names;
      dead_pool_reaper = new_dead_pool_reaper wp.namespace names;
    }

-- The ids of the pool's workers, in order.
unfoldable pub sorted_worker_ids : WorkerPool → List Text
unfolding sort_strings
sorted_worker_ids wp = sort_strings wp.worker_ids

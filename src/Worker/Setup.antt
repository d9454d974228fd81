-- ===== src/Worker/Setup.antt =====
-- worker.go, newWorker and updateMiddlewareAndJobTypes: a worker as it stands before it is started. The
-- middleware goes to Run, the channels to Loop.
use work.Prelude.{ℕ, List, []}
use work.Text.{Text}
use work.Sampler.{PrioritySampler, empty}
use work.Observer.{Observer, new_observer}
use work.Worker.{JobType, sampler_of}
use work.Worker.Loop.{sleep_backoffs_of}

pub record Worker : Type 0 where
  pub worker_id : Text
  pub pool_id : Text
  pub namespace : Text
  pub job_types : List JobType
  pub sleep_backoffs : List ℕ
  pub sampler : PrioritySampler
  pub observer : Observer

unfoldable pub update_job_types : List JobType → Worker → Worker
unfolding sampler_of
update_job_types job_types w = record w {
  sampler = sampler_of w.namespace w.pool_id job_types empty;
  job_types = job_types;
}

unfoldable pub new_worker : Text → Text → Text → List JobType → List ℕ → Worker
unfolding update_job_types sleep_backoffs_of new_observer
new_worker namespace pool_id worker_id job_types sleep_backoffs =
    update_job_types job_types (record {
      worker_id = worker_id;
      pool_id = pool_id;
      namespace = namespace;
      job_types = [];
      sleep_backoffs = sleep_backoffs_of sleep_backoffs;
      sampler = empty;
      observer = new_observer namespace worker_id;
    })

-- ===== src/Worker/InOrder.antt =====
-- From Enqueue (enqueue.go) to a worker that has run the job (worker.go): jobs of one type that are
-- enqueued, and a worker that fetches and processes them one after the other.
pub mod Steps
pub mod Delivered
use work.Prelude.{ℕ, zero, suc, ◌≡◌, List, [], ◌∷◌, Option, none, some}
use work.Text.{Text}
use work.Job.{Args, Blob, Job}
use work.Keys
use work.Redis.{Redis, Store, or_0}
use work.Conn.{World, Result, ok, err}
use work.Enqueuer.{new_enqueuer, enqueue}
use work.Sampler.{SampleItem}
use work.Scripts.Fetch.Choice.{HasRoom}
use work.Worker.{JobType, fetch, process_job}

-- A call of Enqueue for the job type.
pub record Order : Type 0 where
  pub id : Text
  pub arguments : Option Args
  pub at : ℕ

module _ (redis : Redis) (ns name : Text) where
  -- One Enqueue after the other.
  unfoldable pub enqueue_all : List Order → World → World
  enqueue_all [] w = w
  enqueue_all (o ∷ os) w =
      enqueue_all os (enqueue redis (new_enqueuer ns 0) name o.arguments o.id o.at w).1

module _ (encode : Args → Text) (redis : Redis) (ns pool : Text) (samples : List SampleItem)
    (job_types : List JobType) (run : JobType → Job → Option Text) (clock draws : ℕ → ℕ) where
  -- The job that was fetched is processed before the next fetch.
  abbrev pub attend :
      ℕ → (World → List Job × World) → Result (Option Job) × World → List Job × World
  attend n next (ok (some job), w) =
      let (jobs, v) =
        next (process_job encode redis ns pool job_types run (clock n) (draws n) job w).1 in
      (job ∷ jobs, v)
  attend n next (ok none, w) = ([], w)
  attend n next (err e, w) = ([], w)

  -- Up to n jobs, one after the other.
  unfoldable pub serve : ℕ → World → List Job × World
  serve zero w = ([], w)
  serve (suc n) w = attend n (serve n) (fetch encode redis ns pool samples w)

-- The job type's queue, which may run.
pub record Ready (ns pool name : Text) (queue : List Blob) (s : Store) : Type 0 where
  pub waiting : s.lists (Keys.jobs ns name) ≡ queue
  pub unpaused : s.strings (Keys.jobs_paused ns name) ≡ none
  pub room :
      HasRoom
        (some (or_0 (s.counters (Keys.jobs_lock ns name))))
        (s.counters (Keys.jobs_concurrency ns name))

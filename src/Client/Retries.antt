-- ===== src/Client/Retries.antt =====
-- client.go, RetryDeadJob and RetryAllDeadJobs: the names of the job types come from Queues, so that
-- a panic of Queues is one of theirs. The clock is read twice.
use work.Prelude.{ℕ, List, [], ◌∷◌, Option, none, some}
use work.Prelude.Int.{ℤ}
use work.Text.{Text}
use work.Job.{Blob}
use work.Redis.{Redis, Store, Key}
use work.Conn.{M, ◌>>=◌, pure}
use work.Client.{retry_dead_named, retry_all_named}
use work.Client.Queues.{Queue, queues}

unfoldable pub job_names : List Queue → List Text
job_names [] = []
job_names (q ∷ qs) = q.job_name ∷ job_names qs

-- `none` is a panic.
unfoldable pub with_names : (List Text → M (Unit {0})) → Option (List Queue) → M (Option (Unit {0}))
unfolding job_names
with_names f none = pure none
with_names f (some qs) = f (job_names qs) >>= (λ u. pure (some u))

module _ (redis : Redis) (ns : Text) (last_entry : Key → Store → Option Blob)
    (smembers : Key → Store → List Text) where
  unfoldable pub retry_dead_job : ℕ → ℕ → ℤ → Text → M (Option (Unit {0}))
  unfolding with_names retry_dead_named queues
  retry_dead_job asked now died_at id =
      queues redis ns last_entry smembers asked
      >>= with_names (λ names. retry_dead_named redis ns names now died_at id)

  unfoldable pub retry_all_dead_jobs : ℕ → ℕ → M (Option (Unit {0}))
  unfolding with_names retry_all_named queues
  retry_all_dead_jobs asked now =
      queues redis ns last_entry smembers asked
      >>= with_names (λ names. retry_all_named redis ns names now)

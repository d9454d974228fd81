-- ===== src/Enqueuer/Unique.antt =====
-- enqueue.go: the unique enqueues in their other forms, with no key map, or in so many seconds.
use work.Prelude.{ℕ, Option, none}
use work.Text.{Text}
use work.Job.{Args, Job}
use work.Redis.{Redis}
use work.Conn.{World}
use work.Enqueuer.{
  Enqueuer, ScheduledJob, Outcome, epoch_after_seconds, enqueue_unique_by_key,
  enqueue_unique_at_by_key,
}

module _ (encode : Args → Text) (redis : Redis) (e : Enqueuer) where
  unfoldable pub enqueue_unique : Text → Option Args → Text → ℕ → World → Outcome Job
  unfolding enqueue_unique_by_key
  enqueue_unique name args id now w = enqueue_unique_by_key encode redis e name args none id now w

  unfoldable pub enqueue_unique_at :
      Text → ℕ → Option Args → Text → ℕ → World → Outcome ScheduledJob
  unfolding enqueue_unique_at_by_key
  enqueue_unique_at name at args id now w =
      enqueue_unique_at_by_key encode redis e name at args none id now w

  unfoldable pub enqueue_unique_in_by_key :
      Text → ℕ → Option Args → Option Args → Text → ℕ → ℕ → World → Outcome ScheduledJob
  unfolding enqueue_unique_at_by_key epoch_after_seconds
  enqueue_unique_in_by_key name secs args key_map id now nanos w =
      enqueue_unique_at_by_key encode redis e name (epoch_after_seconds now nanos secs) args key_map
        id now w

  unfoldable pub enqueue_unique_in :
      Text → ℕ → Option Args → Text → ℕ → ℕ → World → Outcome ScheduledJob
  unfolding enqueue_unique_in_by_key
  enqueue_unique_in name secs args id now nanos w =
      enqueue_unique_in_by_key name secs args none id now nanos w

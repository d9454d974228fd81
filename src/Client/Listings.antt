-- ===== src/Client/Listings.antt =====
-- client.go, ScheduledJobs, RetryJobs and DeadJobs: a page of one of the sorted sets, and its length.
-- `entries` is ZRANGEBYSCORE over the whole set.
use work.Prelude.{ℕ, List, map}
use work.Text.{Text}
use work.Job.{Job}
use work.Keys
use work.Redis.{Redis, Store, Key, ZSet}
use work.Conn.{M, ◌>>=◌, pure}
use work.Enqueuer.{ScheduledJob}
use work.Client.{JobScore, get_zset_page}

pub record RetryJob : Type 0 where
  pub retry_at : ℕ
  pub job : Job

pub record DeadJob : Type 0 where
  pub died_at : ℕ
  pub job : Job

abbrev pub counted : {J : Type 0} → (JobScore → J) → List JobScore × ℕ → M (List J × ℕ)
counted f (jobs, count) = pure (map f jobs, count)

module _ (redis : Redis) (ns : Text) (entries : Key → Store → ZSet) where
  unfoldable pub scheduled_jobs : ℕ → M (List ScheduledJob × ℕ)
  unfolding get_zset_page
  scheduled_jobs page =
      get_zset_page redis entries (Keys.scheduled ns) page
      >>= counted (λ j. record { run_at = j.score; job = j.job })

  unfoldable pub retry_jobs : ℕ → M (List RetryJob × ℕ)
  unfolding get_zset_page
  retry_jobs page =
      get_zset_page redis entries (Keys.retry ns) page
      >>= counted (λ j. record { retry_at = j.score; job = j.job })

  unfoldable pub dead_jobs : ℕ → M (List DeadJob × ℕ)
  unfolding get_zset_page
  dead_jobs page =
      get_zset_page redis entries (Keys.dead ns) page
      >>= counted (λ j. record { died_at = j.score; job = j.job })

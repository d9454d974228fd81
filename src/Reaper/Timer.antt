-- ===== src/Reaper/Timer.antt =====
-- dead_pool_reaper.go, newDeadPoolReaper and loop: when the reaper reaps. A tick of the timer comes with
-- the clock and what rand.IntN(30) gives; times are in seconds. An error of reap is only logged.
use work.Prelude.{ℕ, ◌+◌, ◌*◌, List, [], ◌∷◌}
use work.Text.{Text}
use work.Redis.{Redis, Store, Key}
use work.Conn.{Result, World}
use work.Reaper.Pools.{reap}

abbrev pub dead_time_seconds : ℕ
dead_time_seconds = 10

abbrev pub reap_period_seconds : ℕ
reap_period_seconds = 10 * 60

-- With the seconds to the timer's next tick.
pub record DeadPoolReaper : Type 0 where
  pub namespace : Text
  pub dead_time : ℕ
  pub reap_period : ℕ
  pub cur_job_types : List Text
  pub timer : ℕ

unfoldable pub new_dead_pool_reaper : Text → List Text → DeadPoolReaper
new_dead_pool_reaper namespace cur_job_types = record {
  namespace = namespace;
  dead_time = dead_time_seconds;
  reap_period = reap_period_seconds;
  cur_job_types = cur_job_types;
  timer = dead_time_seconds;
}

pub record Tick : Type 0 where
  pub now : ℕ
  pub jitter : ℕ

abbrev regardless : Result (Unit {0}) × World → World
regardless r = r.1

module _ (redis : Redis) (smembers : Key → Store → List Text) (fuel : ℕ) where
  unfoldable pub reaper_turn : Tick → DeadPoolReaper → World → DeadPoolReaper × World
  unfolding reap
  reaper_turn t r w = (
    record r { timer = r.reap_period + t.jitter },
    regardless (reap redis r.namespace smembers fuel r.dead_time t.now r.cur_job_types w),
  )

  -- The ticks until it is stopped.
  unfoldable pub reaper_turns : List Tick → DeadPoolReaper → World → DeadPoolReaper × World
  unfolding reaper_turn
  reaper_turns [] r w = (r, w)
  reaper_turns (t ∷ ts) r w = let (q, v) = reaper_turn t r w in reaper_turns ts q v

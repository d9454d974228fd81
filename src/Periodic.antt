-- ===== src/Periodic.antt =====
-- periodic_enqueuer.go: the jobs with a schedule are put into the scheduled set some minutes ahead.
-- cron.Schedule is a parameter, its Next as a function on seconds; so is the clock. The loop over the
-- occurrences runs on fuel.
pub mod Horizon
pub mod Again
use work.Prelude.{
  ℕ, zero, suc, ◌+◌, ltb, Bool, true, false, List, [], ◌∷◌, ◌++◌, Option, none, some, if◌then◌else◌,
}
use work.Prelude.Int.{ℤ, pos, negsuc, ◌+ℤ◌, ltb_ℤ}
use work.Text.{Text, text}
use work.Text.Decimal.{format}
use work.Job.{Job, serialize}
use work.Keys
use work.Redis.{Redis, Store}
use work.Conn.{World, Result, ok, err, out_of_fuel, M, ◌>>=◌, ◌>>◌, pure, fail, call, command}
use work.Enqueuer.{new_job_of}

pub record PeriodicJob : Type 0 where
  pub job_name : Text
  pub spec : Text
  pub schedule : ℕ → ℕ

-- periodicEnqueuerSleep in minutes, and periodicEnqueuerHorizon in seconds.
abbrev pub sleep_minutes : ℕ
sleep_minutes = 2

abbrev pub horizon_seconds : ℕ
horizon_seconds = 240

unfoldable pub make_unique_periodic_id : Text → Text → ℕ → Text
make_unique_periodic_id name spec epoch =
    text "periodic:" ++ name ++ text ":" ++ spec ++ text ":" ++ format epoch

unfoldable pub periodic_job : PeriodicJob → ℕ → Job
unfolding new_job_of
periodic_job pj epoch =
    new_job_of pj.job_name (make_unique_periodic_id pj.job_name pj.spec epoch) epoch none

module _ (redis : Redis) (ns : Text) where
  open redis use {get_int, set_int, zadd}

  unfoldable pub add_occurrence : PeriodicJob → ℕ → Store → Store
  add_occurrence pj epoch = zadd (Keys.scheduled ns) epoch (serialize (periodic_job pj epoch))

  -- The inner loop, from the occurrence t on.
  unfoldable pub enqueue_occurrences : ℕ → PeriodicJob → ℕ → ℕ → M (Unit {0})
  unfolding add_occurrence
  enqueue_occurrences zero pj horizon t = fail out_of_fuel
  enqueue_occurrences (suc fuel) pj horizon t =
      let rest = enqueue_occurrences fuel pj horizon (pj.schedule t) in
      if ltb t horizon then command (add_occurrence pj t) >> rest else pure tt

  unfoldable pub enqueue_jobs : ℕ → ℕ → List PeriodicJob → M (Unit {0})
  unfolding enqueue_occurrences
  enqueue_jobs fuel now [] = pure tt
  enqueue_jobs fuel now (pj ∷ pjs) =
      enqueue_occurrences fuel pj (now + horizon_seconds) (pj.schedule now)
      >> enqueue_jobs fuel now pjs

  unfoldable pub enqueue : ℕ → ℕ → List PeriodicJob → M (Unit {0})
  unfolding enqueue_jobs
  enqueue fuel now pjs =
      enqueue_jobs fuel now pjs >> command (set_int (Keys.last_periodic_enqueue ns) (pos now))

  -- No time, or an error, which is logged.
  abbrev pub is_due : ℕ → Result (Option ℤ) × World → Bool × World
  is_due now (err x, w) = (true, w)
  is_due now (ok none, w) = (true, w)
  is_due now (ok (some last), w) = (ltb_ℤ last (pos now +ℤ negsuc 1), w)

  -- time.Minute divides the sleep: what is subtracted is the number of its minutes.
  unfoldable pub should_enqueue : ℕ → World → Bool × World
  should_enqueue now w = is_due now (call (λ s. (get_int (Keys.last_periodic_enqueue ns) s, s)) w)

  abbrev pub regardless : Result (Unit {0}) × World → World
  regardless r = r.1

  abbrev pub if_due : Bool × World → (World → World) → World
  if_due (due, w) run = if due then run w else w

  -- A turn of the loop: an error is logged.
  unfoldable pub turn : ℕ → ℕ → ℕ → List PeriodicJob → World → World
  unfolding should_enqueue enqueue
  turn fuel now now' pjs w =
      if_due (should_enqueue now w) (λ v. regardless (enqueue fuel now' pjs v))

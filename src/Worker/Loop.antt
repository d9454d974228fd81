-- ===== src/Worker/Loop.antt =====
-- worker.go, newWorker and loop: a turn of the loop for each message or tick of the timer, in the
-- order in which select takes them. The counter of turns without a job is a number without bound.
pub mod Running
pub mod Quiet
pub mod Served
pub mod Ticks
pub mod Drain
use work.Prelude.{
  ℕ, zero, suc, ◌+◌, ◌-◌, leb, Bool, true, false, List, [], ◌∷◌, Option, none, some, length,
  get_elem?, if◌then◌else◌,
}
use work.Text.{Text}
use work.Job.{Args, Job}
use work.Redis.{Redis}
use work.Conn.{World, Result, ok, err}
use work.Sampler.{PrioritySampler, sample}
use work.Worker.{JobType, process_job, fetch}

-- stopChan, drainChan, and the timer.
pub data Signal : Type 0 where
  stop drain tick : Signal

-- What the loop keeps, the milliseconds to the timer's next tick, how often it has sent on
-- doneDrainingChan, and whether it has returned.
pub record LoopState : Type 0 where
  pub sampler : PrioritySampler
  pub drained : Bool
  pub no_jobs : ℕ
  pub timer : ℕ
  pub drains_done : ℕ
  pub stopped : Bool

abbrev pub sleep_backoffs_in_milliseconds : List ℕ
sleep_backoffs_in_milliseconds = 0 ∷ 10 ∷ 100 ∷ 1000 ∷ 5000 ∷ []

-- newWorker: an empty list stands for the default one.
unfoldable pub sleep_backoffs_of : List ℕ → List ℕ
sleep_backoffs_of [] = sleep_backoffs_in_milliseconds
sleep_backoffs_of (t ∷ ts) = t ∷ ts

unfoldable pub new_loop_state : PrioritySampler → LoopState
new_loop_state sampler = record {
  sampler = sampler;
  drained = false;
  no_jobs = 0;
  timer = 0;
  drains_done = 0;
  stopped = false;
}

abbrev pub backoff_index : ℕ → ℕ → ℕ
backoff_index count n = if leb count n then count - 1 else n

-- No job was found; `none` is the panic of an index out of range.
abbrev pub reset_timer : LoopState → Option ℕ → Option LoopState
reset_timer s none = none
reset_timer s (some t) = some (record s { timer = t })

abbrev pub acknowledged : LoopState → LoopState
acknowledged s =
    if s.drained then record s { drained = false; drains_done = suc s.drains_done } else s

unfoldable pub idle_turn : List ℕ → LoopState → Option LoopState
idle_turn backoffs s =
    let n = suc s.no_jobs in
    reset_timer (record (acknowledged s) { no_jobs = n })
      (get_elem? backoffs (backoff_index (length backoffs) n))

-- A turn with its random numbers and times.
pub record Moment : Type 0 where
  pub signal : Signal
  pub rand : ℕ → ℕ
  pub now : ℕ
  pub draw : ℕ

abbrev pub go_on :
    Option LoopState × World
    → (LoopState → World → Option LoopState × World)
    → Option LoopState × World
go_on (none, w) later = (none, w)
go_on (some s, w) later = if s.stopped then (some s, w) else later s w

module _ (encode : Args → Text) (redis : Redis) (namespace pool_id : Text)
    (job_types : List JobType) (backoffs : List ℕ) (run : JobType → Job → Option Text) where
  -- `now` and `draw` are for the processing of the job.
  unfoldable pub after_fetch :
      ℕ → ℕ → LoopState → Result (Option Job) × World → Option LoopState × World
  unfolding process_job idle_turn
  after_fetch now draw s (err x, w) = (some (record s { timer = 10 }), w)
  after_fetch now draw s (ok (some job), w) = (
    some (record s { no_jobs = 0; timer = 0 }),
    (process_job encode redis namespace pool_id job_types run now draw job w).1,
  )
  after_fetch now draw s (ok none, w) = (idle_turn backoffs s, w)

  -- `none` is a panic of the sampler.
  abbrev pub after_sample :
      ℕ → ℕ → LoopState → Option PrioritySampler → World → Option LoopState × World
  after_sample now draw s none w = (none, w)
  after_sample now draw s (some sampler) w =
      after_fetch now draw (record s { sampler = sampler })
        (fetch encode redis namespace pool_id sampler.samples w)

  unfoldable pub turn : (ℕ → ℕ) → ℕ → ℕ → Signal → LoopState → World → Option LoopState × World
  unfolding after_fetch sample
  turn rand now draw stop s w = (some (record s { stopped = true }), w)
  turn rand now draw drain s w = (some (record s { drained = true; timer = 0 }), w)
  turn rand now draw tick s w = after_sample now draw s (sample rand s.sampler) w

  -- The turns up to the first stop.
  unfoldable pub turns : List Moment → LoopState → World → Option LoopState × World
  unfolding turn
  turns [] s w = (some s, w)
  turns (m ∷ ms) s w = go_on (turn m.rand m.now m.draw m.signal s w) (turns ms)

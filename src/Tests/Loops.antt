-- ===== src/Tests/Loops.antt =====
-- Examples of the worker's loop.
use mathlib.Core.List.{Mem, eq-or-mem_of_mem-cons, not-mem-nil}
use mathlib.Core.Logic.Or
use mathlib.Core.HLevel.{⊥_prop}
use work.Prelude.{
  ℕ, suc, ◌≤◌, ◌<◌, ◌≡◌, ◌≢◌, refl, sym, ap, ◌∙◌, arith, true, List, [], ◌∷◌, All, take, Option,
  none, some, inl,
}
use work.Text.{Text, Text-discrete, text}
use work.Job.{Job, serialize}
use work.Keys
use work.Redis.{Key, update}
use work.Conn.{World}
use work.Sampler.{PrioritySampler, SampleItem}
use work.Sampler.Rounds.{IsValid}
use work.Worker.{JobType, keys_of}
use work.Worker.Loop.{LoopState, Moment, tick, turns, sleep_backoffs_of, new_loop_state}
use work.Worker.Loop.Quiet.{waiting}
use work.Worker.Loop.Ticks.{IsDone, Serves}
use work.Worker.Loop.Running.{IsRunning, turns-IsRunning}
use work.Worker.Loop.Drain.{turns-drain}
use work.Tests.{redis, redis-IsDocumented, encode, empty_store, world_on, mail}

abbrev item : SampleItem
item = record { priority = 1; payload = keys_of (text "n") (text "p") (text "m") }

abbrev sampler : PrioritySampler
sampler = record { sum = 1; samples = item ∷ [] }

sampler-IsValid : IsValid sampler
sampler-IsValid = record { summed = refl; small = omega arith; positive = (omega arith, tt) }

abbrev moment : Moment
moment = record { signal = tick; rand = λ n. 0; now = 7; draw = 0 }

abbrev run : JobType → Job → Option Text
run jt job = none

-- One job waits.
abbrev one_waits : World
one_waits = world_on (record empty_store {
  lists = update (λ k. []) (Keys.jobs (text "n") (text "m")) (serialize mail ∷ []);
})

abbrev start : LoopState
start = record (new_loop_state sampler) { drained = true }

abbrev backoffs : List ℕ
backoffs = []

backoffs-short : All (λ t. t ≤ 5000) (sleep_backoffs_of backoffs)
unfolding sleep_backoffs_of
backoffs-short = (omega arith, (omega arith, (omega arith, (omega arith, (omega arith, tt)))))

turns-IsRunning_example :
    let r =
      turns encode redis
        (text "n")
        (text "p")
        []
        (sleep_backoffs_of backoffs)
        run
        (moment ∷ moment ∷ [])
        start
        one_waits in
    (t : LoopState) × (r.0 ≡ some t) × IsRunning 5000 t
unfolding new_loop_state
turns-IsRunning_example =
    turns-IsRunning encode redis (text "n") (text "p") [] backoffs run 5000 (moment ∷ moment ∷ [])
      start one_waits backoffs-short (omega arith)
      (record { valid = sampler-IsValid; soon = omega arith })

abbrev queues : List Key
queues = Keys.jobs (text "n") (text "m") ∷ []

-- The one sample.
only_item : (x : SampleItem) → Mem x (item ∷ []) → ¬ ¬ (x ≡ item)
only_item x m ne = Or.elim ⊥_prop (eq-or-mem_of_mem-cons m) ne not-mem-nil

in_progress_ne :
    Keys.jobs_in_progress (text "n") (text "p") (text "m") ≢ Keys.jobs (text "n") (text "m")
unfolding Keys.jobs_in_progress Keys.jobs Keys.jobs_prefix Keys.namespace_prefix
in_progress_ne e = absurd (cc)

two_ticks : waiting queues one_waits.store < 2
unfolding Text-discrete Keys.jobs Keys.jobs_prefix Keys.namespace_prefix
two_ticks = omega arith

served : item.payload.job_queue ≡ Keys.jobs (text "n") (text "m")
unfolding keys_of
served = refl

progress : item.payload.in_prog_queue ≡ Keys.jobs_in_progress (text "n") (text "p") (text "m")
unfolding keys_of
progress = refl

start-Serves : Serves queues start
unfolding new_loop_state
start-Serves x m = (inl queue, ((λ e. absurd (apart e)), tt))
  where
    queue : x.payload.job_queue ≡ Keys.jobs (text "n") (text "m")
    queue = elim (Text-discrete x.payload.job_queue (Keys.jobs (text "n") (text "m"))) [
      | yes e ↦ e
      | no ne ↦
          absurd (only_item x m (λ e. ne (ap (λ (y : SampleItem). y.payload.job_queue) e ∙ served)))
    ]

    apart : x.payload.in_prog_queue ≢ Keys.jobs (text "n") (text "m")
    apart e = only_item x m (λ same.
        in_progress_ne
          (sym progress ∙ ap (λ (y : SampleItem). y.payload.in_prog_queue) (sym same) ∙ e))

turns-drain_example :
    (n : ℕ) × (n ≤ suc (waiting queues one_waits.store))
    × (t : LoopState) × ((turns encode redis
          (text "n")
          (text "p")
          []
          (sleep_backoffs_of backoffs)
          run
          (take n (moment ∷ moment ∷ []))
          start
          one_waits).0
        ≡ some t)
    × IsDone start t
unfolding new_loop_state
turns-drain_example =
    turns-drain encode redis redis-IsDocumented (text "n") (text "p") [] backoffs run queues
      (moment ∷ moment ∷ []) start one_waits (refl, (refl, tt))
      (record {
        valid = sampler-IsValid;
        serves = start-Serves;
        draining = refl;
        live = refl;
        calm = refl;
      })
      two_ticks

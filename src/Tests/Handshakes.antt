-- ===== src/Tests/Handshakes.antt =====
-- Examples of callers of a worker's stop and drain.
use work.Prelude.{◌≡◌, ◌+◌, refl, arith, true, [], ◌∷◌, Option, none, some}
use work.Text.{Text, text}
use work.Job.{Job}
use work.Conn.{World}
use work.Sampler.{PrioritySampler, SampleItem}
use work.Sampler.Rounds.{IsValid}
use work.Redis.{documented}
use work.Scripts.Fetch.{fetch_job}
use work.Worker.{JobType, keys_of, fetch}
use work.Worker.Loop.{LoopState, Moment, tick, sleep_backoffs_of, new_loop_state, turn}
use work.Worker.Handshake.{
  System, start, turn_at, Step, call_stop, call_drain, take_stop, take_drain, take_tick,
  answer_stop, Reach, here, next,
}
use work.Worker.Handshake.Progress.{take_tick-start}
use work.Worker.Handshake.Ended.{IsLeft, Reach-append, start-IsLeft}
use work.Worker.Handshake.Overlap.{IsUnheard, Reach-IsUnheard}
use work.Tests.{redis, encode, empty_store, world_on}

abbrev item : SampleItem
item = record { priority = 1; payload = keys_of (text "n") (text "p") (text "m") }

abbrev sampler : PrioritySampler
sampler = record { sum = 1; samples = item ∷ [] }

sampler-IsValid : IsValid sampler
sampler-IsValid = record { summed = refl; small = omega arith; positive = (omega arith, tt) }

abbrev moment : Moment
moment = record { signal = tick; rand = λ n. 0; now = 7; draw = 0 }

abbrev run : JobType → Job → Option Text
run jt job = none

abbrev no_jobs : World
no_jobs = world_on empty_store

abbrev Steps : System → System → Type 0
Steps s t = Reach encode redis (text "n") (text "p") [] (sleep_backoffs_of []) run s t

abbrev first : System
first = start sampler no_jobs

abbrev noted : LoopState
noted = record (new_loop_state sampler) { drained = true }

-- Two callers of drain, one of them noted.
abbrev one_noted : System
one_noted = record first { state = noted; calling_drain = 1; awaiting_drain = 1 }

-- Both noted.
abbrev two_noted : System
two_noted = record first { state = noted; awaiting_drain = 2 }

two_noted-reached : Steps first two_noted
unfolding start new_loop_state turn
two_noted-reached =
    next
      (next (next (next here (call_drain refl)) (call_drain refl))
        (take_drain moment 1 noted no_jobs refl refl refl refl))
      (take_drain moment 0 noted no_jobs refl refl refl refl)

take_tick-start_example :
    (t : System) × Step encode redis (text "n") (text "p") [] (sleep_backoffs_of []) run two_noted t
    × (turn_at encode redis
          (text "n")
          (text "p")
          []
          (sleep_backoffs_of [])
          run
          moment
          tick
          two_noted
        ≡ (some t.state, t.world))
unfolding new_loop_state
take_tick-start_example =
    take_tick-start encode redis (text "n") (text "p") [] [] run sampler no_jobs two_noted moment
      sampler-IsValid two_noted-reached refl

-- The drain of the two is acknowledged.
abbrev rests : LoopState
rests = record (new_loop_state sampler) { no_jobs = 1; timer = 10; drains_done = 1 }

abbrev one_left : System
one_left = record first { state = rests; awaiting_drain = 1 }

two_noted-acknowledged : Steps two_noted one_left
unfolding start new_loop_state turn sleep_backoffs_of fetch fetch_job documented
two_noted-acknowledged = next here (take_tick moment 1 rests no_jobs refl refl refl refl)

abbrev stopped : LoopState
stopped = record rests { stopped = true }

abbrev stopping : System
stopping = record one_left { state = stopped; awaiting_stop = 1 }

one_left-stopping : Steps one_left stopping
unfolding start new_loop_state turn
one_left-stopping =
    next (next here (call_stop refl)) (take_stop moment 0 stopped no_jobs refl refl refl refl)

Reach-IsUnheard_example :
    IsUnheard stopping
    × (stopping.awaiting_drain ≡ one_left.awaiting_drain)
    × (stopping.state.drains_done ≡ one_left.state.drains_done)
unfolding start new_loop_state
Reach-IsUnheard_example =
    Reach-IsUnheard encode redis (text "n") (text "p") [] (sleep_backoffs_of []) run one_left
      stopping (record { flag = refl; none_calling = refl }) one_left-stopping refl

abbrev ended : System
ended = record stopping { awaiting_stop = 0; stops_done = 1 }

stopping-ended : Steps stopping ended
unfolding start new_loop_state
stopping-ended = next here (answer_stop 0 refl refl refl)

abbrev append : {s t u : System} → Steps s t → Steps t u → Steps s u
append = Reach-append encode redis (text "n") (text "p") [] (sleep_backoffs_of []) run

first-stopping : Steps first stopping
first-stopping = append (append two_noted-reached two_noted-acknowledged) one_left-stopping

start-IsLeft_example : IsLeft stopping ended × (ended.awaiting_stop + ended.stops_done ≡ 1)
unfolding start new_loop_state
start-IsLeft_example =
    start-IsLeft encode redis (text "n") (text "p") [] (sleep_backoffs_of []) run sampler no_jobs
      stopping ended first-stopping refl stopping-ended

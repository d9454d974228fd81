-- ===== src/Worker/Handshake.antt =====
-- worker.go: the channels between a worker's loop and the goroutines that call its stop and its drain.
-- None has a buffer, so a send and its receipt are one step; the steps come in any order.
pub mod Counted
pub mod Progress
pub mod Ended
pub mod Overlap
use work.Prelude.{ℕ, suc, ◌+◌, ◌≡◌, Bool, true, false, List, Option, some}
use work.Text.{Text}
use work.Job.{Args, Job}
use work.Redis.{Redis}
use work.Conn.{World}
use work.Sampler.{PrioritySampler}
use work.Worker.{JobType}
use work.Worker.Loop.{Signal, stop, drain, tick, LoopState, new_loop_state, Moment, turn}

-- The callers of stop before their send on stopChan, between that and their receipt from
-- doneStoppingChan, and after it; and the callers of drain before their send on drainChan, and between
-- that and their receipt from doneDrainingChan. The loop counts the latter's receipts.
pub record System : Type 0 where
  pub state : LoopState
  pub world : World
  pub calling_stop : ℕ
  pub awaiting_stop : ℕ
  pub stops_done : ℕ
  pub calling_drain : ℕ
  pub awaiting_drain : ℕ

unfoldable pub start : PrioritySampler → World → System
unfolding new_loop_state
start sampler w = record {
  state = new_loop_state sampler;
  world = w;
  calling_stop = 0;
  awaiting_stop = 0;
  stops_done = 0;
  calling_drain = 0;
  awaiting_drain = 0;
}

-- After the turn to l, which may have sent on doneDrainingChan: a callers still await that.
abbrev pub Received : System → LoopState → ℕ → Type 0
Received s l a = a + l.drains_done ≡ s.awaiting_drain + s.state.drains_done

module _ (encode : Args → Text) (redis : Redis) (namespace pool_id : Text)
    (job_types : List JobType) (backoffs : List ℕ) (run : JobType → Job → Option Text) where
  abbrev pub turn_at : Moment → Signal → System → Option LoopState × World
  turn_at m signal s =
      turn encode redis namespace pool_id job_types backoffs run m.rand m.now m.draw signal s.state
        s.world

  pub data Step (s t : System) : Type 0 where
    call_stop : t ≡ record s { calling_stop = suc s.calling_stop } → Step s t
    call_drain : t ≡ record s { calling_drain = suc s.calling_drain } → Step s t
    take_stop :
        (m : Moment) (n : ℕ) (l : LoopState) (v : World)
        → s.state.stopped ≡ false
        → s.calling_stop ≡ suc n
        → turn_at m stop s ≡ (some l, v)
        → t
          ≡ record s { state = l; world = v; calling_stop = n; awaiting_stop = suc s.awaiting_stop }
        → Step s t
    answer_stop :
        (n : ℕ)
        → s.state.stopped ≡ true
        → s.awaiting_stop ≡ suc n
        → t ≡ record s { awaiting_stop = n; stops_done = suc s.stops_done }
        → Step s t
    take_drain :
        (m : Moment) (n : ℕ) (l : LoopState) (v : World)
        → s.state.stopped ≡ false
        → s.calling_drain ≡ suc n
        → turn_at m drain s ≡ (some l, v)
        → t ≡ record s {
          state = l;
          world = v;
          calling_drain = n;
          awaiting_drain = suc s.awaiting_drain;
        }
        → Step s t
    take_tick :
        (m : Moment) (a : ℕ) (l : LoopState) (v : World)
        → s.state.stopped ≡ false
        → turn_at m tick s ≡ (some l, v)
        → Received s l a
        → t ≡ record s { state = l; world = v; awaiting_drain = a }
        → Step s t
    -- Other programs, and what Redis does, change the world.
    others : (v : World) → t ≡ record s { world = v } → Step s t

  pub data Reach (s : System) : System → Type 0 where
    here : Reach s s
    next : {t u : System} → Reach s t → Step t u → Reach s u

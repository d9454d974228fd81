-- ===== src/Worker/Loop/Drain.antt =====
-- A worker that is draining, over the ticks of its timer.
use work.Prelude.{
  ℕ, zero, suc, ◌≤◌, ◌<◌, ◌≡◌, refl, sym, subst, ap, ◌∙◌, arith, Bool, true, false, inl, inr, List,
  [], ◌∷◌, All, Option, none, some, if◌then◌else◌, length, take,
}
use work.Text.{Text}
use work.Job.{Args, Job, Blob}
use work.Redis.{Redis, Key, documented, IsDocumented, of_documented}
use work.Conn.{World}
use work.Worker.{JobType}
use work.Worker.Loop.{tick, LoopState, sleep_backoffs_of, turn, Moment, go_on, turns}
use work.Worker.Loop.Quiet.{waiting}
use work.Worker.Loop.Ticks.{IsDraining, IsDone, Progress, tick-Progress}

module _ (encode : Args → Text) (before : Blob → Blob → Bool) (cjson : Option Args → Option Args)
    (ns pool : Text) (jts : List JobType) (given : List ℕ) (run : JobType → Job → Option Text)
    (qs : List Key) where
  -- The first n ticks of `ms` bring the acknowledgement.
  abbrev Acknowledges : ℕ → List Moment → LoopState → World → Type 0
  Acknowledges most ms s w =
      (n : ℕ) × (n ≤ most)
      × (t : LoopState) × ((turns encode (documented before cjson) ns pool jts
            (sleep_backoffs_of given) run (take n ms) s w).0
          ≡ some t)
      × IsDone s t

  go_on-live :
      (r : Option LoopState × World) (t : LoopState)
      (later : LoopState → World → Option LoopState × World)
      → r.0 ≡ some t
      → t.stopped ≡ false
      → go_on r later ≡ later t r.1
  go_on-live (none, w) t later e live = absurd (cc)
  go_on-live (some s, w) t later e live =
      let same : t ≡ s = cc in
      subst (λ u. go_on (some u, w) later ≡ later t w) same (unless t.stopped live)
    where
      unless : (b : Bool) → b ≡ false → (if b then (some t, w) else later t w) ≡ later t w
      unless true e = absurd (cc)
      unless false e = refl

  go_on-last : (r : Option LoopState × World) → (go_on r (λ s w. (some s, w))).0 ≡ r.0
  go_on-last (none, w) = refl
  go_on-last (some s, w) = same_either s.stopped (some s, w)
    where
      same_either : (b : Bool) (r : Option LoopState × World) → (if b then r else r).0 ≡ r.0
      same_either true r = refl
      same_either false r = refl

  turn_of : Moment → LoopState → World → Option LoopState × World
  turn_of m =
      turn encode (documented before cjson) ns pool jts (sleep_backoffs_of given) run m.rand m.now
        m.draw m.signal

  drain-step :
      (most : ℕ) (m : Moment) (ms : List Moment) (s : LoopState) (w : World)
      → Progress qs s w (turn_of m s w)
      → ((t : LoopState)
          → IsDraining qs t (turn_of m s w).1
          → waiting qs (turn_of m s w).1.store < waiting qs w.store
          → Acknowledges most ms t (turn_of m s w).1)
      → Acknowledges (suc most) (m ∷ ms) s w
  unfolding turns turn_of
  drain-step most m ms s w (t, e, inl done) later =
      (1, omega arith, t, go_on-last (turn_of m s w) ∙ e, done)
  drain-step most m ms s w (t, e, inr (h, same, less)) later =
      let (n, few, u, ends, done) = later t h less in
      (
        suc n,
        omega (arith, few),
        u,
        ap (λ r. r.0)
              (go_on-live (turn_of m s w) t
                (turns encode (documented before cjson) ns pool jts (sleep_backoffs_of given) run
                  (take n ms))
                e h.live)
            ∙ ends,
        (done.0 ∙ ap suc same, done.1),
      )

  drain-on :
      (most : ℕ) (ms : List Moment) (s : LoopState) (w : World)
      → All (λ (m : Moment). m.signal ≡ tick) ms
      → IsDraining qs s w
      → waiting qs w.store < most
      → most ≤ length ms
      → Acknowledges most ms s w
  unfolding turn_of
  drain-on most [] s w ticks h enough long = absurd (omega arith)
  drain-on zero (m ∷ ms) s w ticks h enough long = absurd (omega arith)
  drain-on (suc most) (m ∷ ms) s w ticks h enough long =
      drain-step most m ms s w
        (subst
          (λ g. Progress qs s w (
            turn encode (documented before cjson) ns pool jts (sleep_backoffs_of given) run m.rand
              m.now m.draw g s w))
          (sym ticks.0)
          (tick-Progress encode before cjson ns pool jts given run qs m.rand m.now m.draw s w h))
        (λ t h' less. drain-on most ms t _ ticks.1 h' (omega arith) (omega arith))

-- A worker that is draining acknowledges the drain, exactly once and without a panic, within one tick
-- of its timer more than there are jobs waiting on its queues, while Redis answers, nobody pushes
-- and no message comes: whatever its sleep backoffs, its handlers and the random numbers. Its sampler
-- is valid, the queues of its job types are among `qs`, and none of these is an in-progress queue.
pub turns-drain :
    (encode : Args → Text) (redis : Redis)
    → IsDocumented redis
    → (ns pool : Text) (jts : List JobType) (given : List ℕ) (run : JobType → Job → Option Text)
      (qs : List Key) (ms : List Moment) (s : LoopState) (w : World)
    → All (λ (m : Moment). m.signal ≡ tick) ms
    → IsDraining qs s w
    → waiting qs w.store < length ms
    → (n : ℕ) × (n ≤ suc (waiting qs w.store))
      × (t : LoopState) × ((turns encode redis ns pool jts
            (sleep_backoffs_of given)
            run
            (take n ms)
            s
            w).0
          ≡ some t)
      × IsDone s t
turns-drain encode redis doc ns pool jts given run qs ms s w ticks h enough =
    of_documented
      (λ redis.
        (n : ℕ) × (n ≤ suc (waiting qs w.store))
        × (t : LoopState) × ((turns encode redis ns pool jts (sleep_backoffs_of given) run
              (take n ms) s w).0
            ≡ some t)
        × IsDone s t)
      (λ before cjson.
        drain-on encode before cjson ns pool jts given run qs (suc (waiting qs w.store)) ms s w
          ticks h (omega arith) (omega arith))
      redis doc

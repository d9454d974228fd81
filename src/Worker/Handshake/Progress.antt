-- ===== src/Worker/Handshake/Progress.antt =====
-- worker.go, the channels of stop and drain: the loop is never held up.
use work.Prelude.{
  ℕ, ◌+◌, ◌-◌, ◌≤◌, ◌<◌, ◌≡◌, refl, sym, subst, ap, arith, inl, inr, true, false, List, [], ◌∷◌,
  All, Option, some,
}
use work.Text.{Text}
use work.Job.{Args, Job}
use work.Redis.{Redis}
use work.Conn.{World}
use work.Sampler.{PrioritySampler}
use work.Sampler.Rounds.{IsValid}
use work.Worker.{JobType}
use work.Worker.Loop.{
  Signal, stop, drain, tick, LoopState, new_loop_state, sleep_backoffs_of, Moment,
}
use work.Worker.Loop.Running.{IsRunning, turn-IsRunning}
use work.Worker.Handshake.{
  System, start, turn_at, Received, Step, call_stop, call_drain, take_stop, answer_stop, take_drain,
  take_tick, others, Reach, here, next,
}
use work.Worker.Handshake.Counted.{
  Acknowledges, tick-Acknowledges, start-IsCounted, Reach-IsCounted,
}

-- The tick's acknowledgement, if it sends one, finds a receiver.
receiver_of :
    (s : System) (l : LoopState)
    → (s.state.drained ≡ true → 0 < s.awaiting_drain)
    → Acknowledges s.state l
    → (a : ℕ) × Received s l a
receiver_of s l noted (_, inl (same, count)) = (s.awaiting_drain, omega arith)
receiver_of s l noted (_, inr (was, now, count)) =
    let waiting = noted was in (s.awaiting_drain - 1, omega arith)

same_state :
    (r : Option LoopState × World) (t l : LoopState) (v : World)
    → r.0 ≡ some t
    → r ≡ (some l, v)
    → t ≡ l
same_state r t l v f e = cc

module _ (encode : Args → Text) (redis : Redis) (namespace pool_id : Text)
    (job_types : List JobType) (given : List ℕ) (run : JobType → Job → Option Text) (most : ℕ)
    (short : All (λ t. t ≤ most) (sleep_backoffs_of given)) (ten : 10 ≤ most) where
  abbrev Runs : System → Type 0
  Runs s = IsRunning most s.state

  turned-IsRunning :
      (m : Moment) (signal : Signal) (s : System) (l : LoopState) (v : World)
      → turn_at encode redis namespace pool_id job_types (sleep_backoffs_of given) run m signal s
        ≡ (some l, v)
      → Runs s
      → IsRunning most l
  turned-IsRunning m signal s l v e h =
      let (t, f, g) =
        turn-IsRunning encode redis namespace pool_id job_types given run most short ten m.rand
          m.now m.draw signal s.state s.world h in
      subst (IsRunning most) (same_state _ t l v f e) g

  Step-Runs :
      {s t : System}
      → Step encode redis namespace pool_id job_types (sleep_backoffs_of given) run s t
      → Runs s
      → Runs t
  Step-Runs (call_stop e) h = subst Runs (sym e) h
  Step-Runs (call_drain e) h = subst Runs (sym e) h
  Step-Runs {s} (take_stop m n l v on calling turned e) h =
      subst Runs (sym e) (turned-IsRunning m stop s l v turned h)
  Step-Runs (answer_stop n off awaiting e) h = subst Runs (sym e) h
  Step-Runs {s} (take_drain m n l v on calling turned e) h =
      subst Runs (sym e) (turned-IsRunning m drain s l v turned h)
  Step-Runs {s} (take_tick m a l v on turned received e) h =
      subst Runs (sym e) (turned-IsRunning m tick s l v turned h)
  Step-Runs (others v e) h = subst Runs (sym e) h

  Reach-Runs :
      {s t : System}
      → Reach encode redis namespace pool_id job_types (sleep_backoffs_of given) run s t
      → Runs s
      → Runs t
  Reach-Runs here h = h
  Reach-Runs (next r step) h = Step-Runs step (Reach-Runs r h)

-- No smaller than 10 and the numbers of a list.
abbrev bound : List ℕ → ℕ
bound [] = 10
bound (x ∷ xs) = x + bound xs

bound-ten : (xs : List ℕ) → 10 ≤ bound xs
bound-ten [] = omega arith
bound-ten (x ∷ xs) = let rest = bound-ten xs in omega arith

All-weaken : (a b : ℕ) (xs : List ℕ) → a ≤ b → All (λ t. t ≤ a) xs → All (λ t. t ≤ b) xs
All-weaken a b [] le h = tt
All-weaken a b (x ∷ xs) le h = let first = h.0 in (omega arith, All-weaken a b xs le h.1)

bound-All : (xs : List ℕ) → All (λ t. t ≤ bound xs) xs
bound-All [] = tt
bound-All (x ∷ xs) =
    let rest = bound-ten xs in
    (omega arith, All-weaken (bound xs) (x + bound xs) xs (omega arith) (bound-All xs))

-- However the calls of stop and drain, the ticks and the changes of the world follow each other, a
-- worker's loop that has not taken a stop can take its next tick to the end: it does not panic, and if
-- it acknowledges a drain, a caller of drain awaits that. The sampler that the worker was built with is
-- valid.
pub take_tick-start :
    (encode : Args → Text) (redis : Redis) (namespace pool_id : Text) (job_types : List JobType)
    (given : List ℕ) (run : JobType → Job → Option Text) (sampler : PrioritySampler) (w : World)
    (s : System) (m : Moment)
    → IsValid sampler
    → Reach encode redis namespace pool_id job_types
        (sleep_backoffs_of given)
        run
        (start sampler w)
        s
    → s.state.stopped ≡ false
    → (t : System) × Step encode redis namespace pool_id job_types (sleep_backoffs_of given) run s t
      × (turn_at encode redis namespace pool_id job_types (sleep_backoffs_of given) run m tick s
          ≡ (some t.state, t.world))
unfolding start new_loop_state
take_tick-start encode redis namespace pool_id job_types given run sampler w s m valid reach on =
    let backoffs = sleep_backoffs_of given in
    let counted =
      Reach-IsCounted encode redis namespace pool_id job_types backoffs run reach
        (start-IsCounted sampler w) in
    let most = bound backoffs in
    let short = bound-All backoffs in
    let ten = bound-ten backoffs in
    let runs =
      Reach-Runs encode redis namespace pool_id job_types given run most short ten reach
        record { valid = valid; soon = omega arith } in
    let r = turn_at encode redis namespace pool_id job_types backoffs run m tick s in
    let (l, e, running) =
      turn-IsRunning encode redis namespace pool_id job_types given run most short ten m.rand m.now
        m.draw tick s.state s.world runs in
    let turned : r ≡ (some l, r.1) = ap (λ o. (o, r.1)) e in
    let (a, received) =
      receiver_of s l counted.noted (
        tick-Acknowledges encode redis namespace pool_id job_types backoffs run m s l r.1 turned) in
    (
      record s { state = l; world = r.1; awaiting_drain = a },
      take_tick m a l r.1 on turned received refl,
      turned,
    )

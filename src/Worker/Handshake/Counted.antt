-- ===== src/Worker/Handshake/Counted.antt =====
-- worker.go, the channels of stop and drain: what a tick does to the drains, and how often.
use work.Prelude.{
  ℕ, suc, ◌+◌, ◌<◌, ◌≡◌, refl, sym, subst, ap, ◌∙◌, arith, inl, inr, ◌⊎◌, Bool, Bool-cases, true,
  false, List, Option, none, some, length, get_elem?,
}
use work.Text.{Text}
use work.Job.{Args, Job}
use work.Redis.{Redis}
use work.Conn.{World, Result, ok, err}
use work.Sampler.{PrioritySampler, sample}
use work.Worker.{JobType}
use work.Worker.Loop.{
  stop, drain, tick, LoopState, new_loop_state, backoff_index, acknowledged, idle_turn, reset_timer,
  after_fetch, after_sample, Moment, turn,
}
use work.Worker.Handshake.{
  System, start, turn_at, Received, Step, call_stop, call_drain, take_stop, answer_stop, take_drain,
  take_tick, others, Reach, here, next,
}

-- A tick acknowledges a drain or it leaves the drains as they are.
abbrev pub Acknowledges : LoopState → LoopState → Type 0
Acknowledges s l =
    (l.stopped ≡ s.stopped)
    × (((l.drained ≡ s.drained) × (l.drains_done ≡ s.drains_done))
        ⊎ ((s.drained ≡ true) × (l.drained ≡ false) × (l.drains_done ≡ suc s.drains_done)))

abbrev Ticks : LoopState → Option LoopState → Type 0
Ticks s none = Unit {0}
Ticks s (some l) = Acknowledges s l

acknowledged-Acknowledges :
    (s : LoopState) (n ms : ℕ)
    → Acknowledges s (record (acknowledged s) { no_jobs = n; timer = ms })
acknowledged-Acknowledges s n ms = elim (Bool-cases s.drained) [
  | inl e ↦ (ground (arith, e), inr (e, ground (arith, e), ground (arith, e)))
  | inr e ↦ (ground (arith, e), inl (ground (arith, e), ground (arith, e)))
]

reset_timer-Ticks :
    (s : LoopState) (n : ℕ) (t : Option ℕ)
    → Ticks s (reset_timer (record (acknowledged s) { no_jobs = n }) t)
reset_timer-Ticks s n none = tt
reset_timer-Ticks s n (some ms) = acknowledged-Acknowledges s n ms

module _ (encode : Args → Text) (redis : Redis) (namespace pool_id : Text)
    (job_types : List JobType) (backoffs : List ℕ) (run : JobType → Job → Option Text) where
  after_fetch-Ticks :
      (now draw : ℕ) (s : LoopState) (r : Result (Option Job) × World)
      → Ticks s (after_fetch encode redis namespace pool_id job_types backoffs run now draw s r).0
  unfolding after_fetch idle_turn
  after_fetch-Ticks now draw s (err x, w) = (refl, inl (refl, refl))
  after_fetch-Ticks now draw s (ok (some job), w) = (refl, inl (refl, refl))
  after_fetch-Ticks now draw s (ok none, w) =
      reset_timer-Ticks s (suc s.no_jobs)
        (get_elem? backoffs (backoff_index (length backoffs) (suc s.no_jobs)))

  after_sample-Ticks :
      (now draw : ℕ) (s : LoopState) (o : Option PrioritySampler) (w : World)
      → Ticks s
          (after_sample encode redis namespace pool_id job_types backoffs run now draw s o w).0
  after_sample-Ticks now draw s none w = tt
  after_sample-Ticks now draw s (some sampler) w =
      subst (λ x. x) (same _) (after_fetch-Ticks now draw (record s { sampler = sampler }) _)
    where
      same : (o : Option LoopState) → Ticks (record s { sampler = sampler }) o ≡ Ticks s o
      same none = refl
      same (some l) = refl

  pub tick-Acknowledges :
      (m : Moment) (s : System) (l : LoopState) (v : World)
      → turn_at encode redis namespace pool_id job_types backoffs run m tick s ≡ (some l, v)
      → Acknowledges s.state l
  unfolding turn
  tick-Acknowledges m s l v e =
      subst (λ (r : Option LoopState × World). Ticks s.state r.0) e
        (after_sample-Ticks m.now m.draw s.state (sample m.rand s.state.sampler) s.world)

  -- A stop or a drain is noted, and nothing else changes but the timer.
  pub stop-noted :
      (m : Moment) (s : System) (l : LoopState) (v : World)
      → turn_at encode redis namespace pool_id job_types backoffs run m stop s ≡ (some l, v)
      → (l ≡ record s.state { stopped = true }) × (v ≡ s.world)
  unfolding turn
  stop-noted m s l v e = (cc, cc)

  pub drain-noted :
      (m : Moment) (s : System) (l : LoopState) (v : World)
      → turn_at encode redis namespace pool_id job_types backoffs run m drain s ≡ (some l, v)
      → (l ≡ record s.state { drained = true; timer = 0 }) × (v ≡ s.world)
  unfolding turn
  drain-noted m s l v e = (cc, cc)

-- How many stops the loop has taken.
abbrev pub stops_taken : Bool → ℕ
stops_taken true = 1
stops_taken false = 0

-- A drain that is not acknowledged has its caller, and a stop was taken once at most.
pub record IsCounted (s : System) : Type 0 where
  pub noted : s.state.drained ≡ true → 0 < s.awaiting_drain
  pub once : s.awaiting_stop + s.stops_done ≡ stops_taken s.state.stopped

pub start-IsCounted : (sampler : PrioritySampler) (w : World) → IsCounted (start sampler w)
unfolding start new_loop_state
start-IsCounted sampler w = record { noted = λ d. absurd (cc); once = refl }

still_noted :
    (s : System) (l : LoopState) (a : ℕ)
    → (s.state.drained ≡ true → 0 < s.awaiting_drain)
    → Acknowledges s.state l
    → Received s l a
    → l.drained ≡ true
    → 0 < a
still_noted s l a noted (_, inl (same, count)) received d =
    let waiting = noted (sym same ∙ d) in omega arith
still_noted s l a noted (_, inr (was, now, count)) received d = absurd (cc)

module _ (encode : Args → Text) (redis : Redis) (namespace pool_id : Text)
    (job_types : List JobType) (backoffs : List ℕ) (run : JobType → Job → Option Text) where
  Step-IsCounted :
      {s t : System}
      → Step encode redis namespace pool_id job_types backoffs run s t
      → IsCounted s
      → IsCounted t
  Step-IsCounted (call_stop e) h = subst IsCounted (sym e) record { noted = h.noted; once = h.once }
  Step-IsCounted (call_drain e) h =
      subst IsCounted (sym e) record { noted = h.noted; once = h.once }
  Step-IsCounted {s} (take_stop m n l v on calling turned e) h =
      let (same, _) =
        stop-noted encode redis namespace pool_id job_types backoffs run m s l v turned in
      let none_taken = h.once ∙ ap stops_taken on in
      let one_taken : stops_taken l.stopped ≡ 1 = rw same refl in
      subst IsCounted (sym e) record {
        noted = λ d. h.noted (sym (ap (λ (k : LoopState). k.drained) same) ∙ d);
        once = omega arith;
      }
  Step-IsCounted (answer_stop n off awaiting e) h =
      subst IsCounted (sym e) record { noted = h.noted; once = (omega (arith, awaiting)) ∙ h.once }
  Step-IsCounted {s} (take_drain m n l v on calling turned e) h =
      let (same, _) =
        drain-noted encode redis namespace pool_id job_types backoffs run m s l v turned in
      let as_many = ap (λ (k : LoopState). stops_taken k.stopped) same in
      subst IsCounted (sym e) record { noted = λ d. omega arith; once = h.once ∙ sym as_many }
  Step-IsCounted {s} (take_tick m a l v on turned received e) h =
      let acknowledges =
        tick-Acknowledges encode redis namespace pool_id job_types backoffs run m s l v turned in
      subst IsCounted (sym e) record {
        noted = still_noted s l a h.noted acknowledges received;
        once = h.once ∙ sym (ap stops_taken acknowledges.0);
      }
  Step-IsCounted (others v e) h = subst IsCounted (sym e) record { noted = h.noted; once = h.once }

  pub Reach-IsCounted :
      {s t : System}
      → Reach encode redis namespace pool_id job_types backoffs run s t
      → IsCounted s
      → IsCounted t
  Reach-IsCounted here h = h
  Reach-IsCounted (next r step) h = Step-IsCounted step (Reach-IsCounted r h)

-- ===== src/Worker/Loop/Running.antt =====
-- The worker's loop, over its turns.
use work.Prelude.{
  ℕ, zero, suc, ◌≤◌, ◌<◌, ◌≡◌, refl, sym, subst, ap, arith, true, false, List, [], ◌∷◌, All, Option,
  none, some, if◌then◌else◌, length, get_elem?,
}
use work.Text.{Text}
use work.Job.{Args, Job}
use work.Redis.{Redis}
use work.Conn.{World, Result, ok, err}
use work.Sampler.Rounds.{IsValid, sample-IsValid}
use work.Worker.{JobType}
use work.Worker.Loop.{
  Signal, stop, drain, tick, LoopState, sleep_backoffs_of, backoff_index, reset_timer, acknowledged,
  idle_turn, after_fetch, after_sample, turn, Moment, go_on, turns,
}

-- The sampler is valid, and the timer ticks again within `most` milliseconds.
pub record IsRunning (most : ℕ) (s : LoopState) : Type 0 where
  pub valid : IsValid s.sampler
  pub soon : s.timer ≤ most

-- No panic, and the loop goes on so.
abbrev pub KeepsRunning : ℕ → Option LoopState × World → Type 0
KeepsRunning most r = (t : LoopState) × (r.0 ≡ some t) × IsRunning most t

get_elem?-All :
    (P : ℕ → Type 0) (xs : List ℕ) (i : ℕ)
    → All P xs
    → i < length xs
    → (x : ℕ) × (get_elem? xs i ≡ some x) × P x
get_elem?-All P [] i h less = absurd (omega arith)
get_elem?-All P (x ∷ xs) zero h less = (x, refl, h.0)
get_elem?-All P (x ∷ xs) (suc i) h less = get_elem?-All P xs i h.1 (omega arith)

backoff_index-lt : (count n : ℕ) → 0 < count → backoff_index count n < count
backoff_index-lt count n h = ground arith

sleep_backoffs_of-ne : (given : List ℕ) → 0 < length (sleep_backoffs_of given)
unfolding sleep_backoffs_of
sleep_backoffs_of-ne [] = omega arith
sleep_backoffs_of-ne (t ∷ ts) = omega arith

acknowledged-sampler : (s : LoopState) → (acknowledged s).sampler ≡ s.sampler
acknowledged-sampler s = ground arith

-- A turn without a job finds its backoff, and what holds of all of them holds of it.
pub idle_turn-some :
    (P : ℕ → Type 0) (given : List ℕ) (s : LoopState)
    → All P (sleep_backoffs_of given)
    → (ms : ℕ) × (idle_turn (sleep_backoffs_of given) s
        ≡ some (record (acknowledged s) { no_jobs = suc s.no_jobs; timer = ms }))
      × P ms
unfolding idle_turn
idle_turn-some P given s h =
    let count = length (sleep_backoffs_of given) in
    let (ms, found, p) =
      get_elem?-All P (sleep_backoffs_of given) (backoff_index count (suc s.no_jobs)) h
        (backoff_index-lt count (suc s.no_jobs) (sleep_backoffs_of-ne given)) in
    (ms, ap (reset_timer (record (acknowledged s) { no_jobs = suc s.no_jobs })) found, p)

idle_turn-IsRunning :
    (given : List ℕ) (most : ℕ) (s : LoopState)
    → All (λ t. t ≤ most) (sleep_backoffs_of given)
    → IsValid s.sampler
    → (t : LoopState) × (idle_turn (sleep_backoffs_of given) s ≡ some t) × IsRunning most t
idle_turn-IsRunning given most s short valid =
    let (ms, e, soon) = idle_turn-some (λ t. t ≤ most) given s short in
    (_, e, record { valid = subst IsValid (sym (acknowledged-sampler s)) valid; soon = soon })

module _ (encode : Args → Text) (redis : Redis) (namespace pool_id : Text)
    (job_types : List JobType) (given : List ℕ) (run : JobType → Job → Option Text) (most : ℕ)
    (short : All (λ t. t ≤ most) (sleep_backoffs_of given)) (ten : 10 ≤ most) where
  after_fetch-IsRunning :
      (now draw : ℕ) (s : LoopState) (r : Result (Option Job) × World)
      → IsValid s.sampler
      → KeepsRunning most (
          after_fetch encode redis namespace pool_id job_types
            (sleep_backoffs_of given)
            run
            now
            draw
            s
            r)
  unfolding after_fetch
  after_fetch-IsRunning now draw s (err x, w) valid =
      (_, refl, record { valid = valid; soon = ten })
  after_fetch-IsRunning now draw s (ok (some job), w) valid =
      (_, refl, record { valid = valid; soon = omega arith })
  after_fetch-IsRunning now draw s (ok none, w) valid = idle_turn-IsRunning given most s short valid

  pub turn-IsRunning :
      (rand : ℕ → ℕ) (now draw : ℕ) (signal : Signal) (s : LoopState) (w : World)
      → IsRunning most s
      → KeepsRunning most (
          turn encode redis namespace pool_id job_types
            (sleep_backoffs_of given)
            run
            rand
            now
            draw
            signal
            s
            w)
  unfolding turn
  turn-IsRunning rand now draw stop s w h = (_, refl, record { valid = h.valid; soon = h.soon })
  turn-IsRunning rand now draw drain s w h =
      (_, refl, record { valid = h.valid; soon = omega arith })
  turn-IsRunning rand now draw tick s w h =
      let (sampler, drawn, perm, valid) = sample-IsValid rand s.sampler h.valid in
      subst
        (λ o. KeepsRunning most (
          after_sample encode redis namespace pool_id job_types (sleep_backoffs_of given) run now
            draw s o w))
        (sym drawn) (after_fetch-IsRunning now draw (record s { sampler = sampler }) _ valid)

  go_on-IsRunning :
      (r : Option LoopState × World) (later : LoopState → World → Option LoopState × World)
      → KeepsRunning most r
      → ((s : LoopState) (w : World) → IsRunning most s → KeepsRunning most (later s w))
      → KeepsRunning most (go_on r later)
  go_on-IsRunning (none, w) later (t, e, h) goes = absurd (cc)
  go_on-IsRunning (some s, w) later (t, e, h) goes =
      elim s.stopped as (λ b. KeepsRunning most (if b then (some s, w) else later s w)) [
        | true ↦ (t, e, h)
        | false ↦ goes s w (subst (IsRunning most) same h)
      ]
    where
      same : t ≡ s
      same = cc

  turns-on :
      (ms : List Moment) (s : LoopState) (w : World)
      → IsRunning most s
      → KeepsRunning most
          (turns encode redis namespace pool_id job_types (sleep_backoffs_of given) run ms s w)
  unfolding turns
  turns-on [] s w h = (s, refl, h)
  turns-on (m ∷ ms) s w h =
      go_on-IsRunning _ _ (turn-IsRunning m.rand m.now m.draw m.signal s w h) (turns-on ms)

-- A worker whose sampler is valid never panics in its loop, whatever sleep backoffs it is given,
-- messages and ticks it takes, random numbers it draws and faults its exchanges have: the sampler
-- stays valid, and the timer is always set to at most `most` milliseconds, for a `most` of at least 10
-- that no sleep backoff exceeds.
pub turns-IsRunning :
    (encode : Args → Text) (redis : Redis) (namespace pool_id : Text) (job_types : List JobType)
    (given : List ℕ) (run : JobType → Job → Option Text) (most : ℕ) (ms : List Moment)
    (s : LoopState) (w : World)
    → All (λ t. t ≤ most) (sleep_backoffs_of given)
    → 10 ≤ most
    → IsRunning most s
    → let r = turns encode redis namespace pool_id job_types (sleep_backoffs_of given) run ms s w in
      (t : LoopState) × (r.0 ≡ some t) × IsRunning most t
turns-IsRunning encode redis namespace pool_id job_types given run most ms s w short ten h =
    turns-on encode redis namespace pool_id job_types given run most short ten ms s w h

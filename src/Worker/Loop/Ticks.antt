-- ===== src/Worker/Loop/Ticks.antt =====
-- One tick of a worker that is draining.
use mathlib.Core.List.{Mem}
use mathlib.Core.List.Perm
use work.Prelude.{
  ℕ, suc, ◌<◌, ◌≡◌, ◌≢◌, ◌⊎◌, refl, sym, subst, ap, arith, Bool, true, false, inl, inr, List, [],
  ◌∷◌, All, map, Option, none, some, Option-cases,
}
use work.Text.{Text}
use work.Job.{Args, Job, Blob, new_job}
use work.Redis.{Store, Key, documented, documented-IsDocumented}
use work.Conn.{World, Error, Result, ok, err, exchange, bind_result, malformed}
use work.Scripts.Fetch.{Fetched, fetch_job}
use work.Scripts.Fetch.Choice.{taken, Choice, fetch_job_lem}
use work.Sampler.{SampleItem}
use work.Sampler.Rounds.{IsValid, sample-IsValid}
use work.Worker.{JobType, process_job, fetch, parse_reply}
use work.Worker.Loop.Running.{idle_turn-some}
use work.Worker.Loop.{tick, LoopState, sleep_backoffs_of, after_fetch, after_sample, turn}
use work.Worker.Loop.Quiet.{waiting, Among, Shorter, waiting-le, process_job-Quiet}
use work.Worker.Loop.Served.{All-same, payload-middle, taken-fewer, IsServed}

-- The samples' queues are among `qs`, and their in-progress queues are not.
abbrev pub Serves : List Key → LoopState → Type 0
Serves qs s =
    (x : SampleItem)
    → Mem x s.sampler.samples
    → Among x.payload.job_queue qs × All (λ q. x.payload.in_prog_queue ≢ q) qs

pub record IsDraining (qs : List Key) (s : LoopState) (w : World) : Type 0 where
  pub valid : IsValid s.sampler
  pub serves : Serves qs s
  pub draining : s.drained ≡ true
  pub live : s.stopped ≡ false
  pub calm : w.faults ≡ []

-- The drain has been acknowledged, once.
abbrev pub IsDone : LoopState → LoopState → Type 0
IsDone s t = (t.drains_done ≡ suc s.drains_done) × (t.drained ≡ false)

-- Either that, or the loop is draining still and fewer jobs wait.
abbrev pub Progress : List Key → LoopState → World → Option LoopState × World → Type 0
Progress qs s w r =
    (t : LoopState) × (r.0 ≡ some t)
    × (IsDone s t
        ⊎ (IsDraining qs t r.1
            × (t.drains_done ≡ s.drains_done)
            × (waiting qs r.1.store < waiting qs w.store)))

parse_reply-cases :
    (b : Blob) (q p : Key) (v : World)
    → let r = parse_reply (some (record { res = some b; job_queue = q; in_prog_queue = p })) v in
      ((x : Error) × (r ≡ (err x, v))) ⊎ ((j : Job) × (r ≡ (ok (some j), v)))
unfolding parse_reply
parse_reply-cases b q p v = elim (Option-cases (new_job b q p)) [
  | inl e ↦ inl (malformed, rw (e, parse_reply) refl)
  | inr (j, e) ↦ inr (j, rw (e, parse_reply) refl)
]

module _ (encode : Args → Text) (before : Blob → Blob → Bool) (cjson : Option Args → Option Args)
    (ns pool : Text) (jts : List JobType) (given : List ℕ) (run : JobType → Job → Option Text)
    (qs : List Key) where
  abbrev step : ℕ → ℕ → LoopState → Result (Option Job) × World → Option LoopState × World
  step = after_fetch encode (documented before cjson) ns pool jts (sleep_backoffs_of given) run

  nothing-Progress :
      (now draw : ℕ) (s : LoopState) (w v : World)
      → s.drained ≡ true
      → Progress qs s w (step now draw s (ok none, v))
  unfolding after_fetch
  nothing-Progress now draw s w v drained =
      let (ms, e, u) = idle_turn-some (λ t. t ≡ t) given s (all_refl (sleep_backoffs_of given)) in
      (_, e, inl (ground (arith, drained), ground (arith, drained)))
    where
      all_refl : (xs : List ℕ) → All {0, 0} (λ (t : ℕ). t ≡ t) xs
      all_refl [] = tt
      all_refl (x ∷ xs) = (refl, all_refl xs)

  -- A job has been taken, and the store is that of `v`.
  something-Progress :
      (now draw : ℕ) (s : LoopState) (w v : World) (b : Blob) (q p : Key)
      → IsDraining qs s v
      → waiting qs v.store < waiting qs w.store
      → Progress qs s w (
          step now draw s
            (parse_reply (some (record { res = some b; job_queue = q; in_prog_queue = p })) v))
  unfolding after_fetch
  something-Progress now draw s w v b q p h fewer = elim (parse_reply-cases b q p v) [
    | inl (x, e) ↦
        subst (λ r. Progress qs s w (step now draw s r)) (sym e)
          (
            record s { timer = 10 },
            refl,
            inr (
              record {
                valid = h.valid;
                serves = h.serves;
                draining = h.draining;
                live = h.live;
                calm = h.calm;
              },
              refl,
              fewer,
            ),
          )
    | inr (j, e) ↦
        subst (λ r. Progress qs s w (step now draw s r)) (sym e)
          (
            record s { no_jobs = 0; timer = 0 },
            refl,
            (let quiet =
                  process_job-Quiet encode before cjson ns pool jts run now draw j v h.calm in
                let u =
                  (process_job encode (documented before cjson) ns pool jts run now draw j v).1 in
                let less =
                  waiting-le qs v.store u.store
                    (All-same (Shorter v.store u.store) qs quiet.shorter) in
                inr (
                  record {
                    valid = h.valid;
                    serves = h.serves;
                    draining = h.draining;
                    live = h.live;
                    calm = quiet.calm;
                  },
                  refl,
                  omega (arith, fewer, less),
                )),
          )
  ]

  fetched-Progress :
      (now draw : ℕ) (s : LoopState) (w : World)
      → IsDraining qs s w
      → (r : Option Fetched × Store)
      → Choice (map (λ (x : SampleItem). x.payload) s.sampler.samples) pool w.store r
      → Progress qs s w (step now draw s (parse_reply r.0 (record w { store = r.1; faults = [] })))
  unfolding parse_reply
  fetched-Progress now draw s w h r (inr (stays, e)) =
      subst
        (λ r.
          Progress qs s w
            (step now draw s (parse_reply r.0 (record w { store = r.1; faults = [] }))))
        (sym e) (nothing-Progress now draw s w _ h.draining)
  fetched-Progress now draw s w h r (inl (pre, k, post, split, stays, runs, (rest, b, queue, e))) =
      let (x, m, p) = payload-middle s.sampler.samples pre k post split in
      let fewer =
        taken-fewer qs k pool rest b w.store queue (subst (IsServed qs) p (h.serves x m)) in
      subst
        (λ r.
          Progress qs s w
            (step now draw s (parse_reply r.0 (record w { store = r.1; faults = [] }))))
        (sym e)
        (something-Progress now draw s w
          (record w { store = taken k pool rest b w.store; faults = [] }) b k.job_queue
          k.in_prog_queue
          (record {
            valid = h.valid;
            serves = h.serves;
            draining = h.draining;
            live = h.live;
            calm = refl;
          })
          fewer)

  fetch-calm :
      (samples : List SampleItem) (w : World)
      → w.faults ≡ []
      → let r =
          fetch_job
            (documented before cjson)
            (map (λ (x : SampleItem). x.payload) samples)
            pool
            w.store in
        fetch encode (documented before cjson) ns pool samples w
        ≡ parse_reply r.0 (record w { store = r.1; faults = [] })
  unfolding fetch
  fetch-calm samples w calm =
      let take_one =
        fetch_job (documented before cjson) (map (λ (x : SampleItem). x.payload) samples) pool in
      ap (λ fs. bind_result (exchange fs take_one w) parse_reply) calm

  pub tick-Progress :
      (rand : ℕ → ℕ) (now draw : ℕ) (s : LoopState) (w : World)
      → IsDraining qs s w
      → Progress qs s w (
          turn encode
            (documented before cjson)
            ns
            pool
            jts
            (sleep_backoffs_of given)
            run
            rand
            now
            draw
            tick
            s
            w)
  unfolding turn
  tick-Progress rand now draw s w h =
      let (sampler, drawn, perm, valid) = sample-IsValid rand s.sampler h.valid in
      let s' : LoopState = record s { sampler = sampler } in
      let h' : IsDraining qs s' w = record {
        valid = valid;
        serves = λ x m. h.serves x (Perm.subset perm x m);
        draining = h.draining;
        live = h.live;
        calm = h.calm;
      } in
      let chosen =
        fetch_job_lem (documented before cjson) (documented-IsDocumented before cjson)
          (map (λ (x : SampleItem). x.payload) sampler.samples) pool w.store in
      subst
        (λ o. Progress qs s w (
          after_sample encode (documented before cjson) ns pool jts (sleep_backoffs_of given) run
            now draw s o w))
        (sym drawn)
        (subst (λ r. Progress qs s w (step now draw s' r))
          (sym (fetch-calm sampler.samples w h.calm)) (fetched-Progress now draw s' w h' _ chosen))

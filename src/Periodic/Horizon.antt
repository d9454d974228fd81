-- ===== src/Periodic/Horizon.antt =====
-- What enqueue puts into the scheduled set.
use work.Prelude.{
  ℕ, zero, suc, ◌+◌, ◌≤◌, ◌<◌, ltb, ◌≡◌, refl, sym, subst, ap, arith, true, false, Bool-cases, inl,
  inr, List, [], ◌∷◌, All,
}
use work.Prelude.Int.{pos}
use work.Text.{Text}
use work.Keys
use work.Redis.{Redis, Store}
use work.Conn.{World, Result, ok, err, M, command, exchange, bind_result}
use work.Periodic.{
  PeriodicJob, horizon_seconds, add_occurrence, enqueue_occurrences, enqueue_jobs, enqueue,
}

-- The occurrences from t on that lie before the horizon, in their order.
pub data Due (pj : PeriodicJob) (horizon : ℕ) : ℕ → List ℕ → Type 0 where
  over : {t : ℕ} → horizon ≤ t → Due pj horizon t []
  due :
      {t : ℕ} {ts : List ℕ}
      → t < horizon
      → Due pj horizon (pj.schedule t) ts
      → Due pj horizon t (t ∷ ts)

module _ (redis : Redis) (ns : Text) where
  abbrev pub add_all : PeriodicJob → List ℕ → Store → Store
  add_all pj [] s = s
  add_all pj (t ∷ ts) s = add_all pj ts (add_occurrence redis ns pj t s)

  -- For each job, in order, its occurrences behind `now` are added.
  pub data Filled (now : ℕ) : List PeriodicJob → Store → Store → Type 0 where
    none_left : {s : Store} → Filled now [] s s
    filled :
        {pj : PeriodicJob} {ts : List ℕ} {pjs : List PeriodicJob} {s : Store} {u : Store}
        → Due pj (now + horizon_seconds) (pj.schedule now) ts
        → Filled now pjs (add_all pj ts s) u
        → Filled now (pj ∷ pjs) s u

  command-calm :
      (run : Store → Store) (w : World)
      → w.faults ≡ []
      → command run w ≡ (ok tt, record w { store = run w.store; faults = [] })
  command-calm run w calm = ap (λ fs. exchange fs (λ s. (tt {0}, run s)) w) calm

  module _ (pj : PeriodicJob) (horizon : ℕ) (later : (t : ℕ) → t < pj.schedule t) where
    abbrev AllAdded : ℕ → World → Result (Unit {0}) × World → Type 0
    AllAdded t w r =
        (ts : List ℕ) × Due pj horizon t ts
        × (r.0 ≡ ok tt)
        × (r.1.faults ≡ [])
        × (r.1.store ≡ add_all pj ts w.store)

    occurrences-over :
        (fuel t : ℕ) (w : World)
        → ltb t horizon ≡ false
        → enqueue_occurrences redis ns (suc fuel) pj horizon t w ≡ (ok tt, w)
    unfolding enqueue_occurrences
    occurrences-over fuel t w h = rw h refl

    occurrences-due :
        (fuel t : ℕ) (w : World)
        → ltb t horizon ≡ true
        → w.faults ≡ []
        → enqueue_occurrences redis ns (suc fuel) pj horizon t w
          ≡ enqueue_occurrences redis ns fuel pj horizon
              (pj.schedule t)
              (record w { store = add_occurrence redis ns pj t w.store; faults = [] })
    unfolding enqueue_occurrences
    occurrences-due fuel t w h calm = rw h (
        ap
          (λ (r : Result (Unit {0}) × World).
            bind_result r (λ _. enqueue_occurrences redis ns fuel pj horizon (pj.schedule t)))
          (command-calm (add_occurrence redis ns pj t) w calm))

    -- One occurrence, or none, before those that follow it.
    occurrences-step :
        (fuel t : ℕ) (w : World)
        → w.faults ≡ []
        → (t < horizon
            → (v : World) → v.faults ≡ []
            → AllAdded
                (pj.schedule t)
                v
                (enqueue_occurrences redis ns fuel pj horizon (pj.schedule t) v))
        → AllAdded t w (enqueue_occurrences redis ns (suc fuel) pj horizon t w)
    occurrences-step fuel t w calm follow = elim (Bool-cases (ltb t horizon)) [
      | inr no_more ↦
          subst (AllAdded t w) (sym (occurrences-over fuel t w no_more))
            ([], over (ground (arith, no_more)), refl, calm, refl)
      | inl more ↦
          let before : t < horizon = ground (arith, more) in
          let (ts, all, done, calm', store) =
            follow before (record w { store = add_occurrence redis ns pj t w.store; faults = [] })
              refl in
          subst (AllAdded t w) (sym (occurrences-due fuel t w more calm))
            (t ∷ ts, due before all, done, calm', store)
    ]

    pub occurrences-AllAdded :
        (fuel t : ℕ) (w : World)
        → w.faults ≡ []
        → horizon ≤ t + fuel
        → AllAdded t w (enqueue_occurrences redis ns (suc fuel) pj horizon t w)
    occurrences-AllAdded zero t w calm enough =
        occurrences-step zero t w calm (λ before v calm'. absurd (omega arith))
    occurrences-AllAdded (suc fuel) t w calm enough =
        occurrences-step (suc fuel) t w calm (λ before v calm'.
          occurrences-AllAdded fuel (pj.schedule t) v calm' (omega (arith, later t, enough)))

  -- What enqueueing the jobs one after the other does.
  abbrev AllFilled : ℕ → List PeriodicJob → World → Result (Unit {0}) × World → Type 0
  AllFilled now pjs w r = (r.0 ≡ ok tt) × (r.1.faults ≡ []) × Filled now pjs w.store r.1.store

  >>-AllFilled :
      (now : ℕ) (pj : PeriodicJob) (pjs : List PeriodicJob) (w : World)
      (r : Result (Unit {0}) × World) (k : M (Unit {0})) (ts : List ℕ)
      → Due pj (now + horizon_seconds) (pj.schedule now) ts
      → r.0 ≡ ok tt
      → r.1.faults ≡ []
      → r.1.store ≡ add_all pj ts w.store
      → ((v : World) → v.faults ≡ [] → AllFilled now pjs v (k v))
      → AllFilled now (pj ∷ pjs) w (bind_result r (λ _. k))
  >>-AllFilled now pj pjs w (ok u, v) k ts all done calm store follow =
      let (done', calm', rest) = follow v calm in
      (done', calm', filled all (subst (λ s. Filled now pjs s (k v).1.store) store rest))
  >>-AllFilled now pj pjs w (err x, v) k ts all done calm store follow = absurd (cc)

  jobs-AllFilled :
      (fuel now : ℕ) (pjs : List PeriodicJob) (w : World)
      → All (λ (pj : PeriodicJob). (t : ℕ) → t < pj.schedule t) pjs
      → w.faults ≡ []
      → horizon_seconds ≤ fuel
      → AllFilled now pjs w (enqueue_jobs redis ns (suc fuel) now pjs w)
  unfolding enqueue_jobs
  jobs-AllFilled fuel now [] w later calm enough = (refl, calm, none_left)
  jobs-AllFilled fuel now (pj ∷ pjs) w later calm enough =
      let (ts, all, done, calm', store) =
        occurrences-AllAdded pj (now + horizon_seconds) later.0 fuel (pj.schedule now) w calm
          (omega (arith, later.0 now, enough)) in
      >>-AllFilled now pj pjs w
        (enqueue_occurrences redis ns (suc fuel) pj (now + horizon_seconds) (pj.schedule now) w)
        (enqueue_jobs redis ns (suc fuel) now pjs) ts all done calm' store
        (λ v c. jobs-AllFilled fuel now pjs v later.1 c enough)

  stamped :
      (now : ℕ) (pjs : List PeriodicJob) (w : World) (r : Result (Unit {0}) × World)
      → AllFilled now pjs w r
      → let u =
          bind_result r (λ _. command (redis.set_int (Keys.last_periodic_enqueue ns) (pos now))) in
        (u.0 ≡ ok tt)
        × (t : Store) × Filled now pjs w.store t
        × (u.1 ≡ record r.1 {
          store = redis.set_int (Keys.last_periodic_enqueue ns) (pos now) t;
          faults = [];
        })
  stamped now pjs w (ok u, v) (done, calm, all) =
      let e = command-calm (redis.set_int (Keys.last_periodic_enqueue ns) (pos now)) v calm in
      (ap (λ r. r.0) e, v.store, all, ap (λ r. r.1) e)
  stamped now pjs w (err x, v) (done, calm, all) = absurd (cc)

-- How the pass ends, with its whole world.
pub enqueue-ends :
    (redis : Redis) (ns : Text) (fuel now : ℕ) (pjs : List PeriodicJob) (w : World)
    → All (λ (pj : PeriodicJob). (t : ℕ) → t < pj.schedule t) pjs
    → w.faults ≡ []
    → horizon_seconds < fuel
    → let r = enqueue redis ns fuel now pjs w in
      (r.0 ≡ ok tt)
      × (r.1.faults ≡ [])
      × (t : Store) × Filled redis ns now pjs w.store t
      × (r.1.store ≡ redis.set_int (Keys.last_periodic_enqueue ns) (pos now) t)
unfolding enqueue
enqueue-ends redis ns zero now pjs w later calm enough = absurd (omega arith)
enqueue-ends redis ns (suc fuel) now pjs w later calm enough =
    let (done, t, all, ends) =
      stamped redis ns now pjs w _
        (jobs-AllFilled redis ns fuel now pjs w later calm (omega arith)) in
    (done, ap (λ (v : World). v.faults) ends, t, all, ap (λ (v : World). v.store) ends)

-- ===== src/Worker/Observed.antt =====
-- worker.go, processJob: what a worker tells its observer of the job that it runs, and what the client
-- (client.go) shows of it meanwhile and afterwards.
use mathlib.Core.List.{append-nil}
use work.Text.Decimal.{max_int64}
use work.Prelude.{
  ◌≤◌, ℕ, suc, ◌==◌, ◌≡◌, refl, sym, subst, ap, ◌∙◌, Bool-cases, inl, inr, List, [], ◌∷◌, ◌++◌,
  Option, none, some, All, if_pos, arith,
}
use work.Text.{Text, Text-discrete}
use work.Job.{Args, Job}
use work.Keys
use work.Redis.{Redis, Key, IsDocumented}
use work.Conn.{World}
use work.Observer.{
  Observation, Observer, new_observer, observe_started, observe_done, observe_checkin, observed,
  check_in, process, flush, tick,
}
use work.Observer.Current.{Event, observe, run, step, IsOrdinary, Total}
use work.Observer.Shown.{Shows, observed-Shows}
use work.Client.Pools.{WorkerObservation, idle_worker, read_observed}
use work.Worker.{JobType}

abbrev pub args_of : Option Args → Args
args_of none = []
args_of (some args) = args

-- A message of the handler's Checkin, and its time.
abbrev pub Message : Type 0
Message = Text × ℕ

unfoldable pub checkins_of : Job → List Message → List Observation
unfolding observe_checkin
checkins_of j [] = []
checkins_of j ((msg, at) ∷ ms) = observe_checkin j.name j.id msg at ∷ checkins_of j ms

-- Until the handler returns; a job with no handler is not observed.
unfoldable pub observations_before : Option JobType → Job → ℕ → List Message → List Observation
unfolding checkins_of observe_started
observations_before none j start ms = []
observations_before (some jt) j start ms =
    observe_started j.name j.id (args_of j.args) start ∷ checkins_of j ms

unfoldable pub observations_of : Option JobType → Job → ℕ → List Message → List Observation
unfolding observations_before observe_done
observations_of none j start ms = []
observations_of (some jt) j start ms =
    observations_before (some jt) j start ms ++ observe_done j.name j.id ∷ []

abbrev pub all_observed : List Observation → List Event
all_observed [] = []
all_observed (o ∷ os) = observe o ∷ all_observed os

-- The observer's current job after observations.
abbrev after_all : List Observation → Option Observation → Option Observation
after_all [] c = c
after_all (o ∷ os) c = after_all os (observed o.kind o c)

module _ (marshal : Args → Option Text) (redis : Redis) where
  process-current :
      (obv : Observation) (o : Observer) (w : World)
      → (process marshal redis obv o w).0.current ≡ observed obv.kind obv o.current
  unfolding process flush
  process-current obv o w = elim (Bool-cases (suc o.version == 1)) [
    | inl e ↦ rw e refl
    | inr e ↦ rw e refl
  ]

  tick-current : (o : Observer) (w : World) → (tick marshal redis o w).0.current ≡ o.current
  unfolding tick flush
  tick-current o w = elim (Bool-cases (o.last_written_version == o.version)) [
    | inl e ↦ rw e refl
    | inr e ↦ rw e refl
  ]

  run-append :
      (es fs : List Event) (p : Observer × World)
      → run marshal redis (es ++ fs) p ≡ run marshal redis fs (run marshal redis es p)
  unfolding run
  run-append [] fs p = refl
  run-append (e ∷ es) fs p = run-append es fs (step marshal redis e p)

  run-observed :
      (os : List Observation) (p : Observer × World)
      → (run marshal redis (all_observed os) p).0.current ≡ after_all os p.0.current
  unfolding run step
  run-observed [] p = refl
  run-observed (o ∷ os) p =
      run-observed os (process marshal redis o p.0 p.1)
      ∙ ap (after_all os) (process-current o p.0 p.1)

-- The observation as the check-ins leave it.
abbrev pub checked : Observation → List Message → Observation
checked o [] = o
checked o ((msg, at) ∷ ms) = checked (record o { checkin = msg; checkin_at = at }) ms

after_checkins :
    (j : Job) (ms : List Message) (o : Observation)
    → o.job_id ≡ j.id
    → after_all (checkins_of j ms) (some o) ≡ some (checked o ms)
unfolding checkins_of observe_checkin observed check_in
after_checkins j [] o e = refl
after_checkins j ((msg, at) ∷ ms) o e =
    ap (after_all (checkins_of j ms)) (if_pos (Text-discrete j.id o.job_id) (sym e) _ _)
    ∙ after_checkins j ms (record o { checkin = msg; checkin_at = at }) e

after_done :
    (os : List Observation) (name id : Text) (c : Option Observation)
    → after_all (os ++ observe_done name id ∷ []) c ≡ none
unfolding observe_done observed
after_done [] name id c = refl
after_done (o ∷ os) name id c = after_done os name id (observed o.kind o c)

All-append : {A : Type 0} (P : A → Type 0) (xs ys : List A) → All P xs → All P ys → All P (xs ++ ys)
All-append P [] ys h k = k
All-append P (x ∷ xs) ys h k = (h.0, All-append P xs ys h.1 k)

-- Times that are int64s.
abbrev pub AreTimely : ℕ → List Message → Type 0
AreTimely start ms = (start ≤ max_int64) × All (λ (m : Message). m.1 ≤ max_int64) ms

checkins-IsOrdinary :
    (key : Key) (j : Job) (ms : List Message) (more : List Observation)
    → All (λ (m : Message). m.1 ≤ max_int64) ms
    → All (IsOrdinary key) (all_observed more)
    → All (IsOrdinary key) (all_observed (checkins_of j ms ++ more))
unfolding checkins_of observe_checkin
checkins-IsOrdinary key j [] more h k = k
checkins-IsOrdinary key j ((msg, at) ∷ ms) more h k =
    ((omega arith, h.0), checkins-IsOrdinary key j ms more h.1 k)

module _ (marshal : Args → Option Text) (redis : Redis) (ns id : Text) where
  abbrev pub shown_after : List Event → World → Option WorkerObservation
  shown_after es w =
      let p = run marshal redis es (new_observer ns id, w) in
      read_observed
        (redis.hgetall (Keys.worker_observation ns id) (tick marshal redis p.0 p.1).1.store)
        (idle_worker id)

  shown_current :
      (total : Total marshal)
      → IsDocumented redis
      → (es : List Event) (os : List Observation) (c : Option Observation) (w : World)
      → w.faults ≡ []
      → w.store.hashes (Keys.worker_observation ns id) ≡ []
      → All (IsOrdinary (Keys.worker_observation ns id)) es
      → All (IsOrdinary (Keys.worker_observation ns id)) (all_observed os)
      → ((b : Option Observation) → after_all os b ≡ c)
      → Shows marshal id c (shown_after (es ++ all_observed os) w)
  shown_current total documents es os c w calm missing before ordinary ends =
      let all = es ++ all_observed os in
      let start : Observer × World = (new_observer ns id, w) in
      let p = run marshal redis all start in
      let now : (tick marshal redis p.0 p.1).0.current ≡ c =
        tick-current marshal redis p.0 p.1
        ∙ ap (λ (q : Observer × World). q.0.current)
            (run-append marshal redis es (all_observed os) start)
        ∙ run-observed marshal redis os (run marshal redis es start)
        ∙ ends _ in
      subst (λ o. Shows marshal id o (shown_after all w)) now
        (observed-Shows marshal redis total documents ns id all w calm missing
          (All-append _ es (all_observed os) before ordinary))

-- While a worker runs a job, a tick of its observer lets the client show the worker busy with that
-- job, and with the job's last check-in; when the handler has returned, a tick lets the client show it
-- idle. Before the job there may be any observations, ticks and drains, and changes of the store by
-- other programs that leave the worker's hash alone. The job type has a handler, Redis answers, the
-- hash was not there at first, the arguments can be encoded, and the times are int64s.
pub observations-Shows :
    (marshal : Args → Option Text) (redis : Redis)
    → Total marshal
    → IsDocumented redis
    → (ns id : Text) (es : List Event) (w : World) (jt : JobType) (j : Job) (start : ℕ)
      (ms : List Message)
    → w.faults ≡ []
    → w.store.hashes (Keys.worker_observation ns id) ≡ []
    → All (IsOrdinary (Keys.worker_observation ns id)) es
    → AreTimely start ms
    → Shows marshal id (some (checked (observe_started j.name j.id (args_of j.args) start) ms)) (
        shown_after marshal redis ns id
          (es ++ all_observed (observations_before (some jt) j start ms))
          w)
      × (shown_after marshal redis ns id
            (es ++ all_observed (observations_of (some jt) j start ms))
            w
          ≡ some (idle_worker id))
unfolding observations_before observations_of observe_started observe_done observed
observations-Shows marshal redis total documents ns id es w jt j start ms calm missing before
      timely =
    let key = Keys.worker_observation ns id in
    let first : Observation = observe_started j.name j.id (args_of j.args) start in
    let fits : IsOrdinary key (observe first) = (timely.0, omega arith) in
    (
      shown_current marshal redis ns id total documents es (first ∷ checkins_of j ms) _ w calm
          missing before
          (
            fits,
            subst (λ l. All (IsOrdinary key) (all_observed l)) (append-nil _)
                (checkins-IsOrdinary key j ms [] timely.1 tt),
          )
          (λ b. after_checkins j ms first refl),
      shown_current marshal redis ns id total documents es
          (first ∷ checkins_of j ms ++ observe_done j.name j.id ∷ []) none w calm missing before
          (
            fits,
            checkins-IsOrdinary key j ms (observe_done j.name j.id ∷ []) timely.1
                ((omega arith, omega arith), tt),
          )
          (λ b. after_done (checkins_of j ms) j.name j.id _),
    )

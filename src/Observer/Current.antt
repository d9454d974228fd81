-- ===== src/Observer/Current.antt =====
-- What the hash holds of the observer's current job, whatever it observed before and whatever other
-- programs do to the rest of the store.
use work.Prelude.{
  ℕ, suc, ◌≤◌, ◌==◌, ◌≡◌, refl, ◌∙◌, arith, Bool-cases, inl, inr, List, [], ◌∷◌, Option, none, some,
  All, if_pos, if_neg,
}
use work.Job.{Args}
use work.Text.{Text, Text-discrete}
use work.Text.Decimal.{max_int64}
use work.Keys
use work.Redis.{Redis, Store, Key, IsDocumented}
use work.Conn.{World}
use work.Observer.{
  Kind, started, done, checked_in, Observation, Observer, new_observer, args_json, observed,
  check_in, flush, process, tick, drain, write_current, has_checkin,
}
use work.Observer.Status.{
  Checkin, Status, hash_of, last_of, kept_checkin, written, at_key, IsEncoded, write_status-Wrote,
}

-- One turn of the observer's loop, or a change of the store by another program.
pub data Event : Type 0 where
  observe : Observation → Event
  ticked : Event
  drained : List Observation → Event
  elsewhere : (Store → Store) → Event

module _ (marshal : Args → Option Text) (redis : Redis) where
  unfoldable pub step : Event → Observer × World → Observer × World
  step (observe obv) (o, w) = process marshal redis obv o w
  step ticked (o, w) = tick marshal redis o w
  step (drained obvs) (o, w) = drain marshal redis obvs o w
  step (elsewhere f) (o, w) = (o, record w { store = f w.store })

  unfoldable pub run : List Event → Observer × World → Observer × World
  unfolding step
  run [] p = p
  run (e ∷ es) p = run es (step e p)

-- Times that are int64s.
abbrev pub IsTimely : Observation → Type 0
IsTimely o = (o.started_at ≤ max_int64) × (o.checkin_at ≤ max_int64)

abbrev CurrentIsTimely : Option Observation → Type 0
CurrentIsTimely none = Unit
CurrentIsTimely (some o) = IsTimely o

abbrev pub CheckinIsTimely : Option Checkin → Type 0
CheckinIsTimely none = Unit
CheckinIsTimely (some (t, at)) = at ≤ max_int64

abbrev pub StatusIsTimely : Option Status → Type 0
StatusIsTimely none = Unit
StatusIsTimely (some s) = IsTimely s.job × CheckinIsTimely s.last

-- Observations have such times, and other programs leave the worker's hash alone.
abbrev pub IsOrdinary : Key → Event → Type 0
IsOrdinary key (observe obv) = IsTimely obv
IsOrdinary key ticked = Unit
IsOrdinary key (drained obvs) = All IsTimely obvs
IsOrdinary key (elsewhere f) = (s : Store) → (f s).hashes key ≡ s.hashes key

-- Every argument has a JSON text.
abbrev pub Total : (Args → Option Text) → Type 0
Total marshal = (a : Args) → (json : Text) × (marshal a ≡ some json)

-- The hash was written for the current job.
abbrev pub Reflects : (Args → Option Text) → Option Observation → Option Status → Type 0
Reflects marshal c held =
    (json : Text) × (before : Option Status) × IsEncoded marshal json c
    × (held ≡ written json c before)

kept-timely :
    (o : Observation) (last : Option Checkin)
    → IsTimely o
    → CheckinIsTimely last
    → CheckinIsTimely (kept_checkin o last)
unfolding kept_checkin
kept-timely o last h l = elim (Bool-cases (has_checkin o)) [ inl e ↦ rw e h.1 | inr e ↦ rw e l ]

last-timely : (held : Option Status) → StatusIsTimely held → CheckinIsTimely (last_of held)
last-timely none h = tt
last-timely (some s) h = h.1

written-timely :
    (json : Text) (c : Option Observation) (held : Option Status)
    → CurrentIsTimely c
    → StatusIsTimely held
    → StatusIsTimely (written json c held)
unfolding written
written-timely json none held h t = tt
written-timely json (some o) held h t = (h, kept-timely o (last_of held) h (last-timely held t))

check_in-timely :
    (obv : Observation) (c : Option Observation)
    → IsTimely obv
    → CurrentIsTimely c
    → CurrentIsTimely (check_in obv c)
unfolding check_in
check_in-timely obv none h t = tt
check_in-timely obv (some o) h t = elim (Text-discrete obv.job_id o.job_id) [
  | yes e ↦ rw (if_pos _ e) (t.0, h.1)
  | no n ↦ rw (if_neg _ n) t
]

observed-timely :
    (kind : Kind) (obv : Observation) (c : Option Observation)
    → IsTimely obv
    → CurrentIsTimely c
    → CurrentIsTimely (observed kind obv c)
unfolding observed
observed-timely started obv c h t = h
observed-timely done obv c h t = tt
observed-timely checked_in obv c h t = check_in-timely obv c h t

json_exists :
    (marshal : Args → Option Text)
    → Total marshal
    → (c : Option Observation) → (json : Text) × IsEncoded marshal json c
unfolding args_json
json_exists marshal total none = ([], tt)
json_exists marshal total (some o) = by o.arguments
  where
    by : (a : Args) → (json : Text) × (args_json marshal a ≡ some json)
    by [] = ([], refl)
    by (x ∷ a) = total (x ∷ a)

abbrev pub own_key : Observer → Key
own_key o = Keys.worker_observation o.namespace o.worker_id

-- The hash is one that the observer wrote, and if the last version is written, for the current job.
pub record Fresh (marshal : Args → Option Text) (key : Key) (p : Observer × World) : Type 0 where
  pub held : Option Status
  pub own : own_key p.0 ≡ key
  pub calm : p.1.faults ≡ []
  pub holds : at_key key p.1 ≡ hash_of held
  pub timely : CurrentIsTimely p.0.current
  pub held_timely : StatusIsTimely held
  pub behind : p.0.last_written_version ≤ p.0.version
  pub shown : p.0.last_written_version ≡ p.0.version → Reflects marshal p.0.current held

module _ (marshal : Args → Option Text) (total : Total marshal) (redis : Redis)
    (documented : IsDocumented redis) (key : Key) where
  -- A write, with any version marked as written that is not above the observer's.
  write-Fresh :
      (o : Observer) (w : World) (v : ℕ)
      → v ≤ o.version
      → Fresh marshal key (o, w)
      → Fresh marshal key (record o { last_written_version = v }, write_current marshal redis o w)
  unfolding write_current
  write-Fresh o w v le h =
      let (json, e) = json_exists marshal total o.current in
      let (hash, quiet) =
        write_status-Wrote marshal redis documented key o.current json h.held w e h.holds h.calm in
      record {
        held = written json o.current h.held;
        own = h.own;
        calm = rw h.own quiet;
        holds = rw h.own hash;
        timely = h.timely;
        held_timely = written-timely json o.current h.held h.timely h.held_timely;
        behind = le;
        shown = λ _. (json, h.held, e, refl);
      }

  flush-Fresh :
      (o : Observer) (w : World)
      → Fresh marshal key (o, w)
      → Fresh marshal key (flush marshal redis o w)
  unfolding flush
  flush-Fresh o w h = write-Fresh o w o.version (omega arith) h

  -- Behind an observation, the last version is not written.
  observed-Fresh :
      (obv : Observation) (o : Observer) (w : World)
      → IsTimely obv
      → Fresh marshal key (o, w)
      → Fresh marshal key
          (record o { current = observed obv.kind obv o.current; version = suc o.version }, w)
  observed-Fresh obv o w t h = record {
    held = h.held;
    own = h.own;
    calm = h.calm;
    holds = h.holds;
    timely = observed-timely obv.kind obv o.current t h.timely;
    held_timely = h.held_timely;
    behind = omega (arith, h.behind);
    shown = λ same. absurd (omega (arith, h.behind, same));
  }

  process-Fresh :
      (obv : Observation) (o : Observer) (w : World)
      → IsTimely obv
      → Fresh marshal key (o, w)
      → Fresh marshal key (process marshal redis obv o w)
  unfolding process
  process-Fresh obv o w t h =
      let next = observed-Fresh obv o w t h in
      elim (Bool-cases (suc o.version == 1)) [
        | inl e ↦ rw e (flush-Fresh _ w next)
        | inr e ↦ rw e next
      ]

  tick-Fresh :
      (o : Observer) (w : World)
      → Fresh marshal key (o, w)
      → Fresh marshal key (tick marshal redis o w)
  unfolding tick
  tick-Fresh o w h = elim (Bool-cases (o.last_written_version == o.version)) [
    | inl e ↦ rw e h
    | inr e ↦ rw e (flush-Fresh o w h)
  ]

  drain-Fresh :
      (obvs : List Observation) (o : Observer) (w : World)
      → All IsTimely obvs
      → Fresh marshal key (o, w)
      → Fresh marshal key (drain marshal redis obvs o w)
  unfolding drain
  drain-Fresh [] o w t h = write-Fresh o w o.last_written_version h.behind h
  drain-Fresh (obv ∷ obvs) o w (t, ts) h = drain-Fresh obvs _ _ ts (process-Fresh obv o w t h)

  step-Fresh :
      (e : Event) (p : Observer × World)
      → IsOrdinary key e
      → Fresh marshal key p
      → Fresh marshal key (step marshal redis e p)
  unfolding step
  step-Fresh (observe obv) (o, w) t h = process-Fresh obv o w t h
  step-Fresh ticked (o, w) t h = tick-Fresh o w h
  step-Fresh (drained obvs) (o, w) t h = drain-Fresh obvs o w t h
  step-Fresh (elsewhere f) (o, w) t h = record {
    held = h.held;
    own = h.own;
    calm = h.calm;
    holds = t w.store ∙ h.holds;
    timely = h.timely;
    held_timely = h.held_timely;
    behind = h.behind;
    shown = h.shown;
  }

  pub run-Fresh :
      (es : List Event) (p : Observer × World)
      → All (IsOrdinary key) es
      → Fresh marshal key p
      → Fresh marshal key (run marshal redis es p)
  unfolding run
  run-Fresh [] p t h = h
  run-Fresh (e ∷ es) p (t, ts) h = run-Fresh es _ ts (step-Fresh e p t h)

  -- A tick writes what is not written.
  pub tick-Reflects :
      (o : Observer) (w : World)
      → Fresh marshal key (o, w)
      → let t = tick marshal redis o w in
        (f : Fresh marshal key t) × Reflects marshal t.0.current f.held
  unfolding tick flush
  tick-Reflects o w h = elim (Bool-cases (o.last_written_version == o.version)) [
    | inl e ↦ rw e (h, h.shown (ground (arith, e)))
    | inr e ↦ let f = flush-Fresh o w h in rw e (f, f.shown refl)
  ]

-- A new observer whose hash is not there.
pub new_observer-Fresh :
    (marshal : Args → Option Text) (ns id : Text) (w : World)
    → w.faults ≡ []
    → at_key (Keys.worker_observation ns id) w ≡ []
    → Fresh marshal (Keys.worker_observation ns id) (new_observer ns id, w)
unfolding new_observer written
new_observer-Fresh marshal ns id w calm at = record {
  held = none;
  own = refl;
  calm = calm;
  holds = at;
  timely = tt;
  held_timely = tt;
  behind = omega arith;
  shown = λ _. ([], none, tt, refl);
}

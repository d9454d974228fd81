-- ===== src/Observer/Shown.antt =====
-- What the client's WorkerObservations reads from the hash that an observer wrote.
use work.Prelude.{◌≡◌, refl, ap, ◌∙◌, arith, true, false, List, [], Option, none, some, All}
use work.Prelude.Int.{pos}
use work.Job.{Args}
use work.Text.{Text}
use work.Text.Decimal.{parse_int-format}
use work.Keys
use work.Redis.{Redis, Key, IsDocumented, documented, of_documented}
use work.Conn.{World}
use work.Observer.{
  Observation, Observer, new_observer, args_json, has_checkin, tick, flush, write_status,
}
use work.Observer.Status.{
  Checkin, Status, hash_of, last_of, kept_checkin, written, at_key, write_status-Wrote,
}
use work.Observer.Current.{
  Event, run, IsOrdinary, Total, Reflects, StatusIsTimely, IsTimely, new_observer-Fresh, run-Fresh,
  tick-Reflects, CheckinIsTimely,
}
use work.Client.Pools.{WorkerObservation, idle_worker, read_observed, read_observed_field}

abbrev with_checkin : Option Checkin → WorkerObservation → WorkerObservation
with_checkin none ob = ob
with_checkin (some (t, at)) ob = record ob { checkin = t; checkin_at = pos at }

-- The worker as the client shows it, with its job and the check-in that stands in the hash.
abbrev pub busy_worker : Text → Observation → Text → Option Checkin → WorkerObservation
busy_worker id o json last = with_checkin last (record (idle_worker id) {
  is_busy = true;
  job_name = o.job_name;
  job_id = o.job_id;
  started_at = pos o.started_at;
  args_json = json;
})

abbrev shown_status : Text → Option Status → WorkerObservation
shown_status id none = idle_worker id
shown_status id (some s) = busy_worker id s.job s.args s.last

read_job :
    (id : Text) (o : Observation) (json : Text) (last : Option Checkin)
    → IsTimely o
    → CheckinIsTimely last
    → read_observed (hash_of (some (record { job = o; args = json; last = last }))) (idle_worker id)
      ≡ some (busy_worker id o json last)
unfolding read_observed read_observed_field
read_job id o json none t l = rw (parse_int-format o.started_at t.0) refl
read_job id o json (some (c, at)) t l =
    rw (parse_int-format o.started_at t.0, parse_int-format at l) refl

-- A hash that the observer wrote is read back.
pub read_observed-hash_of :
    (id : Text) (held : Option Status)
    → StatusIsTimely held
    → read_observed (hash_of held) (idle_worker id) ≡ some (shown_status id held)
unfolding read_observed
read_observed-hash_of id none t = refl
read_observed-hash_of id (some s) t = read_job id s.job s.args s.last t.0 t.1

-- The worker is shown idle without a current job, else with the job, and with its check-in if it
-- has one.
abbrev pub Shows :
    (Args → Option Text) → Text → Option Observation → Option WorkerObservation → Type 0
Shows marshal id none r = r ≡ some (idle_worker id)
Shows marshal id (some o) r =
    (json : Text) × (last : Option Checkin) × (args_json marshal o.arguments ≡ some json)
    × (has_checkin o ≡ true → last ≡ some (o.checkin, o.checkin_at))
    × (r ≡ some (busy_worker id o json last))

Reflects-Shows :
    (marshal : Args → Option Text) (id : Text) (c : Option Observation) (held : Option Status)
    → StatusIsTimely held
    → Reflects marshal c held
    → Shows marshal id c (read_observed (hash_of held) (idle_worker id))
unfolding written kept_checkin
Reflects-Shows marshal id none held t (json, before, e, h) =
    read_observed-hash_of id held t ∙ ap (λ s. some (shown_status id s)) h
Reflects-Shows marshal id (some o) held t (json, before, e, h) = (
  json,
  kept_checkin o (last_of before),
  e,
  (λ own. rw own refl),
  read_observed-hash_of id held t ∙ ap (λ s. some (shown_status id s)) h,
)

hgetall-at :
    (redis : Redis)
    → IsDocumented redis
    → (key : Key) (w : World) → redis.hgetall key w.store ≡ at_key key w
unfolding documented
hgetall-at redis d key w =
    of_documented (λ r. r.hgetall key w.store ≡ at_key key w) (λ before cjson. refl) redis d

-- Behind a tick, the client shows what the observer observes: the worker is idle if it runs no job,
-- and else busy with the current job, its id, start and arguments, and with its check-in if it has
-- one. Before the tick there may be any observations, ticks and drains, and between them changes of
-- the store by other programs, which leave the worker's hash alone. The hash was not there at first,
-- Redis answers, the arguments can be encoded, and the times are int64s.
pub observed-Shows :
    (marshal : Args → Option Text) (redis : Redis)
    → Total marshal
    → IsDocumented redis
    → (ns id : Text) (es : List Event) (w : World) → w.faults ≡ []
    → w.store.hashes (Keys.worker_observation ns id) ≡ []
    → All (IsOrdinary (Keys.worker_observation ns id)) es
    → let p = run marshal redis es (new_observer ns id, w) in
      let (o, v) = tick marshal redis p.0 p.1 in
      Shows marshal id o.current
        (read_observed (redis.hgetall (Keys.worker_observation ns id) v.store) (idle_worker id))
observed-Shows marshal redis total doc ns id es w calm missing ordinary =
    let key = Keys.worker_observation ns id in
    let fresh =
      run-Fresh marshal total redis doc key es (new_observer ns id, w) ordinary
        (new_observer-Fresh marshal ns id w calm missing) in
    let p = run marshal redis es (new_observer ns id, w) in
    let (f, reflects) = tick-Reflects marshal total redis doc key p.0 p.1 fresh in
    let t = tick marshal redis p.0 p.1 in
    let at : redis.hgetall key t.1.store ≡ hash_of f.held =
      hgetall-at redis doc key t.1 ∙ f.holds in
    rw at (Reflects-Shows marshal id t.0.current f.held f.held_timely reflects)

-- A job's check-in is shown with the next job that the worker runs, if the status of the next is
-- written before it has a check-in of its own and with no deletion between. Redis answers, and the
-- times are int64s.
pub write_status-stale :
    (marshal : Args → Option Text) (redis : Redis)
    → IsDocumented redis
    → (ns id : Text) (o p : Observation) (json text : Text) (w : World) → w.faults ≡ []
    → w.store.hashes (Keys.worker_observation ns id) ≡ []
    → args_json marshal o.arguments ≡ some json
    → args_json marshal p.arguments ≡ some text
    → IsTimely o
    → IsTimely p
    → has_checkin o ≡ true
    → has_checkin p ≡ false
    → let key = Keys.worker_observation ns id in
      let first = (write_status marshal redis key (some o) w).1 in
      let second = (write_status marshal redis key (some p) first).1 in
      read_observed (redis.hgetall key second.store) (idle_worker id)
      ≡ some (busy_worker id p text (some (o.checkin, o.checkin_at)))
unfolding written kept_checkin
write_status-stale marshal redis doc ns id o p json text w calm missing e f to tp own without =
    let key = Keys.worker_observation ns id in
    let (hash, quiet) =
      write_status-Wrote marshal redis doc key (some o) json none w e missing calm in
    let first = (write_status marshal redis key (some o) w).1 in
    let (hash', quiet') =
      write_status-Wrote marshal redis doc key (some p) text (written json (some o) none) first f
        hash quiet in
    let second = (write_status marshal redis key (some p) first).1 in
    let last : kept_checkin p (kept_checkin o none) ≡ some (o.checkin, o.checkin_at) =
      rw (own, without) refl in
    ap (λ h. read_observed h (idle_worker id)) (hgetall-at redis doc key second ∙ hash')
    ∙ ap
        (λ l.
          read_observed (hash_of (some (record { job = p; args = text; last = l })))
            (idle_worker id))
        last
    ∙ read_job id p text (some (o.checkin, o.checkin_at)) tp to.1

-- A tick right behind another one does nothing, even if the write of the first was lost or failed:
-- what Redis then shows stays until the next observation.
tick-failed :
    (marshal : Args → Option Text) (redis : Redis) (o : Observer) (w v : World)
    → let p = (tick marshal redis o w).0 in tick marshal redis p v ≡ (p, v)
unfolding tick flush
tick-failed marshal redis o w v = ground arith

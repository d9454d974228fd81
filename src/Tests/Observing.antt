-- ===== src/Tests/Observing.antt =====
-- Examples of the observer, with a check-in, another program's write and a job after the first.
use work.Prelude.{◌++◌, none, false, ◌≡◌, refl, arith, List, [], ◌∷◌, Option, some, All}
use work.Text.{Text, text, Text-discrete}
use work.Job.{Args}
use work.Keys
use work.Redis.{Store, Key, update}
use work.Conn.{World, request_lost}
use work.Observer.{
  Observation, new_observer, observe_started, observe_done, observe_checkin, has_checkin, args_json,
  tick, write_status,
}
use work.Observer.Current.{Event, observe, drained, elsewhere, run, IsOrdinary}
use work.Observer.Shown.{busy_worker, Shows, observed-Shows, write_status-stale}
use work.Client.Pools.{idle_worker, read_observed}
use work.Worker.{JobType}
use work.Worker.Observed.{
  args_of, observations_before, observations_of, all_observed, checked, shown_after,
  observations-Shows,
}
use work.Tests.{mail, redis, redis-IsDocumented, empty_store, world_on}

abbrev marshal : Args → Option Text
marshal a = some (text "{}")

abbrev first : Observation
first = observe_started (text "m") (text "1") [] 7

abbrev key : Key
key = Keys.worker_observation (text "n") (text "w")

-- Another program's change.
abbrev meanwhile : Store → Store
meanwhile s = record s { hashes = update s.hashes (text "x") [] }

abbrev turns : List Event
turns =
    observe first
    ∷ observe (observe_checkin (text "m") (text "1") (text "half") 8)
    ∷ elsewhere meanwhile
    ∷ drained (observe_done (text "m") (text "1") ∷ observe_started (text "m") (text "2") [] 9 ∷ [])
    ∷ []

turns-IsOrdinary : All (IsOrdinary key) turns
unfolding observe_started observe_checkin observe_done Keys.worker_observation Keys.namespace_prefix
    Text-discrete
turns-IsOrdinary = (
  (omega arith, omega arith),
  (
    (omega arith, omega arith),
    ((λ s. refl), (((omega arith, omega arith), ((omega arith, omega arith), tt)), tt)),
  ),
)

observed-Shows_example :
    let p = run marshal redis turns (new_observer (text "n") (text "w"), world_on empty_store) in
    let (o, v) = tick marshal redis p.0 p.1 in
    Shows marshal
      (text "w")
      o.current
      (read_observed (redis.hgetall key v.store) (idle_worker (text "w")))
observed-Shows_example =
    observed-Shows marshal redis (λ a. (text "{}", refl)) redis-IsDocumented (text "n") (text "w")
      turns (world_on empty_store) refl refl turns-IsOrdinary

abbrev with_half : Observation
with_half = record first { checkin = text "half"; checkin_at = 8 }

write_status-stale_example :
    let v = (write_status marshal redis key (some with_half) (world_on empty_store)).1 in
    let u = (write_status marshal redis key (some first) v).1 in
    read_observed (redis.hgetall key u.store) (idle_worker (text "w"))
    ≡ some (busy_worker (text "w") first [] (some (text "half", 8)))
unfolding observe_started has_checkin args_json
write_status-stale_example =
    write_status-stale marshal redis redis-IsDocumented (text "n") (text "w") with_half first [] []
      (world_on empty_store) refl refl refl refl (omega arith, omega arith)
      (omega arith, omega arith) refl refl

-- The write is lost with its request.
abbrev cut : World
cut = record (world_on empty_store) { faults = request_lost ∷ [] }

abbrev type_m : JobType
type_m = record {
  name = text "m";
  priority = 1;
  max_fails = 4;
  skip_dead = false;
  max_concurrency = 0;
  backoff = none;
}

-- A second job, with a check-in.
observations-Shows_example :
    Shows marshal
      (text "w")
      (some (
        checked (observe_started mail.name mail.id (args_of mail.args) 9) ((text "half", 10) ∷ [])))
      (shown_after marshal redis
        (text "n")
        (text "w")
        (turns ++ all_observed (observations_before (some type_m) mail 9 ((text "half", 10) ∷ [])))
        (world_on empty_store))
    × (shown_after marshal redis
          (text "n")
          (text "w")
          (turns ++ all_observed (observations_of (some type_m) mail 9 ((text "half", 10) ∷ [])))
          (world_on empty_store)
        ≡ some (idle_worker (text "w")))
observations-Shows_example =
    observations-Shows marshal redis (λ a. (text "{}", refl)) redis-IsDocumented (text "n")
      (text "w") turns (world_on empty_store) type_m mail 9 ((text "half", 10) ∷ []) refl refl
      turns-IsOrdinary (omega arith, (omega arith, tt))

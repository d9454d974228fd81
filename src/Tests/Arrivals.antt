-- ===== src/Tests/Arrivals.antt =====
-- Examples of jobs that come back: a scheduled one, and one whose handler fails.
use work.Prelude.{◌+◌, refl, [], ◌∷◌, Option, none, some, arith, false}
use work.Text.{Text, text, Text-discrete}
use work.Job.{Job, failed, serialize}
use work.Keys
use work.Redis.{z_range}
use work.Conn.{World}
use work.Enqueuer.{new_enqueuer, new_job_of, enqueue_at}
use work.Scripts.Requeue.{has_key}
use work.Worker.{JobType, calc_backoff, process_job, find_type}
use work.Requeuer.{new_requeuer, process}
use work.Requeuer.Due.{Turned}
use work.Requeuer.Arrival.{enqueue_at-process, process_job-process}
use work.Tests.{redis, redis-IsDocumented, encode, empty_store, world_on, with_zset, mail}

-- Another scheduled job is due at 99.
abbrev planned : World
planned = world_on (with_zset (Keys.scheduled (text "n")) ((99, serialize mail) ∷ []))

abbrev calm_world : World
calm_world = world_on empty_store

-- It is due at 9, and the scheduler comes at 12.
enqueue_at-process_example :
    let v =
      (enqueue_at redis (new_enqueuer (text "n") 0) (text "m") 9 none (text "1") 7 planned).1 in
    let r = new_requeuer (text "n") (Keys.scheduled (text "n")) (text "m" ∷ []) in
    Turned redis r 9 12 (new_job_of (text "m") (text "1") 7 none) v (process redis r 12 v)
unfolding has_key Text-discrete z_range Keys.scheduled Keys.namespace_prefix
enqueue_at-process_example =
    enqueue_at-process redis redis-IsDocumented (text "n") (text "m") (text "m" ∷ []) 9 none
      (text "1") 7 12 planned refl refl (λ e. absurd (cc)) refl

abbrev type_m : JobType
type_m = record {
  name = text "m";
  priority = 1;
  max_fails = 4;
  skip_dead = false;
  max_concurrency = 0;
  backoff = some (λ j. 60);
}

abbrev fails : JobType → Job → Option Text
fails jt job = some (text "bad")

-- The retrier comes before the backoff of a minute is over.
process_job-process_example :
    let v =
      (process_job encode redis (text "n") (text "p") (type_m ∷ []) fails 7 0 mail calm_world).1 in
    let f = failed 7 (text "bad") mail in
    let r = new_requeuer (text "n") (Keys.retry (text "n")) (text "m" ∷ []) in
    Turned redis r (7 + calc_backoff 0 type_m.backoff f) 12 f v (process redis r 12 v)
unfolding has_key find_type Text-discrete z_range calc_backoff
process_job-process_example =
    process_job-process encode redis redis-IsDocumented (text "n") (text "p") (text "m" ∷ [])
      (type_m ∷ []) fails 7 0 12 mail type_m (text "bad") calm_world refl refl refl refl
      (omega arith) (omega arith) (omega arith) refl (λ e. absurd (cc)) refl

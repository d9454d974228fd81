-- ===== src/Tests/Ordering.antt =====
-- Examples of jobs that are enqueued and then served.
use work.Prelude.{◌≡◌, refl, List, [], ◌∷◌, Option, none, some, map, inr, arith, false, true}
use work.Prelude.Int.{pos}
use work.Text.{Text, text, Text-discrete}
use work.Job.{Job, int}
use work.Keys
use work.Redis.{Store, update}
use work.Conn.{World}
use work.Sampler.{SampleItem}
use work.Worker.{JobType, keys_of}
use work.Worker.Process.{Restored}
use work.Worker.InOrder.{Order, Ready, enqueue_all, serve}
use work.Worker.InOrder.Delivered.{read_by_worker, serve-enqueue_all}
use work.Enqueuer.{run_unique_script}
use work.Enqueuer.Uniquely.{Placed}
use work.Scripts.Unique.{Status}
use work.Worker.{process_job, job_to_run}
use work.Worker.Process.{calm}
use work.Worker.Uniqueness.{latest, run_unique_script-process_job}
use work.Tests.{sends, mail, redis, redis-IsDocumented, encode, empty_store, world_on}

abbrev item : SampleItem
item = record { priority = 1; payload = keys_of (text "n") (text "p") (text "m") }

abbrev type_m : JobType
type_m = record {
  name = text "m";
  priority = 1;
  max_fails = 4;
  skip_dead = false;
  max_concurrency = 1;
  backoff = none;
}

-- One job at a time.
abbrev limited : World
limited = world_on (record empty_store {
  counters =
      update empty_store.counters (Keys.jobs_concurrency (text "n") (text "m")) (some (pos 1));
})

limited-Ready : Ready (text "n") (text "p") (text "m") [] limited.store
unfolding Keys.jobs_concurrency Keys.jobs_lock Keys.jobs Keys.jobs_prefix Keys.namespace_prefix
    Text-discrete
limited-Ready = record { waiting = refl; unpaused = refl; room = inr (omega arith) }

abbrev fails : JobType → Job → Option Text
fails jt job = some (text "bad")

abbrev orders : List Order
orders =
    record { id = text "1"; arguments = some ((text "x", int (pos 1)) ∷ []); at = 7 }
    ∷ record { id = text "2"; arguments = none; at = 8 }
    ∷ []

serve-enqueue_all_example :
    let r =
      serve encode redis
        (text "n")
        (text "p")
        (item ∷ [])
        (type_m ∷ [])
        fails
        (λ n. 9)
        (λ n. 0)
        2
        (enqueue_all redis (text "n") (text "m") orders limited) in
    (r.0 ≡ map (read_by_worker (text "n") (text "p") (text "m")) orders)
    × Ready (text "n") (text "p") (text "m") [] r.1.store
    × Restored (keys_of (text "n") (text "p") (text "m")) (text "p") limited.store r.1.store
serve-enqueue_all_example =
    serve-enqueue_all encode redis redis-IsDocumented (text "n") (text "p") (text "m") item []
      (type_m ∷ []) fails (λ n. 9) (λ n. 0) orders limited refl refl limited-Ready

-- A unique job, which is enqueued twice and then processed.
abbrev first_job : Job
first_job = record mail { unique = true; unique_key = text "k" }

abbrev second_job : Job
second_job = record first_job {
  id = text "2";
  enqueued_at = 9;
  args = some ((text "x", int (pos 1)) ∷ []);
}

abbrev waiting : Store
waiting = (run_unique_script encode redis sends none (text "m") (some []) first_job empty_store).1

run_unique_script-process_job_example :
    let t = (run_unique_script encode redis sends none (text "m") (some []) second_job waiting).1 in
    let u =
      (process_job encode redis
        (text "n")
        (text "p")
        (type_m ∷ [])
        fails
        9
        0
        first_job
        (calm t limited)).1.store in
    let r = run_unique_script encode redis sends (some 99) (text "m") none first_job u in
    ((job_to_run encode redis (text "n") (text "p") first_job (calm t limited)).0
      ≡ latest (some []) second_job first_job)
    × (u.strings second_job.unique_key ≡ none)
    × (r.0 ≡ Status.ok)
    × Placed redis sends (some 99) (text "m") first_job u r.1
run_unique_script-process_job_example =
    run_unique_script-process_job encode redis redis-IsDocumented sends none (some 99) (text "m")
      (text "m") (some []) none second_job first_job first_job (text "n") (text "p") (type_m ∷ [])
      fails 9 0 waiting limited refl refl refl (λ e. absurd (cc))

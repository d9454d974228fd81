-- ===== src/Tests/Sets.antt =====
-- Examples of the sorted sets: retried, scheduled and dead jobs.
use work.Prelude.{true, ◌≡◌, ◌≢◌, refl, arith, [], ◌∷◌, ap, length, length-append}
use work.Text.{text}
use work.Job.{Job, serialize}
use work.Job.RoundTrip.{read_back}
use work.Keys
use work.Redis.{z_range, ZSet}
use work.Scripts.Requeue.{script_error}
use work.Requeuer.{Requeuer, run_script, process_all}
use work.Requeuer.Drain.{Drained, process_all_lem}
use work.Requeuer.Nameless.{without, requeue_nameless}
use work.Conn.{World, ok}
use work.Client.{delete_scheduled_job}
use work.Client.Unscheduled.{Unscheduled, delete_scheduled_job-Unscheduled}
use work.Prelude.Int.{pos}
use work.Tests.{redis, redis-IsDocumented, mail, encode, world_on, with_zset}

abbrev due_mail : ZSet
due_mail = (5, serialize mail) ∷ []

abbrev retrier : Requeuer
retrier = record {
  namespace = text "n";
  requeue_key = Keys.retry (text "n");
  job_names = text "m" ∷ [];
}

retry-ne-dead : Keys.retry (text "n") ≢ Keys.dead (text "n")
unfolding Keys.retry Keys.dead
retry-ne-dead e =
    let p = Keys.namespace_prefix (text "n") in
    absurd
      (omega (arith, ap length e, length-append p (text "retry"), length-append p (text "dead")))

process_all_lem_example :
    Drained redis retrier
      (λ n. 9)
      2
      (world_on (with_zset (Keys.retry (text "n")) due_mail))
      []
      (process_all redis retrier (λ n. 9) 2 (world_on (with_zset (Keys.retry (text "n")) due_mail)))
unfolding serialize
process_all_lem_example =
    process_all_lem redis redis-IsDocumented retrier (λ n. 9) 2
      (world_on (with_zset (Keys.retry (text "n")) due_mail)) retry-ne-dead (ground arith)
      (ground arith)

abbrev nameless : Job
nameless = record mail { name = [] }

requeue_nameless_example :
    run_script redis retrier 9 (with_zset (Keys.retry (text "n")) ((5, serialize nameless) ∷ []))
    ≡ (
      script_error,
      without retrier nameless (with_zset (Keys.retry (text "n")) ((5, serialize nameless) ∷ [])),
    )
unfolding z_range
requeue_nameless_example =
    requeue_nameless redis redis-IsDocumented retrier 9 5
      (with_zset (Keys.retry (text "n")) ((5, serialize nameless) ∷ [])) nameless [] refl
      (ground arith)

-- A job that is unique under another key than the one that its arguments give.
abbrev keyed : Job
keyed = record mail { unique = true; unique_key = text "k" }

abbrev planned : World
planned = world_on (with_zset (Keys.scheduled (text "n")) ((5, serialize keyed) ∷ []))

delete_scheduled_job-Unscheduled_example :
    let r = delete_scheduled_job redis encode (text "n") (pos 5) keyed.id planned in
    (r.0 ≡ ok tt)
    × Unscheduled
        (Keys.scheduled (text "n"))
        (Keys.unique_job encode (text "n") keyed.name (read_back keyed).args)
        keyed
        planned.store
        r.1.store
unfolding z_range
delete_scheduled_job-Unscheduled_example =
    delete_scheduled_job-Unscheduled encode redis redis-IsDocumented (text "n") 5 keyed planned
      (ground arith) refl refl

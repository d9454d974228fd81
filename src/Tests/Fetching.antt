-- ===== src/Tests/Fetching.antt =====
-- Examples of fetching, running and recovering jobs.
use work.Prelude.{refl, arith, [], ◌∷◌, none, some, inl}
use work.Text.{text}
use work.Job.{Job, serialize, marshal_args, unmarshal_args}
use work.Redis.{Store}
use work.Scripts.Fetch.{FetchKeys, fetch_job}
use work.Scripts.Fetch.Choice.{Choice, taken, fetch_job_lem}
use work.Scripts.Fetch.Limit.{Within, fetch_job-Within}
use work.Scripts.Reenqueue.{RequeueKeys}
use work.Reaper.{requeue_loop}
use work.Reaper.Loop.{Ended, requeue_loop_lem}
use work.Worker.{keys_of, process_job}
use work.Worker.Process.{Restored, process_job-Restored, calm}
use work.Job.RoundTrip.{new_job-serialize}
use work.Tests.{redis, redis-IsDocumented, encode, mail, world_on, with_list}

abbrev keys : FetchKeys
keys = record {
  job_queue = text "q";
  in_prog_queue = text "p";
  pause_key = text "s";
  lock_key = text "l";
  lock_info_key = text "i";
  concurrency_key = text "c";
}

abbrev waiting : Store
waiting = with_list (text "q") (serialize mail ∷ [])

fetch_job_lem_example :
    Choice (keys ∷ []) (text "w") waiting (fetch_job redis (keys ∷ []) (text "w") waiting)
fetch_job_lem_example = fetch_job_lem redis redis-IsDocumented (keys ∷ []) (text "w") waiting

fetch_job-Within_example :
    Within (text "l") (text "c") (fetch_job redis (keys ∷ []) (text "w") waiting).1
fetch_job-Within_example =
    fetch_job-Within redis redis-IsDocumented (text "l") (text "c") (keys ∷ []) (text "w") waiting
      (((λ e. refl), ground arith), tt) (λ m e. absurd (ground arith))

abbrev own : FetchKeys
own = keys_of (text "n") (text "w") (text "m")

abbrev queued : Store
queued = with_list own.job_queue (serialize mail ∷ [])

abbrev mail_read : Job
mail_read = record mail {
  raw_json = serialize mail;
  dequeued_from = own.job_queue;
  in_prog_queue = own.in_prog_queue;
}

process_job-Restored_example :
    Restored own
      (text "w")
      queued
      (process_job encode redis
        (text "n")
        (text "w")
        []
        (λ jt j. none)
        9
        3
        mail_read
        (calm (taken own (text "w") [] (serialize mail) queued) (world_on queued))).1.store
unfolding unmarshal_args marshal_args
process_job-Restored_example =
    process_job-Restored encode redis redis-IsDocumented (text "n") (text "w") [] (λ jt j. none) 9 3
      own queued (world_on queued)
      (record {
        res = some (serialize mail);
        job_queue = own.job_queue;
        in_prog_queue = own.in_prog_queue;
      })
      (taken own (text "w") [] (serialize mail) queued) (serialize mail) mail_read
      ([], serialize mail, ground arith, refl) refl
      (new_job-serialize mail own.job_queue own.in_prog_queue) refl refl

abbrev lost : RequeueKeys
lost = record {
  in_prog_queue = text "p";
  job_queue = text "q";
  lock_key = text "l";
  lock_info_key = text "i";
}

abbrev in_flight : Store
in_flight = with_list (text "p") (serialize mail ∷ [])

requeue_loop_lem_example :
    Ended
      (lost ∷ [])
      (text "w")
      in_flight
      []
      (requeue_loop redis 2 (lost ∷ []) (text "w") (world_on in_flight))
requeue_loop_lem_example =
    requeue_loop_lem redis redis-IsDocumented 2 (lost ∷ []) (text "w") (world_on in_flight)
      (record { own = ground arith; others = (inl refl, tt) }, tt) (ground arith)

-- ===== src/Tests/Jobs.antt =====
-- Examples of enqueueing and of the fate of a job.
use work.Prelude.{ℕ, ◌≡◌, ◌<◌, refl, arith, [], ◌∷◌, none, some, false}
use work.Text.{text}
use work.Job.{Job, int, float}
use work.Prelude.Int.{pos}
use work.Enqueuer.{enqueue, new_job_of, run_unique_script, updated_of}
use work.Enqueuer.Plain.{Enqueued, enqueue_lem}
use work.Enqueuer.Uniquely.{Ran, run_unique_script_lem, run_unique_script_twice}
use work.Scripts.Unique.{dup}
use work.Worker.{JobType}
use work.Worker.Fate.{after_failures, KeptJob, after_failures-max_fails}
use work.Tests.{redis, redis-IsDocumented, encode, empty_store, mail, sends, world_on}

-- An integer, and one and a half.
abbrev counting : Job
counting = record mail { args = some ((text "n", int (pos 5)) ∷ (text "f", float (pos 3) 1) ∷ []) }

enqueue_lem_example :
    Enqueued sends
      (new_job_of (text "m") (text "1") 7 none)
      (world_on empty_store)
      (enqueue redis sends (text "m") none (text "1") 7 (world_on empty_store))
enqueue_lem_example =
    enqueue_lem redis redis-IsDocumented sends (text "m") none (text "1") 7 (world_on empty_store)
      (λ name t e. absurd (ground arith))

run_unique_script_lem_example :
    Ran redis sends
      (some 9)
      (text "m")
      (some [])
      mail
      empty_store
      (run_unique_script encode redis sends (some 9) (text "m") (some []) mail empty_store)
run_unique_script_lem_example =
    run_unique_script_lem encode redis redis-IsDocumented sends (some 9) (text "m") (some []) mail
      empty_store

run_unique_script_twice_example :
    let t = (run_unique_script encode redis sends none (text "m") (some []) mail empty_store).1 in
    let r = run_unique_script encode redis sends (some 9) (text "m") (some []) mail t in
    (r.0 ≡ dup)
    × (r.1.lists ≡ t.lists)
    × (r.1.zsets ≡ t.zsets)
    × (r.1.strings mail.unique_key ≡ some (updated_of (some []) mail))
run_unique_script_twice_example =
    run_unique_script_twice encode redis redis-IsDocumented sends none (some 9) (text "m")
      (text "m") (some []) (some []) mail mail empty_store refl

abbrev two_tries : JobType
two_tries = record {
  name = text "m";
  priority = 1;
  max_fails = 2;
  skip_dead = false;
  max_concurrency = 0;
  backoff = none;
}

after_failures-max_fails_example :
    let after =
      after_failures redis two_tries
        (text "q")
        (text "p")
        (λ n. n)
        (λ n. n)
        (λ n. 0)
        (λ n. text "bad") in
    ((n : ℕ)
      → n < 2
      → KeptJob redis two_tries
          (text "q")
          (text "p")
          (λ n. n)
          (λ n. n)
          (λ n. 0)
          (λ n. text "bad")
          n
          counting
          (after n counting))
    × (after 2 counting ≡ none)
after_failures-max_fails_example =
    after_failures-max_fails redis two_tries (text "q") (text "p") (λ n. n) (λ n. n) (λ n. 0)
      (λ n. text "bad") counting refl (omega arith) (omega arith)

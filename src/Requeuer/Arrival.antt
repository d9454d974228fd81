-- ===== src/Requeuer/Arrival.antt =====
-- From EnqueueAt (enqueue.go), or a failed run of a job (worker.go), to the queue of its job type.
use mathlib.Core.Path.{ap₂}
use work.Prelude.{
  ℕ, suc, ◌+◌, ◌<◌, ◌≡◌, ◌≢◌, refl, ap, ◌∙◌, Bool, true, false, List, [], Option, some, arith,
  if_pos,
}
use work.Text.{Text, Text-discrete}
use work.Job.{Args, Blob, Job, serialize, failed}
use work.Keys
use work.Redis.{
  Redis, Store, Key, ZSet, documented, update, z_insert, z_remove, z_range, IsDocumented,
  of_documented,
}
use work.Redis.Ranges.{z_range-z_remove}
use work.Conn.{World}
use work.Enqueuer.{
  Enqueuer, ScheduledJob, new_enqueuer, new_job_of, enqueue_at, redis_do_helper, receive_wait,
  add_to_known_jobs,
}
use work.Enqueuer.Plain.{registered-world}
use work.Scripts.Requeue.{has_key}
use work.Worker.Fate.{has_tries-more, retry_at-in_range}
use work.Worker.{
  half_word, JobType, TerminateOp, terminate_and_retry, calc_backoff, process_job, find_type,
  run_error, fate_of, job_fate, settle, apply_fate,
}
use work.Worker.Process.{process_plain}
use work.Worker.Loop.Quiet.{process_job-Quiet}
use work.Requeuer.{new_requeuer, process}
use work.Requeuer.Due.{Turned, process-Turned}

module _ (before : Blob → Blob → Bool) (cjson : Option Args → Option Args) where
  abbrev d : Redis
  d = documented before cjson

  -- A set with the job put in anew.
  abbrev with_job : ℕ → Job → ZSet → ZSet
  with_job at j z = z_insert before at (serialize j) (z_remove (serialize j) z)

  known_zsets :
      (e : Enqueuer) (name : Text) (now : ℕ) (w : World)
      → w.faults ≡ []
      → let v = (add_to_known_jobs d e name now w).1 in
        (v.faults ≡ []) × (v.store.zsets ≡ w.store.zsets)
  unfolding add_to_known_jobs documented
  known_zsets e name now w c = (ground (arith, c), ground (arith, c))

  enqueue_at-calm :
      (ns name : Text) (at : ℕ) (args : Option Args) (id : Text) (now : ℕ) (w : World)
      → w.faults ≡ []
      → let v = (enqueue_at d (new_enqueuer ns 0) name at args id now w).1 in
        (v.faults ≡ [])
        × (v.store.zsets (Keys.scheduled ns)
            ≡ with_job at (new_job_of name id now args) (w.store.zsets (Keys.scheduled ns)))
  unfolding enqueue_at documented new_enqueuer redis_do_helper receive_wait
  enqueue_at-calm ns name at args id now w c =
      let j = new_job_of name id now args in
      let key = Keys.scheduled ns in
      let v : World = record w {
        store = record w.store {
          zsets = update w.store.zsets key (with_job at j (w.store.zsets key));
        };
        faults = [];
      } in
      let (quiet, zsets) = known_zsets (new_enqueuer ns 0) name now v refl in
      let done : ScheduledJob = record { run_at = at; job = j } in
      rw (c, registered-world done (add_to_known_jobs d (new_enqueuer ns 0) name now v))
        (quiet, ap (λ (l : Key → ZSet). l key) zsets ∙ if_pos (Text-discrete key key) refl _ _)

-- A job that is enqueued for a time `at` stays in the scheduled set until then, and when the scheduler
-- comes, once at `later`, then: if the job is due, it leaves the set and is the newest job of its
-- queue, where a worker reads it as it was enqueued, but with the time of the move as that of its
-- enqueue and with its arguments as JSON and cjson leave them; if it is not, nothing happens. Redis
-- answers, the Enqueuer waits for no replicas, no other scheduled job is due, and the scheduler knows
-- the name, which is not empty.
pub enqueue_at-process :
    (redis : Redis)
    → IsDocumented redis
    → (ns name : Text) (names : List Text) (at : ℕ) (args : Option Args) (id : Text) (now later : ℕ)
      (w : World)
    → w.faults ≡ []
    → z_range 0 later (w.store.zsets (Keys.scheduled ns)) ≡ []
    → name ≢ []
    → has_key name names ≡ true
    → let v = (enqueue_at redis (new_enqueuer ns 0) name at args id now w).1 in
      let r = new_requeuer ns (Keys.scheduled ns) names in
      Turned redis r at later (new_job_of name id now args) v (process redis r later v)
unfolding new_requeuer new_job_of
enqueue_at-process redis documents ns name names at args id now later w c nothing named known =
    let r = new_requeuer ns (Keys.scheduled ns) names in
    let j = new_job_of name id now args in
    of_documented
      (λ d.
        let v = (enqueue_at d (new_enqueuer ns 0) name at args id now w).1 in
        Turned d r at later j v (process d r later v))
      (λ before cjson.
        let (quiet, held) = enqueue_at-calm before cjson ns name at args id now w c in
        process-Turned before cjson r at later
          (z_remove (serialize j) (w.store.zsets (Keys.scheduled ns))) j _ quiet
          (z_range-z_remove before later (serialize j) _ nothing) held named known)
      redis documents

module _ (encode : Args → Text) (before : Blob → Blob → Bool) (cjson : Option Args → Option Args)
    (ns pool : Text) where
  settle-retry :
      (job : Job) (at : ℕ) (j : Job) (b : Blob) (s : Store)
      → (settle encode
            (documented before cjson)
            ns
            pool
            job
            (terminate_and_retry at (serialize j))
            b
            s).zsets
          (Keys.retry ns)
        ≡ with_job before cjson at j (s.zsets (Keys.retry ns))
  unfolding settle apply_fate documented
  settle-retry job at j b s = if_pos (Text-discrete (Keys.retry ns) (Keys.retry ns)) refl _ _

  -- A failure with tries left.
  fate_of-retry :
      (now draw : ℕ) (jt : JobType) (message : Text) (job : Job)
      → suc job.fails < jt.max_fails
      → jt.max_fails < half_word
      → now + calc_backoff draw jt.backoff (failed now message job) < half_word
      → let f = failed now message job in
        fate_of now draw (some jt) (some message) job
        ≡ (f, terminate_and_retry (now + calc_backoff draw jt.backoff f) (serialize f))
  unfolding fate_of job_fate failed
  fate_of-retry now draw jt message job h small soon =
      let more = has_tries-more jt.max_fails (job.fails + 1) small (omega arith) in
      rw (more, retry_at-in_range now _ soon) refl

  process_job-retry :
      (jts : List JobType) (run : JobType → Job → Option Text) (now draw : ℕ) (job : Job)
      (jt : JobType) (message : Text) (w : World)
      → w.faults ≡ []
      → job.unique ≡ false
      → find_type job.name jts ≡ some jt
      → run jt job ≡ some message
      → suc job.fails < jt.max_fails
      → jt.max_fails < half_word
      → now + calc_backoff draw jt.backoff (failed now message job) < half_word
      → let f = failed now message job in
        (process_job encode (documented before cjson) ns pool jts run now draw job w).1.store.zsets
          (Keys.retry ns)
        ≡ with_job before cjson
            (now + calc_backoff draw jt.backoff f)
            f
            (w.store.zsets (Keys.retry ns))
  unfolding run_error
  process_job-retry jts run now draw job jt message w c plain found fails tries small soon =
      let d = documented before cjson in
      let f = failed now message job in
      let ran : run_error run (find_type job.name jts) job ≡ some message =
        rw (found, run_error) fails in
      let fate =
        ap₂ (λ (o : Option JobType) (e : Option Text). fate_of now draw o e job) found ran
        ∙ fate_of-retry now draw jt message job tries small soon in
      ap
        (λ fs.
          (process_job encode d ns pool jts run now draw job
              (record w { faults = fs })).1.store.zsets
            (Keys.retry ns))
        c
      ∙ ap (λ (s : Store). s.zsets (Keys.retry ns))
          (process_plain encode before cjson ns pool jts run now draw w.store w job plain)
      ∙ ap
          (λ (p : Job × TerminateOp).
            (settle encode d ns pool p.0 p.1 job.raw_json w.store).zsets (Keys.retry ns))
          fate
      ∙ settle-retry f (now + calc_backoff draw jt.backoff f) f job.raw_json w.store

-- A job that is not unique and whose handler fails, with tries left after this one, waits in the retry
-- set for its backoff. When the retrier comes, once at `later`, then: if the backoff is over, the job
-- leaves the set and is the newest of its queue, where a worker reads it with the failure counted and
-- with its message and time; if it is not over, nothing happens. Redis answers, no other retry is due,
-- the retrier knows the job's name, which is not empty, and MaxFails and the end of the backoff are
-- int64s that are not negative. The arguments are as JSON and cjson leave them.
pub process_job-process :
    (encode : Args → Text) (redis : Redis)
    → IsDocumented redis
    → (ns pool : Text) (names : List Text) (job_types : List JobType)
      (run : JobType → Job → Option Text) (now draw later : ℕ) (job : Job) (jt : JobType)
      (message : Text) (w : World)
    → w.faults ≡ []
    → job.unique ≡ false
    → find_type job.name job_types ≡ some jt
    → run jt job ≡ some message
    → suc job.fails < jt.max_fails
    → jt.max_fails < half_word
    → now + calc_backoff draw jt.backoff (failed now message job) < half_word
    → z_range 0 later (w.store.zsets (Keys.retry ns)) ≡ []
    → job.name ≢ []
    → has_key job.name names ≡ true
    → let v = (process_job encode redis ns pool job_types run now draw job w).1 in
      let f = failed now message job in
      let r = new_requeuer ns (Keys.retry ns) names in
      Turned redis r (now + calc_backoff draw jt.backoff f) later f v (process redis r later v)
unfolding new_requeuer failed
process_job-process encode redis documents ns pool names jts run now draw later job jt message w c
      plain found fails tries small soon nothing named known =
    let r = new_requeuer ns (Keys.retry ns) names in
    let f = failed now message job in
    let at = now + calc_backoff draw jt.backoff f in
    of_documented
      (λ d.
        let v = (process_job encode d ns pool jts run now draw job w).1 in
        Turned d r at later f v (process d r later v))
      (λ before cjson.
        process-Turned before cjson r at later
          (z_remove (serialize f) (w.store.zsets (Keys.retry ns))) f _
          (process_job-Quiet encode before cjson ns pool jts run now draw job w c).calm
          (z_range-z_remove before later (serialize f) _ nothing)
          (process_job-retry encode before cjson ns pool jts run now draw job jt message w c plain
            found fails tries small soon)
          named known)
      redis documents

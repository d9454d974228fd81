-- ===== src/Enqueuer.antt =====
-- enqueue.go: jobs are pushed onto their queue or added to the scheduled set, once or uniquely.
-- The random identifier and the time are arguments. Arguments that are no JSON are not modelled.
pub mod Plain
pub mod Uniquely
pub mod Bulk
pub mod Unique
use work.Prelude.{
  ℕ, ◌+◌, ltb, not, Bool, true, false, [], ◌∷◌, ◌++◌, Option, none, some, if◌then◌else◌,
}
use work.Text.{Text, text}
use work.Job.{Args, Blob, raw, Job, serialize}
use work.Keys
use work.Redis.{Redis, Store, update}
use work.Conn.{
  World, Error, replication_failed, ok, err, M, ◌>>=◌, ◌>>◌, pure, fail, call, command, wait,
  Result,
}
use work.Scripts.Unique.{Status, enqueue_unique, enqueue_unique_in}

pub record Enqueuer : Type 0 where
  pub namespace : Text
  pub min_wait_replicas : ℕ
  pub queue_prefix : Text

unfoldable pub new_enqueuer : Text → ℕ → Enqueuer
new_enqueuer namespace replicas = record {
  namespace = namespace;
  min_wait_replicas = replicas;
  queue_prefix = Keys.jobs_prefix namespace;
}

pub record ScheduledJob : Type 0 where
  pub run_at : ℕ
  pub job : Job

unfoldable pub new_job_of : Text → Text → ℕ → Option Args → Job
new_job_of name id now args = record {
  name = name;
  id = id;
  enqueued_at = now;
  args = args;
  unique = false;
  unique_key = [];
  fails = 0;
  last_err = [];
  failed_at = 0;
  raw_json = raw [];
  dequeued_from = [];
  in_prog_queue = [];
}

unfoldable pub min_wait_enabled : Enqueuer → Bool
min_wait_enabled e = ltb 0 e.min_wait_replicas

unfoldable pub receive_wait : Enqueuer → M (Unit {0})
unfolding min_wait_enabled
receive_wait e =
    if min_wait_enabled e
    then wait >>= (λ n. if ltb n e.min_wait_replicas then fail replication_failed else pure tt)
    else pure tt

-- The command and a WAIT behind it, where the option asks for one.
unfoldable pub redis_do_helper : Enqueuer → (Store → Store) → M (Unit {0})
unfolding receive_wait
redis_do_helper e run = do command run; receive_wait e

-- Whether the cache has no entry for the name, or one that has run out.
unfoldable pub need_sadd : ℕ → Option ℕ → Bool
need_sadd now none = true
need_sadd now (some t) = not (ltb now t)

unfoldable pub remember : Text → ℕ → M (Unit {0})
remember name t w = (ok tt, record w { known_jobs = update w.known_jobs name (some t) })

module _ (redis : Redis) (e : Enqueuer) where
  open redis use {sadd}

  unfoldable pub add_to_known_jobs : Text → ℕ → M (Unit {0})
  unfolding need_sadd remember
  add_to_known_jobs name now w =
      (if need_sadd now (w.known_jobs name)
          then (do command (sadd (Keys.known_jobs e.namespace) name); remember name (now + 300))
          else pure tt)
        w

-- A job, and an error beside it or instead of it.
abbrev pub Outcome : Type 0 → Type 0
Outcome J = (Option J × Option Error) × World

abbrev pub registered : {J : Type 0} → J → Result (Unit {0}) × World → Outcome J
registered j (ok _, w) = ((some j, none), w)
registered j (err x, w) = ((some j, some x), w)

abbrev pub pushed : {J : Type 0} → J → M (Unit {0}) → Result (Unit {0}) × World → Outcome J
pushed j register (ok _, w) = registered j (register w)
pushed j register (err x, w) = ((none, some x), w)

-- A unique job is returned only if it was pushed.
abbrev pub if_ok : {J : Type 0} → J → Result Status × World → Outcome J
if_ok j (ok Status.ok, w) = ((some j, none), w)
if_ok j (ok Status.dup, w) = ((none, none), w)
if_ok j (err x, w) = ((none, some x), w)

abbrev pub or_args : Option Args → Option Args → Option Args
or_args none args = args
or_args (some m) args = some m

-- time.Now() plus the seconds, rounded up to a second.
unfoldable pub epoch_after_seconds : ℕ → ℕ → ℕ → ℕ
epoch_after_seconds now nanos secs = if ltb 0 nanos then now + secs + 1 else now + secs

module _ (redis : Redis) (e : Enqueuer) where
  open redis use {lpush, zadd}

  unfoldable pub enqueue : Text → Option Args → Text → ℕ → World → Outcome Job
  unfolding new_job_of redis_do_helper add_to_known_jobs
  enqueue name args id now w =
      let job = new_job_of name id now args in
      pushed job (add_to_known_jobs redis e name now)
        (redis_do_helper e (lpush (e.queue_prefix ++ name) (serialize job)) w)

  unfoldable pub enqueue_at : Text → ℕ → Option Args → Text → ℕ → World → Outcome ScheduledJob
  unfolding new_job_of redis_do_helper add_to_known_jobs
  enqueue_at name at args id now w =
      let job = new_job_of name id now args in
      pushed (record { run_at = at; job = job }) (add_to_known_jobs redis e name now)
        (redis_do_helper e (zadd (Keys.scheduled e.namespace) at (serialize job)) w)

  unfoldable pub enqueue_in : Text → ℕ → Option Args → Text → ℕ → ℕ → World → Outcome ScheduledJob
  unfolding enqueue_at epoch_after_seconds
  enqueue_in name secs args id now nanos w =
      enqueue_at name (epoch_after_seconds now nanos secs) args id now w

-- ARGV[2]: a placeholder where the arguments are the key, or the job that the worker will run.
unfoldable pub updated_of : Option Args → Job → Blob
updated_of none job = raw (text "1")
updated_of (some m) job = serialize job

-- `encode` is encoding/json's text of a map.
module _ (encode : Args → Text) (redis : Redis) (e : Enqueuer) where
  unfoldable pub unique_key_of : Text → Option Args → Option Args → Text
  unique_key_of name args key_map = Keys.unique_job encode e.namespace name (or_args key_map args)

  unfoldable pub unique_job_of : Text → Option Args → Option Args → Text → ℕ → Job
  unfolding new_job_of unique_key_of
  unique_job_of name args key_map id now = record (new_job_of name id now args) {
    unique = true;
    unique_key = unique_key_of name args key_map;
  }

  unfoldable pub run_unique_script : Option ℕ → Text → Option Args → Job → Store → Status × Store
  unfolding updated_of
  run_unique_script none name key_map job s =
      enqueue_unique redis (e.queue_prefix ++ name) job.unique_key (serialize job)
        (updated_of key_map job) s
  run_unique_script (some at) name key_map job s =
      enqueue_unique_in redis (Keys.scheduled e.namespace) job.unique_key (serialize job)
        (updated_of key_map job) at s

  -- The closure that uniqueJobHelper returns, with the job that it built.
  unfoldable pub enqueue_fn : Text → Option Args → Job → ℕ → Option ℕ → M Status
  unfolding run_unique_script add_to_known_jobs receive_wait
  enqueue_fn name key_map job now at = do
    add_to_known_jobs redis e name now
    status ← call (run_unique_script at name key_map job)
    receive_wait e
    pure status

  unfoldable pub enqueue_unique_by_key :
      Text → Option Args → Option Args → Text → ℕ → World → Outcome Job
  unfolding unique_job_of enqueue_fn
  enqueue_unique_by_key name args key_map id now w =
      let job = unique_job_of name args key_map id now in
      if_ok job (enqueue_fn name key_map job now none w)

  unfoldable pub enqueue_unique_at_by_key :
      Text → ℕ → Option Args → Option Args → Text → ℕ → World → Outcome ScheduledJob
  unfolding unique_job_of enqueue_fn
  enqueue_unique_at_by_key name at args key_map id now w =
      let job = unique_job_of name args key_map id now in
      if_ok (record { run_at = at; job = job }) (enqueue_fn name key_map job now (some at) w)

-- ===== src/Enqueuer/Bulk.antt =====
-- enqueue.go, BulkEnqueue: many jobs in one pipeline. Scripts go by their hash first; those that Redis
-- has lost (`has_script` is false at the job's index) are sent again as text, in a second pipeline.
-- A fault hits a pipeline as a whole: before any of its commands, or after all of them.
pub mod Staged
pub mod Pushes
pub mod Answers
pub mod Singles
pub mod Singly
use work.Prelude.{
  ℕ, suc, ◌+◌, ltb, ◌==◌, Bool, true, false, not, List, [], ◌∷◌, ◌++◌, map, Option, none, some,
  if◌then◌else◌,
}
use work.Text.{Text}
use work.Job.{Args, Job, serialize}
use work.Keys
use work.Redis.{Redis, Store, update}
use work.Conn.{
  World, Result, ok, err, replication_failed, M, ◌>>=◌, ◌>>◌, pure, fail, call, take_ack,
}
use work.Scripts.Unique.{Status}
use work.Enqueuer.{Enqueuer, new_job_of, min_wait_enabled, or_args, run_unique_script, remember}

pub record BulkEnqueueParam : Type 0 where
  pub name : Text
  pub args : Option Args
  pub run_at_epoch : ℕ
  pub unique : Bool
  pub unique_key_map : Option Args

pub record BulkEnqueueResult : Type 0 where
  pub id : Text
  pub enqueued_at : ℕ
  pub enqueue_skipped : Bool
  pub unique_key : Text

-- The reply to a job's command.
pub data Reply : Type 0 where
  pushed no_script : Reply
  ran : Status → Reply

-- A job of the batch with its parameter.
pub record Entry : Type 0 where
  pub param : BulkEnqueueParam
  pub job : Job

unfoldable pub run_at_of : ℕ → Option ℕ
run_at_of at = if at == 0 then none else some at

abbrev skipped : Reply → Bool
skipped (ran Status.dup) = true
skipped _ = false

unfoldable pub result_of : Entry → Reply → BulkEnqueueResult
result_of x r = record {
  id = x.job.id;
  enqueued_at = x.job.enqueued_at;
  enqueue_skipped = skipped r;
  unique_key = x.job.unique_key;
}

unfoldable pub results_of : List (Entry × Reply) → List BulkEnqueueResult
unfolding result_of
results_of [] = []
results_of ((x, r) ∷ xs) = result_of x r ∷ results_of xs

unfoldable pub build_unique_key : (Args → Text) → Text → BulkEnqueueParam → Text
build_unique_key encode ns p =
    if p.unique then Keys.unique_job encode ns p.name (or_args p.unique_key_map p.args) else []

-- buildJobAndResult: the results are made of the jobs at the end.
unfoldable pub build_job : (Args → Text) → Text → ℕ → Text → BulkEnqueueParam → Job
unfolding new_job_of build_unique_key
build_job encode ns now id p = record (new_job_of p.name id now p.args) {
  unique = p.unique;
  unique_key = build_unique_key encode ns p;
}

-- The i-th job has the i-th identifier.
unfoldable pub build_jobs :
    (Args → Text) → Text → ℕ → (ℕ → Text) → ℕ → List BulkEnqueueParam → List Entry
unfolding build_job
build_jobs encode ns now ids i [] = []
build_jobs encode ns now ids i (p ∷ ps) =
    record { param = p; job = build_job encode ns now (ids i) p }
    ∷ build_jobs encode ns now ids (suc i) ps

-- A name is pending if the cache has no time for it, or one that is over.
unfoldable pub is_pending : ℕ → Option ℕ → Bool
is_pending now none = true
is_pending now (some t) = ltb t now

-- A name that the batch has twice is listed twice, which neither SADD nor the cache can tell.
unfoldable pub pending_names : (Text → Option ℕ) → ℕ → List BulkEnqueueParam → List Text
unfolding is_pending
pending_names known now [] = []
pending_names known now (p ∷ ps) =
    let rest = pending_names known now ps in
    if is_pending now (known p.name) then p.name ∷ rest else rest

unfoldable pub remember_all : List Text → ℕ → M (Unit {0})
unfolding remember
remember_all [] t = pure tt
remember_all (name ∷ names) t = remember name t >> remember_all names t

-- WAIT as the last command of a pipeline that has been answered.
unfoldable pub wait_reply : Enqueuer → M (Unit {0})
unfolding min_wait_enabled
wait_reply e =
    if min_wait_enabled e
    then (λ w. take_ack w.acks w)
      >>= (λ n. if ltb n e.min_wait_replicas then fail replication_failed else pure tt)
    else pure tt

abbrev pub replied : Status × Store → Reply × Store
replied (status, t) = (ran status, t)

abbrev pub with_reply :
    Entry → Reply × Store → (Store → List (Entry × Reply) × Store) → List (Entry × Reply) × Store
with_reply x (r, t) later = let (rest, u) = later t in ((x, r) ∷ rest, u)

unfoldable pub all_sent : List (Entry × Reply) → Bool
all_sent [] = true
all_sent ((x, no_script) ∷ xs) = false
all_sent ((x, pushed) ∷ xs) = all_sent xs
all_sent ((x, ran status) ∷ xs) = all_sent xs

module _ (encode : Args → Text) (redis : Redis) (e : Enqueuer) where
  open redis use {lpush, zadd, sadd}

  -- bulkUniqueHelper, and the script that it chooses.
  unfoldable pub run_bulk_unique : Entry → Store → Status × Store
  unfolding run_unique_script run_at_of
  run_bulk_unique x =
      run_unique_script encode redis e (run_at_of x.param.run_at_epoch) x.job.name
        x.param.unique_key_map x.job

  unfoldable pub push_plain : Entry → Option ℕ → Store → Store
  push_plain x none s = lpush (e.queue_prefix ++ x.param.name) (serialize x.job) s
  push_plain x (some at) s = zadd (Keys.scheduled e.namespace) at (serialize x.job) s

  unfoldable pub send_one : Bool → Entry → Store → Reply × Store
  unfolding run_bulk_unique push_plain
  send_one has_script x s =
      if x.param.unique
      then (if has_script then replied (run_bulk_unique x s) else (no_script, s))
      else (pushed, push_plain x (run_at_of x.param.run_at_epoch) s)

  unfoldable pub send_all : (ℕ → Bool) → ℕ → List Entry → Store → List (Entry × Reply) × Store
  unfolding send_one
  send_all has_script i [] s = ([], s)
  send_all has_script i (x ∷ xs) s =
      with_reply x (send_one (has_script i) x s) (send_all has_script (suc i) xs)

  -- The jobs whose scripts Redis did not have.
  unfoldable pub resend : List (Entry × Reply) → Store → List (Entry × Reply) × Store
  unfolding run_bulk_unique
  resend [] s = ([], s)
  resend ((x, no_script) ∷ xs) s = with_reply x (replied (run_bulk_unique x s)) (resend xs)
  resend ((x, pushed) ∷ xs) s = with_reply x (pushed, s) (resend xs)
  resend ((x, ran status) ∷ xs) s = with_reply x (ran status, s) (resend xs)

  unfoldable pub add_names : List Text → Store → Store
  add_names [] s = s
  add_names (name ∷ names) s = add_names names (sadd (Keys.known_jobs e.namespace) name s)

  -- The first pipeline: the jobs, then the names.
  unfoldable pub first_pipeline :
      (ℕ → Bool) → List Entry → List Text → Store → List (Entry × Reply) × Store
  unfolding send_all add_names
  first_pipeline has_script xs names s =
      let r = send_all has_script 0 xs s in (r.0, add_names names r.1)

  unfoldable pub second_pipeline : List (Entry × Reply) → M (List BulkEnqueueResult)
  unfolding resend wait_reply results_of
  second_pipeline xs = call (resend xs) >>= (λ ys. wait_reply e >>= (λ _. pure (results_of ys)))

  -- `now` is nowEpochSeconds, `clock` the time.Now of the cache.
  unfoldable pub bulk_enqueue :
      (ℕ → Bool) → (ℕ → Text) → ℕ → ℕ → List BulkEnqueueParam → M (List BulkEnqueueResult)
  unfolding build_jobs pending_names remember_all first_pipeline second_pipeline all_sent
  bulk_enqueue has_script ids now clock params w =
      let names = pending_names w.known_jobs clock params in
      (call (first_pipeline has_script (build_jobs encode e.namespace now ids 0 params) names)
          >>= (λ xs.
              remember_all names (clock + 300)
              >> wait_reply e
              >>= (λ _. if all_sent xs then pure (results_of xs) else second_pipeline xs)))
        w

-- ===== src/Worker.antt =====
-- worker.go: a worker fetches a job, runs its handler, and settles the job's fate.
-- `run` stands for runJob (Run.antt) with the pool's middleware: the error's message, or none.
pub mod Fate
pub mod Process
pub mod Loop
pub mod Handshake
pub mod InOrder
pub mod Uniqueness
pub mod Setup
pub mod Observed
use work.Prelude.{
  ℕ, suc, ◌+◌, ◌*◌, ◌-◌, ◌%◌, ◌&&◌, ltb, leb, Bool, true, false, List, [], ◌∷◌, map, Option, none,
  some, ite, length, get_elem?, if◌then◌else◌,
}
use work.Prelude.Int.{negsuc}
use work.Text.{Text, text, Text-discrete}
use work.Job.{Args, Blob, raw, Blob-discrete, Job, serialize, new_job, failed}
use work.Keys
use work.Redis.{Redis, Store, Key}
use work.Conn.{World, Result, ok, err, malformed, M, ◌>>=◌, pure, fail, call, command}
use work.Scripts.Fetch.{FetchKeys, Fetched, fetch_job}
use work.Sampler.{SampleItem, PrioritySampler, sample}
use work.Sampler

-- jobType with its JobOptions; without a Backoff the default one is used. What a Backoff gives is an
-- int64, as below.
pub record JobType : Type 0 where
  pub name : Text
  pub priority : ℕ
  pub max_fails : ℕ
  pub skip_dead : Bool
  pub max_concurrency : ℕ
  pub backoff : Option (Job → ℕ)

-- 2^64 and 2^63: an int64 is the number below 2^64 that it is congruent to, and below 2^63 if it is
-- not negative.
abbrev pub word : ℕ
word = 18446744073709551616

abbrev pub half_word : ℕ
half_word = 9223372036854775808

-- `draw` is what rand.Int64N(30) gives; int64s wrap.
unfoldable pub default_backoff : ℕ → Job → ℕ
default_backoff draw j = (j.fails * j.fails * j.fails * j.fails + 15 + draw * (j.fails + 1)) % word

unfoldable pub calc_backoff : ℕ → Option (Job → ℕ) → Job → ℕ
unfolding default_backoff
calc_backoff draw none j = default_backoff draw j
calc_backoff draw (some f) j = f j

-- The sum as an int64. Scores are natural numbers here: a negative one is kept as 0.
unfoldable pub retry_at : ℕ → ℕ → ℕ
retry_at now backoff = let at = (now + backoff) % word in if ltb at half_word then at else 0

-- int64(jt.MaxFails) - job.Fails > 0: the conversion and the difference wrap.
unfoldable pub has_tries : ℕ → ℕ → Bool
has_tries max_fails fails =
    let remaining = (max_fails + (word - fails % word)) % word in
    ltb 0 remaining && ltb remaining half_word

-- What is sent with the removal of the job: nothing, or a ZADD to the retry or the dead set.
pub data TerminateOp : Type 0 where
  terminate_only : TerminateOp
  terminate_and_retry : ℕ → Blob → TerminateOp
  terminate_and_dead : ℕ → Blob → TerminateOp

unfoldable pub job_fate : ℕ → ℕ → Option JobType → Job → TerminateOp
unfolding calc_backoff retry_at has_tries
job_fate now draw none job = terminate_and_dead now (serialize job)
job_fate now draw (some jt) job =
    if has_tries jt.max_fails job.fails
    then terminate_and_retry (retry_at now (calc_backoff draw jt.backoff job)) (serialize job)
    else if jt.skip_dead
    then terminate_only
    else terminate_and_dead now (serialize job)

unfoldable pub find_type : Text → List JobType → Option JobType
find_type name [] = none
find_type name (jt ∷ jts) = ite (Text-discrete jt.name name) (some jt) (find_type name jts)

-- The bytes "1" that stand for a unique job without updated arguments.
unfoldable pub updated_job : Blob → Job → Option Job
updated_job b job =
    ite (Blob-discrete b (raw (text "1"))) none (new_job b job.dequeued_from job.in_prog_queue)

unfoldable pub keys_of : Text → Text → Text → FetchKeys
keys_of ns pool name = record {
  job_queue = Keys.jobs ns name;
  in_prog_queue = Keys.jobs_in_progress ns pool name;
  pause_key = Keys.jobs_paused ns name;
  lock_key = Keys.jobs_lock ns name;
  lock_info_key = Keys.jobs_lock_info ns name;
  concurrency_key = Keys.jobs_concurrency ns name;
}

-- updateMiddlewareAndJobTypes: a sample for each job type.
unfoldable pub sampler_of : Text → Text → List JobType → PrioritySampler → PrioritySampler
unfolding keys_of
sampler_of ns pool [] s = s
sampler_of ns pool (jt ∷ jts) s =
    sampler_of ns pool jts (Sampler.add jt.priority (keys_of ns pool jt.name) s)

-- An error is logged, and then no updated job is returned.
abbrev pub logged : Result (Option Job) × World → Option Job × World
logged (ok j, w) = (j, w)
logged (err e, w) = (none, w)

abbrev pub stray : Text
stray = text "stray job: no handler"

-- The handler's error, or that of a job with no handler.
unfoldable pub run_error : (JobType → Job → Option Text) → Option JobType → Job → Option Text
run_error run none job = some stray
run_error run (some jt) job = run jt job

-- The job as it is settled, with its fate.
unfoldable pub fate_of : ℕ → ℕ → Option JobType → Option Text → Job → Job × TerminateOp
unfolding job_fate
fate_of now draw jt none job = (job, terminate_only)
fate_of now draw jt (some message) job =
    let failed_job = failed now message job in (failed_job, job_fate now draw jt failed_job)

-- The reply's job; one that does not parse stays in progress.
unfoldable pub parse_reply : Option Fetched → M (Option Job)
parse_reply none = pure none
parse_reply (some f) = elim f.res [
  | none ↦ fail malformed
  | some b ↦ elim (new_job b f.job_queue f.in_prog_queue) [
    | none ↦ fail malformed
    | some j ↦ pure (some j)
  ]
]

module _ (encode : Args → Text) (redis : Redis) (namespace pool_id : Text) where
  open redis use {get, del, lrem_1, incr_by, hincrby, zadd}

  unfoldable pub unique_key_for : Text → Job → Text
  unique_key_for [] job = Keys.unique_job encode namespace job.name job.args
  unique_key_for (c ∷ k) job = c ∷ k

  unfoldable pub get_and_delete_unique_job : Job → World → Option Job × World
  unfolding unique_key_for updated_job
  get_and_delete_unique_job job w =
      let key = unique_key_for job.unique_key job in
      let found : Blob → M (Option Job) =
        λ b. (command (del key) >>= (λ _. pure (updated_job b job))) in
      logged
        ((call (λ s. (get key s, s)) >>= (λ b. elim b [ none ↦ pure none | some v ↦ found v ])) w)

  unfoldable pub apply_fate : TerminateOp → Store → Store
  apply_fate terminate_only s = s
  apply_fate (terminate_and_retry at b) s = zadd (Keys.retry namespace) at b s
  apply_fate (terminate_and_dead at b) s = zadd (Keys.dead namespace) at b s

  -- The transaction MULTI ... EXEC.
  unfoldable pub settle : Job → TerminateOp → Blob → Store → Store
  unfolding apply_fate
  settle job fate dequeued s = apply_fate fate (
      hincrby (Keys.jobs_lock_info namespace job.name) pool_id (negsuc 0) (
        incr_by (Keys.jobs_lock namespace job.name) (negsuc 0)
          (lrem_1 job.in_prog_queue dequeued s)))

  unfoldable pub remove_job_from_in_progress : Job → TerminateOp → Blob → M (Unit {0})
  unfolding settle
  remove_job_from_in_progress job fate dequeued = command (settle job fate dequeued)

  -- The job that runs: the updated one, if the job is unique and there is one.
  unfoldable pub job_to_run : Job → World → Job × World
  unfolding get_and_delete_unique_job
  job_to_run job w =
      let (updated, v) = get_and_delete_unique_job job w in
      let replaced : Job = elim updated [ none ↦ job | some j ↦ j ] in
      if job.unique then (replaced, v) else (job, w)

  unfoldable pub process_job :
      List JobType → (JobType → Job → Option Text) → ℕ → ℕ → Job → World → Result (Unit {0}) × World
  unfolding job_to_run run_error fate_of find_type remove_job_from_in_progress
  process_job job_types run now draw job w =
      let (j, v) = job_to_run job w in
      let jt = find_type j.name job_types in
      let (settled, fate) = fate_of now draw jt (run_error run jt j) j in
      remove_job_from_in_progress settled fate job.raw_json v

  -- fetchJob, over the slice that the sampler returned.
  unfoldable pub fetch : List SampleItem → M (Option Job)
  unfolding parse_reply
  fetch samples =
      call (fetch_job redis (map (λ (x : SampleItem). x.payload) samples) pool_id) >>= parse_reply

-- ===== src/Worker/Fate.antt =====
-- What becomes of a job that keeps failing.
use work.Prelude.{
  ap, Bool-cases, inl, inr, ℕ, zero, suc, ◌+◌, ◌<◌, ◌≤◌, ◌≡◌, refl, true, false, Option, none, some,
  arith, ◌∙◌,
}
use work.Text.{Text}
use work.Job.{
  Args, Blob, raw, doc, Job, doc_of, serialize, new_job, failed, marshal_args, unmarshal_args,
}
use work.Job.RoundTrip.{blob_with, new_job-blob_with}
use work.Redis.{Redis}
use work.Scripts.Requeue.{cjson_encode}
use work.Worker.{
  JobType, half_word, has_tries, retry_at, TerminateOp, terminate_only, terminate_and_retry,
  terminate_and_dead, job_fate, fate_of,
}

-- In the range of int64, tries are left while the failures are fewer than MaxFails.
pub has_tries-more :
    (max_fails fails : ℕ)
    → max_fails < half_word
    → fails < max_fails
    → has_tries max_fails fails ≡ true
unfolding has_tries
has_tries-more max_fails fails small more = ground arith

has_tries-none :
    (max_fails fails : ℕ)
    → max_fails ≤ fails
    → fails < half_word
    → has_tries max_fails fails ≡ false
unfolding has_tries
has_tries-none max_fails fails done small = ground arith

pub retry_at-in_range :
    (now backoff : ℕ) → now + backoff < half_word → retry_at now backoff ≡ now + backoff
unfolding retry_at
retry_at-in_range now backoff h = ground arith

failed-fails : (now : ℕ) (message : Text) (k : Job) → (failed now message k).fails ≡ k.fails + 1
unfolding failed
failed-fails now message k = refl

failed_keeps :
    (now : ℕ) (message : Text) (k : Job)
    → let f = failed now message k in (f.name ≡ k.name) × (f.id ≡ k.id) × (f.args ≡ k.args)
unfolding failed
failed_keeps now message k = (refl, refl, refl)

-- The JSON that the requeue script puts onto the queue at the time `later`.
abbrev pub requeued : Redis → ℕ → Blob → Blob
requeued redis later (raw b) = raw b
requeued redis later (doc d) = cjson_encode redis (record d { t = some later })

-- The job that a worker reads of it, if the fate is a retry.
abbrev pub retried : Redis → ℕ → Text → Text → TerminateOp → Option Job
retried redis later from prog terminate_only = none
retried redis later from prog (terminate_and_retry at b) =
    new_job (requeued redis later b) from prog
retried redis later from prog (terminate_and_dead at b) = none

-- The arguments after n retries, each of which writes them, sends them through cjson, and reads them.
abbrev pub args_after : Redis → ℕ → Option Args → Option Args
args_after redis zero args = args
args_after redis (suc n) args =
    unmarshal_args (redis.cjson (marshal_args (args_after redis n args)))

module _ (redis : Redis) (jt : JobType) (from prog : Text) (now later draw : ℕ → ℕ)
    (message : ℕ → Text) where
  -- The job after n runs that all failed, the i-th at the time now i, as it is read for its next
  -- run, after the script moved it at the time later i; `none` if it was not retried so often.
  pub after_failures : ℕ → Job → Option Job
  after_failures zero j = some j
  after_failures (suc n) j = elim (after_failures n j) [
    | none ↦ none
    | some k ↦
        retried redis (later n) from prog
          (fate_of (now n) (draw n) (some jt) (some (message n)) k).1
  ]

  -- The job as it is read after the retry of its run n.
  abbrev as_moved : ℕ → Job → Job
  as_moved n k =
      let f = failed (now n) (message n) k in
      let args = redis.cjson (marshal_args f.args) in
      let bytes = blob_with args (record f { enqueued_at = later n }) in
      record f {
        enqueued_at = later n;
        args = unmarshal_args args;
        raw_json = bytes;
        dequeued_from = from;
        in_prog_queue = prog;
      }

  read_requeued :
      (n : ℕ) (f : Job)
      → new_job (requeued redis (later n) (serialize f)) from prog
        ≡ new_job
            (blob_with (redis.cjson (marshal_args f.args)) (record f { enqueued_at = later n }))
            from
            prog
  unfolding serialize doc_of cjson_encode
  read_requeued n f = refl

  -- The retried job is the failed one.
  retried-fate_of :
      (n : ℕ) (k : Job)
      → jt.max_fails < half_word
      → suc k.fails < jt.max_fails
      → retried redis
          (later n)
          from
          prog
          (fate_of (now n) (draw n) (some jt) (some (message n)) k).1
        ≡ some (as_moved n k)
  unfolding fate_of job_fate failed
  retried-fate_of n k small h =
      let f = failed (now n) (message n) k in
      let more = has_tries-more jt.max_fails (k.fails + 1) small (omega arith) in
      rw more (
        read_requeued n f
        ∙ new_job-blob_with (redis.cjson (marshal_args f.args)) (record f { enqueued_at = later n })
            from prog)

  -- The same job, apart from its record of failures and what the retries make of its arguments.
  abbrev pub KeptJob : ℕ → Job → Option Job → Type 0
  KeptJob n j r =
      (k : Job) × (r ≡ some k)
      × (k.fails ≡ j.fails + n)
      × (k.name ≡ j.name)
      × (k.id ≡ j.id)
      × (k.args ≡ args_after redis n j.args)

  retried_job :
      (n : ℕ) (j : Job)
      → jt.max_fails < half_word
      → j.fails + n < jt.max_fails
      → KeptJob n j (after_failures n j)
  unfolding after_failures
  retried_job zero j small h = (j, refl, omega arith, refl, refl, refl)
  retried_job (suc n) j small h =
      let (k, at, fails, name, id, args) = retried_job n j small (omega arith) in
      let again = retried-fate_of n k small (omega arith) in
      let keeps = failed_keeps (now n) (message n) k in
      (
        as_moved n k,
        rw (at, after_failures) again,
        failed-fails (now n) (message n) k ∙ omega arith,
        keeps.0 ∙ name,
        keeps.1 ∙ id,
        ap (λ a. unmarshal_args (redis.cjson (marshal_args a))) (keeps.2 ∙ args),
      )

  -- The fate of the run that uses up the failures allowed.
  last_fate :
      (n : ℕ) (k : Job)
      → jt.max_fails < half_word
      → suc k.fails ≡ jt.max_fails
      → retried redis
          (later n)
          from
          prog
          (fate_of (now n) (draw n) (some jt) (some (message n)) k).1
        ≡ none
  unfolding fate_of job_fate failed
  last_fate n k small h =
      let done = has_tries-none jt.max_fails (k.fails + 1) (omega arith) (omega arith) in
      elim (Bool-cases jt.skip_dead) [ inl e ↦ rw (done, e) refl | inr e ↦ rw (done, e) refl ]

  -- Of a new job that fails in every run, each run before the last allowed is followed by a retry of
  -- the same job, with its failures counted, and with its arguments as JSON and cjson leave them; the
  -- run number max_fails is not. max_fails is positive and an int64.
  pub after_failures-max_fails :
      (j : Job)
      → j.fails ≡ 0
      → 0 < jt.max_fails
      → jt.max_fails < half_word
      → ((n : ℕ) → n < jt.max_fails → KeptJob n j (after_failures n j))
        × (after_failures jt.max_fails j ≡ none)
  unfolding after_failures
  after_failures-max_fails j fresh pos small =
      (λ n h. retried_job n j small (omega arith), last jt.max_fails refl)
    where
      last : (m : ℕ) → m ≡ jt.max_fails → after_failures m j ≡ none
      last zero e = absurd (omega arith)
      last (suc n) e =
          let (k, at, fails, name, id, args) = retried_job n j small (omega arith) in
          rw (at, after_failures) (last_fate n k small (omega arith))

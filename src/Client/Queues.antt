-- ===== src/Client/Queues.antt =====
-- client.go, Queues: the lists of the known job types. SMEMBERS and LINDEX with -1 are parameters,
-- the replies of a pipeline come as a whole or not at all.
pub mod Latency
use work.Prelude.{ℕ, ltb, Bool, true, false, List, [], ◌∷◌, Option, none, some, if◌then◌else◌}
use work.Prelude.Int.{ℤ, pos, ◌-ℤ◌}
use work.Text.{Text}
use work.Text.Names.{sort_strings}
use work.Job.{Blob, Job, new_job}
use work.Keys
use work.Redis.{Redis, Store, Key, or_0}
use work.Conn.{M, ◌>>=◌, pure, call}

pub record Queue : Type 0 where
  pub job_name : Text
  pub count : ℕ
  pub latency : ℤ
  pub max_concurrency : ℤ
  pub lock_count : ℤ

abbrev pub parsed_latency : ℕ → Queue → Option Job → Option Queue
parsed_latency now q none = none
parsed_latency now q (some job) = some (record q { latency = pos now -ℤ pos job.enqueued_at })

-- The queue with its last entry, if one was read; `none` is the panic on the job that newJob does not
-- return with its error.
unfoldable pub with_latency : ℕ → Queue × Option Blob → Option Queue
unfolding new_job
with_latency now (q, none) = some q
with_latency now (q, some b) = parsed_latency now q (new_job b [] [])

abbrev pub with_rest : Option Queue → Option (List Queue) → Option (List Queue)
with_rest none rest = none
with_rest (some q) none = none
with_rest (some q) (some qs) = some (q ∷ qs)

unfoldable pub with_latencies : ℕ → List (Queue × Option Blob) → Option (List Queue)
unfolding with_latency
with_latencies now [] = some []
with_latencies now (x ∷ xs) = with_rest (with_latency now x) (with_latencies now xs)

module _ (redis : Redis) (ns : Text) (last_entry : Key → Store → Option Blob) where
  open redis use {llen, get_int}

  -- A missing counter counts as 0.
  unfoldable pub queue_of : Text → Store → Queue
  queue_of name s = record {
    job_name = name;
    count = llen (Keys.jobs ns name) s;
    latency = pos 0;
    max_concurrency = or_0 (get_int (Keys.jobs_concurrency ns name) s);
    lock_count = or_0 (get_int (Keys.jobs_lock ns name) s);
  }

  unfoldable pub counts_of : List Text → Store → List Queue
  unfolding queue_of
  counts_of [] s = []
  counts_of (name ∷ names) s = queue_of name s ∷ counts_of names s

  -- Only the queues that had jobs are asked for their last entry.
  unfoldable pub last_entries : List Queue → Store → List (Queue × Option Blob)
  last_entries [] s = []
  last_entries (q ∷ qs) s =
      (q, (if ltb 0 q.count then last_entry (Keys.jobs ns q.job_name) s else none))
      ∷ last_entries qs s

  unfoldable pub queues : (Key → Store → List Text) → ℕ → M (Option (List Queue))
  unfolding counts_of last_entries with_latencies sort_strings
  queues smembers now =
      call (λ s. (smembers (Keys.known_jobs ns) s, s))
      >>= (λ names. call (λ s. (counts_of (sort_strings names) s, s)))
      >>= (λ qs. call (λ s. (last_entries qs s, s)))
      >>= (λ xs. pure (with_latencies now xs))

-- ===== src/Heartbeat.antt =====
-- heartbeater.go: a worker pool writes every five seconds that it lives, and with what. The pid, the
-- host's name and the clock are arguments. What the two commands of a pipeline do is one exchange.
pub mod Beats
use work.Prelude.{ℕ, List, [], ◌∷◌, Option, none, some}
use work.Text.{Text, text}
use work.Text.Decimal.{format}
use work.Text.Names.{join, sort_strings}
use work.Keys
use work.Redis.{Redis, Store}
use work.Conn.{Result, World, command}

pub record WorkerPoolHeartbeater : Type 0 where
  pub worker_pool_id : Text
  pub namespace : Text
  pub concurrency : ℕ
  pub job_names : Text
  pub started_at : ℕ
  pub pid : ℕ
  pub hostname : Text
  pub worker_ids : Text

-- os.Hostname, or what stands for it after an error.
abbrev host_or : Option Text → Text
host_or none = text "hostname_errored"
host_or (some host) = host

unfoldable pub new_worker_pool_heartbeater :
    Text → Text → List Text → ℕ → List Text → ℕ → Option Text → WorkerPoolHeartbeater
new_worker_pool_heartbeater namespace pool job_types concurrency worker_ids pid host = record {
  worker_pool_id = pool;
  namespace = namespace;
  concurrency = concurrency;
  job_names = join (sort_strings job_types);
  started_at = 0;
  pid = pid;
  hostname = host_or host;
  worker_ids = join (sort_strings worker_ids);
}

unfoldable pub beat_fields : WorkerPoolHeartbeater → ℕ → List (Text × Text)
beat_fields h now =
    (text "heartbeat_at", format now)
    ∷ (text "started_at", format h.started_at)
    ∷ (text "job_names", h.job_names)
    ∷ (text "concurrency", format h.concurrency)
    ∷ (text "worker_ids", h.worker_ids)
    ∷ (text "host", h.hostname)
    ∷ (text "pid", format h.pid)
    ∷ []

-- An error is only logged.
abbrev pub regardless : Result (Unit {0}) × World → World
regardless r = r.1

module _ (redis : Redis) where
  open redis use {sadd, srem, hmset, del}

  unfoldable pub heartbeat : WorkerPoolHeartbeater → ℕ → World → World
  unfolding beat_fields
  heartbeat h now w = regardless (
      command
        (λ s.
          hmset (Keys.heartbeat h.namespace h.worker_pool_id) (beat_fields h now)
            (sadd (Keys.worker_pools h.namespace) h.worker_pool_id s))
        w)

  unfoldable pub remove_heartbeat : WorkerPoolHeartbeater → World → World
  remove_heartbeat h w = regardless (
      command
        (λ s.
          del (Keys.heartbeat h.namespace h.worker_pool_id)
            (srem (Keys.worker_pools h.namespace) h.worker_pool_id s))
        w)

  -- loop: the start, and a beat at once and at each of the ticks that follow, until it is stopped.
  unfoldable pub beats : WorkerPoolHeartbeater → List ℕ → World → World
  unfolding heartbeat
  beats h [] w = w
  beats h (now ∷ ticks) w = beats h ticks (heartbeat h now w)

  unfoldable pub loop : WorkerPoolHeartbeater → ℕ → List ℕ → World → World
  unfolding beats remove_heartbeat
  loop h now ticks w =
      let started = record h { started_at = now } in
      remove_heartbeat started (beats started (now ∷ ticks) w)

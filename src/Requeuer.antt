-- ===== src/Requeuer.antt =====
-- requeuer.go: the retrier and the scheduler move the jobs that are due to their queues.
pub mod Drain
pub mod Nameless
pub mod Due
pub mod Arrival
use work.Prelude.{ℕ, zero, suc, Bool, true, false, List, map, Option, none, some}
use work.Text.{Text}
use work.Keys
use work.Redis.{Redis, Store, Key}
use work.Conn.{World, Result, ok, err, M, call}
use work.Scripts.Requeue.{Reply, nil, dead, script_error, zrem_lpush}
use work.Scripts.Requeue

pub record Requeuer : Type 0 where
  pub namespace : Text
  pub requeue_key : Key
  pub job_names : List Text

unfoldable pub new_requeuer : Text → Key → List Text → Requeuer
new_requeuer namespace key job_names = record {
  namespace = namespace;
  requeue_key = key;
  job_names = job_names;
}

-- The reply tells whether a job was moved; an error is logged.
unfoldable pub moved : Result Reply × World → Bool × World
moved (ok Reply.nil, w) = (false, w)
moved (ok Reply.ok, w) = (true, w)
moved (ok Reply.dead, w) = (true, w)
moved (ok Reply.script_error, w) = (false, w)
moved (err e, w) = (false, w)

module _ (redis : Redis) (r : Requeuer) where
  -- The script with the arguments that newRequeuer lays out, at the time `now`.
  unfoldable pub run_script : ℕ → Store → Reply × Store
  run_script now s =
      zrem_lpush redis r.requeue_key (Keys.dead r.namespace)
        (map (Keys.jobs r.namespace) r.job_names) (Keys.jobs_prefix r.namespace) now s

  unfoldable pub process : ℕ → World → Bool × World
  unfolding run_script moved
  process now w = moved (call (run_script now) w)

  -- `for r.process() {}`, the i-th call from the end at the time clock i; `none` is out of fuel.
  unfoldable pub process_all : (ℕ → ℕ) → ℕ → World → Option World
  unfolding process
  process_all clock zero w = none
  process_all clock (suc i) w =
      let again = λ (v : World). process_all clock i v in
      let (more, v) = process (clock i) w in
      let rest = again v in elim more [ true ↦ rest | false ↦ some v ]

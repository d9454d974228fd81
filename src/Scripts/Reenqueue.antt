-- ===== src/Scripts/Reenqueue.antt =====
-- redis.go, redisLuaReenqueueJob: one job goes back from an in-progress queue to its job queue.
use work.Prelude.{List, [], ◌∷◌, Option, none, some}
use work.Prelude.Int.{negsuc}
use work.Text.{Text}
use work.Job.{Blob}
use work.Redis.{Redis, Store, Key}

-- One job type's stretch of KEYS, requeueKeysPerJob long.
pub record RequeueKeys : Type 0 where
  pub in_prog_queue : Key
  pub job_queue : Key
  pub lock_key : Key
  pub lock_info_key : Key

pub record Requeued : Type 0 where
  pub res : Blob
  pub in_prog_queue : Key
  pub job_queue : Key

module _ (redis : Redis) where
  open redis use {incr_by, hincrby, rpoplpush}

  unfoldable pub release_lock : Key → Key → Text → Store → Store
  release_lock lock info pool s = hincrby info pool (negsuc 0) (incr_by lock (negsuc 0) s)

  -- What the script does with the reply of the pop; `later` is the rest of the loop.
  unfoldable pub after_pop :
      RequeueKeys
      → Text
      → (Store → Option Requeued × Store)
      → Option Blob × Store
      → Option Requeued × Store
  unfolding release_lock
  after_pop k pool later (none, t) = later t
  after_pop k pool later (some b, t) = (
    some (record { res = b; in_prog_queue = k.in_prog_queue; job_queue = k.job_queue }),
    release_lock k.lock_key k.lock_info_key pool t,
  )

  unfoldable pub reenqueue_job : List RequeueKeys → Text → Store → Option Requeued × Store
  unfolding after_pop
  reenqueue_job [] pool s = (none, s)
  reenqueue_job (k ∷ ks) pool s =
      after_pop k pool (reenqueue_job ks pool) (rpoplpush k.in_prog_queue k.job_queue s)

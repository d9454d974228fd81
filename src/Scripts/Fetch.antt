-- ===== src/Scripts/Fetch.antt =====
-- redis.go, redisLuaFetchJob: the next job to run, under the pause keys and the concurrency limits.
pub mod Choice
pub mod Limit
use work.Prelude.{
  ltb, if◌then◌else◌, ◌&&◌, ◌||◌, not, Bool, true, false, List, [], ◌∷◌, Option, none, some,
}
use work.Prelude.Int.{ℤ, pos, ltb_ℤ}
use work.Text.{Text}
use work.Job.{Blob}
use work.Redis.{Redis, Store, Key}

-- One job type's stretch of KEYS, fetchKeysPerJobType long.
pub record FetchKeys : Type 0 where
  pub job_queue : Key
  pub in_prog_queue : Key
  pub pause_key : Key
  pub lock_key : Key
  pub lock_info_key : Key
  pub concurrency_key : Key

pub record Fetched : Type 0 where
  pub res : Option Blob
  pub job_queue : Key
  pub in_prog_queue : Key

is_zero : ℤ → Bool
is_zero (pos n) = not (ltb 0 n)
is_zero n = false

below : Option ℤ → ℤ → Bool
below none m = true
below (some a) m = ltb_ℤ a m

-- The active jobs and the limit, nil where a key is missing.
unfoldable pub can_run : Option ℤ → Option ℤ → Bool
unfolding is_zero below
can_run active none = true
can_run active (some m) = is_zero m || below active m

abbrev pub exists {ℓ} : {A : Type ℓ} → Option A → Bool
exists none = false
exists (some a) = true

module _ (redis : Redis) where
  open redis use {get_int, get, incr_by, hincrby, llen, rpoplpush}

  unfoldable pub acquire_lock : Key → Key → Text → Store → Store
  acquire_lock lock info pool s = hincrby info pool (pos 1) (incr_by lock (pos 1) s)

  unfoldable pub have_jobs : Key → Store → Bool
  have_jobs queue s = ltb 0 (llen queue s)

  unfoldable pub is_paused : Key → Store → Bool
  is_paused key s = exists (get key s)

  unfoldable pub may_run : FetchKeys → Store → Bool
  unfolding have_jobs is_paused can_run
  may_run k s =
      have_jobs k.job_queue s
      && (not (is_paused k.pause_key s)
          && can_run (get_int k.lock_key s) (get_int k.concurrency_key s))

  unfoldable pub take_job : FetchKeys → Text → Store → Option Fetched × Store
  unfolding acquire_lock
  take_job k pool s =
      let (res, t) =
        rpoplpush k.job_queue k.in_prog_queue (acquire_lock k.lock_key k.lock_info_key pool s) in
      (some (record { res = res; job_queue = k.job_queue; in_prog_queue = k.in_prog_queue }), t)

  unfoldable pub fetch_job : List FetchKeys → Text → Store → Option Fetched × Store
  unfolding may_run take_job
  fetch_job [] pool s = (none, s)
  fetch_job (k ∷ ks) pool s = if may_run k s then take_job k pool s else fetch_job ks pool s

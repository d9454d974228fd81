-- ===== src/Reaper/Pools.antt =====
-- dead_pool_reaper.go: which pools are dead, and what is done for each of them. SMEMBERS, whose order
-- Redis leaves open, is a parameter.
pub mod Verdict
pub mod Beating
pub mod Reaping
use work.Prelude.{ℕ, suc, List, [], ◌∷◌, Option, none, some, if◌then◌else◌}
use work.Prelude.Int.{ℤ, pos, ◌+ℤ◌, ltb_ℤ}
use work.Text.{Text, text}
use work.Text.Decimal.{parse_int}
use work.Text.Names.{split}
use work.Keys
use work.Redis.{Redis, Store, Key}
use work.Conn.{malformed, M, ◌>>=◌, ◌>>◌, pure, fail, call, command}
use work.Reaper.{requeue_in_progress_jobs, clean_stale_lock_info}

-- A pool in the map of dead pools goes with its job types. Go goes through the map in any
-- order, as SMEMBERS gives its pools.
abbrev pub DeadPools : Type 0
DeadPools = List (Text × List Text)

abbrev pub listed : Text → Option (List Text) → DeadPools → DeadPools
listed id none pools = pools
listed id (some job_types) pools = (id, job_types) ∷ pools

abbrev names_in : Option Text → Option (List Text)
names_in none = none
names_in (some names) = some (split names)

module _ (redis : Redis) (ns : Text) where
  open redis use {hget_text, del, srem}

  unfoldable pub read_names : Text → M (Option (List Text))
  unfolding split
  read_names id =
      call (λ s. (hget_text (Keys.heartbeat ns id) (text "job_names") s, s))
      >>= (λ names. pure (names_in names))

  -- The rest of the check, from the time of the last heartbeat; `none` is no number.
  unfoldable pub by_age : ℕ → ℕ → Text → Option ℤ → M (Option (List Text))
  unfolding read_names ◌+ℤ◌
  by_age dead_time now id none = fail malformed
  by_age dead_time now id (some beat) =
      if ltb_ℤ (pos now) (beat +ℤ pos dead_time) then pure none else read_names id

  unfoldable pub since_beat : ℕ → ℕ → Text → Option Text → M (Option (List Text))
  unfolding by_age parse_int
  since_beat dead_time now id none = pure (some [])
  since_beat dead_time now id (some at) = by_age dead_time now id (parse_int at)

  unfoldable pub check_pool : ℕ → ℕ → Text → M (Option (List Text))
  unfolding since_beat
  check_pool dead_time now id =
      call (λ s. (hget_text (Keys.heartbeat ns id) (text "heartbeat_at") s, s))
      >>= since_beat dead_time now id

  unfoldable pub check_pools : ℕ → ℕ → List Text → M DeadPools
  unfolding check_pool
  check_pools dead_time now [] = pure []
  check_pools dead_time now (id ∷ ids) =
      check_pool dead_time now id
      >>= (λ names. check_pools dead_time now ids >>= (λ pools. pure (listed id names pools)))

  unfoldable pub find_dead_pools : (Key → Store → List Text) → ℕ → ℕ → M DeadPools
  unfolding check_pools
  find_dead_pools smembers dead_time now =
      call (λ s. (smembers (Keys.worker_pools ns) s, s)) >>= check_pools dead_time now

  -- `fuel` is that of requeueInProgressJobs, `current` the reaper's own job types.
  unfoldable pub requeue_known : ℕ → Text → List Text → M (Unit {0})
  unfolding requeue_in_progress_jobs
  requeue_known fuel id [] = pure tt
  requeue_known fuel id (name ∷ names) =
      requeue_in_progress_jobs redis fuel ns id (name ∷ names)
      >> command (del (Keys.heartbeat ns id))

  abbrev pub types_or : List Text → List Text → List Text
  types_or [] current = current
  types_or (name ∷ names) current = name ∷ names

  unfoldable pub reap_pool : ℕ → List Text → Text → List Text → M (Unit {0})
  unfolding requeue_known clean_stale_lock_info
  reap_pool fuel current id names =
      requeue_known fuel id names
      >> command (srem (Keys.worker_pools ns) id)
      >> clean_stale_lock_info redis ns id (types_or names current)

  unfoldable pub reap_pools : ℕ → List Text → DeadPools → M (Unit {0})
  unfolding reap_pool
  reap_pools fuel current [] = pure tt
  reap_pools fuel current ((id, names) ∷ pools) =
      reap_pool fuel current id names >> reap_pools fuel current pools

  unfoldable pub reap : (Key → Store → List Text) → ℕ → ℕ → ℕ → List Text → M (Unit {0})
  unfolding find_dead_pools reap_pools
  reap smembers fuel dead_time now current =
      find_dead_pools smembers dead_time now >>= reap_pools fuel current

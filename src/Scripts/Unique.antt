-- ===== src/Scripts/Unique.antt =====
-- redis.go, redisLuaEnqueueUnique and redisLuaEnqueueUniqueIn.
use work.Prelude.{ℕ, if◌then◌else◌}
use work.Job.{Blob}
use work.Redis.{Redis, Store, Key}

pub data Status : Type 0 where
  ok dup : Status

abbrev pub unique_ttl : ℕ
unique_ttl = 86400

module _ (redis : Redis) where
  open redis use {set_nx_ex, set_ex, lpush, zadd}

  -- What both scripts do: `push` where the key was missing.
  unfoldable pub guarded_push : Key → Blob → (Store → Store) → Store → Status × Store
  guarded_push key updated push s =
      let (fresh, t) = set_nx_ex key updated unique_ttl s in
      if fresh then (ok, push t) else (dup, set_ex key updated unique_ttl t)

  unfoldable pub enqueue_unique : Key → Key → Blob → Blob → Store → Status × Store
  unfolding guarded_push
  enqueue_unique queue key job updated s = guarded_push key updated (lpush queue job) s

  unfoldable pub enqueue_unique_in : Key → Key → Blob → Blob → ℕ → Store → Status × Store
  unfolding guarded_push
  enqueue_unique_in zset key job updated run_at s =
      guarded_push key updated (zadd zset run_at job) s

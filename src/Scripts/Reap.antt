-- ===== src/Scripts/Reap.antt =====
-- redis.go, redisLuaReapStaleLocks: the locks that a dead pool still held are given back.
use work.Prelude.{List, [], ◌∷◌, if◌then◌else◌, none, some}
use work.Prelude.Int.{pos, ◌-ℤ◌, ltb_ℤ}
use work.Text.{Text}
use work.Redis.{Redis, Store, Key, or_0}

module _ (redis : Redis) where
  open redis use {get_int, set_int, incr_by, hget, hdel}

  -- A lock that the decrement took below 0 is set to 0.
  unfoldable pub clamp_lock : Key → Store → Store
  clamp_lock lock s = if ltb_ℤ (or_0 (get_int lock s)) (pos 0) then set_int lock (pos 0) s else s

  unfoldable pub reap_lock : Key → Key → Text → Store → Store
  unfolding clamp_lock ◌-ℤ◌
  reap_lock lock info dead_pool s = elim (hget info dead_pool s) [
    | none ↦ s
    | some n ↦ clamp_lock lock (hdel info dead_pool (incr_by lock (pos 0 -ℤ n) s))
  ]

  unfoldable pub reap_stale_locks : List (Key × Key) → Text → Store → Store
  unfolding reap_lock
  reap_stale_locks [] dead_pool s = s
  reap_stale_locks ((lock, info) ∷ ks) dead_pool s =
      reap_stale_locks ks dead_pool (reap_lock lock info dead_pool s)

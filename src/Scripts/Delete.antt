-- ===== src/Scripts/Delete.antt =====
-- redis.go, redisLuaDeleteSingleCmd: the jobs with one score and one id leave a sorted set.
use work.Prelude.{ℕ, ◌+◌, [], ◌∷◌, Option, none, some, Bool, true, false, ite}
use work.Text.{Text, Text-discrete}
use work.Job.{Blob, raw, doc}
use work.Redis.{Redis, Store, Key, ZSet}

-- j['id'] == id; a missing id is nil.
unfoldable pub id_is : Text → Option Text → Bool
id_is id none = false
id_is id (some i) = ite (Text-discrete i id) true false

module _ (redis : Redis) where
  open redis use {zrem, zrangebyscore}

  -- The count and the bytes of the last job deleted; `none` is the error of cjson.decode.
  unfoldable pub delete_loop :
      Key → Text → ZSet → ℕ → Option Blob → Store → Option (ℕ × Option Blob) × Store
  unfolding id_is
  delete_loop zset id [] count bytes s = (some (count, bytes), s)
  delete_loop zset id ((score, raw b) ∷ z) count bytes s = (none, s)
  delete_loop zset id ((score, doc d) ∷ z) count bytes s =
      let hit = delete_loop zset id z (count + 1) (some (doc d)) (zrem zset (doc d) s) in
      let miss = delete_loop zset id z count bytes s in
      elim (id_is id d.id) [ true ↦ hit | false ↦ miss ]

  unfoldable pub delete_single : Key → ℕ → Text → Store → Option (ℕ × Option Blob) × Store
  unfolding delete_loop
  delete_single zset score id s = delete_loop zset id (zrangebyscore zset score score s) 0 none s

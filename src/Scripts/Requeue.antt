-- ===== src/Scripts/Requeue.antt =====
-- redis.go, redisLuaZremLpushCmd: the first due job of the retry or scheduled set is queued.
pub mod Known
use mathlib.Core.Option
use work.Prelude.{ℕ, List, [], ◌∷◌, ◌++◌, none, some, Bool, true, false, ite}
use work.Text.{Text, text, Text-discrete}
use work.Job.{Doc, Blob, raw, doc}
use work.Redis.{Redis, Store, Key, ZSet}

-- The script's reply; `script_error` is a Lua error, after which the commands done stay done.
pub data Reply : Type 0 where
  nil ok dead script_error : Reply

abbrev pub unknown_job : Text
unknown_job = text "unknown job when requeueing"

-- The loop over pairs(KEYS).
unfoldable pub has_key : Key → List Key → Bool
has_key k [] = false
has_key k (v ∷ vs) = ite (Text-discrete v k) true (has_key k vs)

module _ (redis : Redis) where
  open redis use {cjson, lpush, zadd, zrem, zrangebyscore}

  -- cjson.encode of the decoded object, which the script may have edited.
  unfoldable pub cjson_encode : Doc → Blob
  cjson_encode d = doc (record d { args = Option.map cjson d.args })

  -- The job's queue is known, or the job goes to the dead set.
  unfoldable pub place : List Key → Key → Key → ℕ → Doc → Store → Reply × Store
  unfolding cjson_encode has_key
  place keys dead_key queue now d s = elim (has_key queue keys) [
    | true ↦ (ok, lpush queue (cjson_encode (record d { t = some now })) s)
    | false ↦ (
      dead,
      zadd dead_key now (cjson_encode (record d { err = some unknown_job; failed_at = some now }))
          s,
    )
  ]

  unfoldable pub requeue_first : Key → Key → List Key → Text → ℕ → ZSet → Store → Reply × Store
  unfolding place
  requeue_first zset dead_key queues prefix now [] s = (nil, s)
  requeue_first zset dead_key queues prefix now ((score, raw b) ∷ z) s = (script_error, s)
  requeue_first zset dead_key queues prefix now ((score, doc d) ∷ z) s =
      let t = zrem zset (doc d) s in
      elim d.name [
        | none ↦ (script_error, t)
        | some name ↦ place (zset ∷ dead_key ∷ queues) dead_key (prefix ++ name) now d t
      ]

  -- KEYS is the set, the dead set and the known queues; ARGV the prefix and the time.
  unfoldable pub zrem_lpush : Key → Key → List Key → Text → ℕ → Store → Reply × Store
  unfolding requeue_first
  zrem_lpush zset dead_key queues prefix now s =
      requeue_first zset dead_key queues prefix now (zrangebyscore zset 0 now s) s

-- ===== src/Scripts/Retry.antt =====
-- redis.go, redisLuaRequeueSingleDeadCmd and redisLuaRequeueAllDeadCmd: dead jobs are queued again.
pub mod Fresh
use work.Prelude.{ℕ, ◌+◌, List, [], ◌∷◌, ◌++◌, Option, none, some, Bool, true, false, take}
use work.Text.{Text}
use work.Job.{Doc, raw, doc}
use work.Redis.{Redis, Store, Key, ZSet}
use work.Scripts.Requeue.{unknown_job, has_key, cjson_encode}
use work.Scripts.Delete.{id_is}

module _ (redis : Redis) where
  open redis use {lpush, zadd, zrem, zrangebyscore}

  -- A dead job, already removed, goes to its queue, or back with a later score if that is unknown.
  unfoldable pub revive : Key → List Key → Key → ℕ → Doc → Store → Bool × Store
  unfolding cjson_encode has_key
  revive dead_key queues queue now d s = elim (has_key queue (dead_key ∷ queues)) [
    | true ↦ (
      true,
      lpush queue
          (cjson_encode redis
            (record d { t = some now; fails = none; failed_at = none; err = none }))
          s,
    )
    | false ↦ (
      false,
      zadd dead_key (now + 5)
          (cjson_encode redis (record d { err = some unknown_job; failed_at = some now })) s,
    )
  ]

  abbrev pub add_if : Bool → ℕ → ℕ
  add_if true n = n + 1
  add_if false n = n

  -- `picks` is the test on the id, or always true; `none` is a Lua error.
  unfoldable pub revive_loop :
      Key → List Key → Text → ℕ → (Doc → Bool) → ZSet → ℕ → Store → Option ℕ × Store
  unfolding revive
  revive_loop dead_key queues prefix now picks [] count s = (some count, s)
  revive_loop dead_key queues prefix now picks ((score, raw b) ∷ z) count s = (none, s)
  revive_loop dead_key queues prefix now picks ((score, doc d) ∷ z) count s =
      let t = zrem dead_key (doc d) s in
      let skipped = revive_loop dead_key queues prefix now picks z count s in
      let revived = λ (name : Text).
        let (found, u) = revive dead_key queues (prefix ++ name) now d t in
        revive_loop dead_key queues prefix now picks z (add_if found count) u in
      elim (picks d) [
        | false ↦ skipped
        | true ↦ elim d.name [ none ↦ (none, t) | some name ↦ revived name ]
      ]

  unfoldable pub requeue_single_dead :
      Key → List Key → Text → ℕ → ℕ → Text → Store → Option ℕ × Store
  unfolding revive_loop id_is
  requeue_single_dead dead_key queues prefix now died_at id s =
      revive_loop dead_key queues prefix now (λ d. id_is id d.id)
        (zrangebyscore dead_key died_at died_at s) 0 s

  unfoldable pub requeue_all_dead : Key → List Key → Text → ℕ → ℕ → Store → Option ℕ × Store
  unfolding revive_loop
  requeue_all_dead dead_key queues prefix now limit s =
      revive_loop dead_key queues prefix now (λ d. true)
        (take limit (zrangebyscore dead_key 0 now s)) 0 s

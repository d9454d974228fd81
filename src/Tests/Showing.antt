-- ===== src/Tests/Showing.antt =====
-- Examples of what the client shows of pools and queues.
use work.Prelude.{◌≡◌, refl, arith, inl, List, [], ◌∷◌, All, Option, none, some}
use work.Text.{Text, text}
use work.Text.Names.{IsPlain, sort_strings}
use work.Job.{Blob, raw, serialize}
use work.Keys
use work.Redis.{Store, Key, update}
use work.Conn.{World, ok}
use work.Heartbeat.{WorkerPoolHeartbeater, heartbeat}
use work.Client.Pools.{worker_pool_heartbeats}
use work.Client.Pools.Shown.{started, shown, worker_pool_heartbeats-heartbeat}
use work.Client.Queues.{Queue, queues}
use work.Client.Queues.Latency.{Verdict, queues-Verdict}
use work.Tests.{redis, redis-IsDocumented, empty_store, world_on, mail}

abbrev beats : WorkerPoolHeartbeater
beats = started (text "n") (text "a") (text "m" ∷ []) 2 (text "w" ∷ []) 7 (some (text "h")) 5

m-IsPlain : All IsPlain (text "m" ∷ [])
m-IsPlain = ((omega arith, tt), tt)

w-IsPlain : All IsPlain (text "w" ∷ [])
w-IsPlain = ((omega arith, tt), tt)

abbrev members : Key → Store → List Text
members k s = text "a" ∷ []

worker_pool_heartbeats-heartbeat_example :
    (worker_pool_heartbeats redis
      (text "n")
      members
      (heartbeat redis beats 10 (world_on empty_store))).0
    ≡ ok (shown beats (text "m" ∷ []) (text "w" ∷ []) 10 ∷ [])
worker_pool_heartbeats-heartbeat_example =
    worker_pool_heartbeats-heartbeat redis redis-IsDocumented members (text "n") (text "a")
      (text "m") [] 2 (text "w") [] 7 (some (text "h")) 5 10 (world_on empty_store)
      (record {
        time = omega arith;
        start = omega arith;
        process = omega arith;
        workers = omega arith;
      })
      m-IsPlain w-IsPlain refl (inl refl) refl

-- LINDEX with -1.
abbrev last_of : List Blob → Option Blob
last_of [] = none
last_of (b ∷ []) = some b
last_of (b ∷ c ∷ bs) = last_of (c ∷ bs)

abbrev last_entry : Key → Store → Option Blob
last_entry k s = last_of (s.lists k)

-- A job and a blob that is no job wait.
abbrev two_wait : World
two_wait = world_on (record empty_store {
  lists = update (λ k. []) (Keys.jobs (text "n") (text "a")) (raw (text "x") ∷ serialize mail ∷ []);
})

queues-Verdict_example :
    (o : Option (List Queue)) × ((queues redis (text "n") last_entry members 20 two_wait).0 ≡ ok o)
    × Verdict redis
        (text "n")
        last_entry
        20
        two_wait.store
        (sort_strings (members (Keys.known_jobs (text "n")) two_wait.store))
        o
queues-Verdict_example = queues-Verdict redis (text "n") last_entry members 20 two_wait refl

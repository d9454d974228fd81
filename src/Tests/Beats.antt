-- ===== src/Tests/Beats.antt =====
-- Examples of the heartbeat and of the reaper of dead pools.
use work.Prelude.{◌+◌, leb, ◌<◌, ◌≡◌, none, if◌then◌else◌, refl, arith, List, [], ◌∷◌, All, some}
use work.Text.{Text, Text-discrete, text}
use work.Text.Names.{sort_strings, IsPlain}
use work.Job.{serialize}
use work.Keys
use work.Keys.Apart.{IsName}
use work.Redis.{Store, Key, update, documented}
use work.Conn.{World, ok}
use work.Heartbeat.{WorkerPoolHeartbeater, new_worker_pool_heartbeater, heartbeat}
use work.Reaper.{requeue_keys}
use work.Reaper.Loop.{total}
use work.Reaper.Pools.{DeadPools, check_pool, find_dead_pools, reap_pool}
use work.Reaper.Pools.Verdict.{Sifted, find_dead_pools_lem}
use work.Reaper.Pools.Beating.{check_pool-heartbeat}
use work.Reaper.Pools.Reaping.{Reaped, reap_pool-Reaped}
use work.Tests.{redis, redis-IsDocumented, empty_store, world_on, mail}

abbrev hash_of : Text → List (Text × Text)
hash_of at = (text "heartbeat_at", at) ∷ (text "job_names", text "m") ∷ []

-- Pool a is old, pool b is young.
abbrev beaten : World
beaten = world_on (record empty_store {
  hashes =
      update (update (λ k. []) (Keys.heartbeat (text "n") (text "a")) (hash_of (text "10")))
        (Keys.heartbeat (text "n") (text "b")) (hash_of (text "99"));
})

abbrev members : Key → Store → List Text
members k s = text "a" ∷ text "b" ∷ []

abbrev old_pools : DeadPools
old_pools = (text "a", text "m" ∷ []) ∷ []

find_dead_pools_lem_example :
    Sifted
      (text "n")
      5
      100
      beaten.store
      (members (Keys.worker_pools (text "n")) beaten.store)
      old_pools
    × ((find_dead_pools redis (text "n") members 5 100 beaten).1.store ≡ beaten.store)
unfolding find_dead_pools documented Text-discrete Keys.heartbeat Keys.namespace_prefix
find_dead_pools_lem_example =
    find_dead_pools_lem redis redis-IsDocumented (text "n") members 5 100 beaten old_pools refl

abbrev beats : WorkerPoolHeartbeater
beats =
    new_worker_pool_heartbeater (text "n") (text "a") (text "m" ∷ []) 2 (text "w" ∷ []) 7
      (some (text "h"))

m-IsPlain : All IsPlain (text "m" ∷ [])
m-IsPlain = ((omega arith, tt), tt)

m-IsName : All IsName (text "m" ∷ [])
m-IsName = (omega arith, tt)

check_pool-heartbeat_example :
    (check_pool redis (text "n") 5 100 (text "a") (heartbeat redis beats 10 beaten)).0
    ≡ ok (if leb (10 + 5) 100 then some (sort_strings (text "m" ∷ [])) else none)
check_pool-heartbeat_example =
    check_pool-heartbeat redis redis-IsDocumented (text "n") (text "a") (text "m") [] 2
      (text "w" ∷ []) 7 (some (text "h")) 5 100 10 beaten (omega arith) m-IsPlain refl

-- Pool a has a job in progress.
abbrev worked_on : World
worked_on = world_on (record empty_store {
  lists =
      update (λ k. []) (Keys.jobs_in_progress (text "n") (text "a") (text "m"))
        (serialize mail ∷ []);
})

one_below : total (requeue_keys (text "n") (text "a") (text "m" ∷ [])) worked_on.store < 2
unfolding requeue_keys Text-discrete Keys.jobs_in_progress Keys.jobs Keys.namespace_prefix
    Keys.jobs_prefix
one_below = omega arith

reap_pool-Reaped_example :
    let r = reap_pool redis (text "n") 2 [] (text "a") (text "m" ∷ []) worked_on in
    (r.0 ≡ ok tt)
    × Reaped
        (text "n")
        (text "a")
        (requeue_keys (text "n") (text "a") (text "m" ∷ []))
        worked_on.store
        r.1.store
reap_pool-Reaped_example =
    reap_pool-Reaped redis redis-IsDocumented (text "n") (text "a") (text "m") [] [] 2 worked_on
      m-IsName refl one_below

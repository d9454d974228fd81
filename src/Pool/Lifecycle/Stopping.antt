-- ===== src/Pool/Lifecycle/Stopping.antt =====
-- What a pool leaves behind that has been stopped.
use work.Prelude.{
  ℕ, ◌<◌, ◌≡◌, refl, arith, sym, subst, ap, ◌∙◌, Bool, true, false, List, [], All, All-both, Option,
  some, if_pos, if◌then◌else◌,
}
use work.Text.{Text, Text-discrete}
use work.Job.{Blob, Args}
use work.Keys
use work.Keys.Apart.{IsName}
use work.Redis.{
  Redis, Store, Key, update, documented, IsDocumented, documented-IsDocumented, of_documented,
}
use work.Conn.{World}
use work.Heartbeat.{
  WorkerPoolHeartbeater, remove_heartbeat, regardless, new_worker_pool_heartbeater,
}
use work.Scripts.Reap.{reap_stale_locks}
use work.Reaper.{
  requeue_keys, lock_keys, requeue_loop, requeue_in_progress_jobs, clean_stale_lock_info,
}
use work.Reaper.Backlog.{backlog, Alone}
use work.Reaper.Loop.{total, requeue_loop_lem}
use work.Reaper.Names.{requeue_keys-Separate}
use work.Reaper.Pools.Reaping.{
  Reaped, Reaped-by, command-calm, requeue_loop-calm, reap_stale_locks-keeps, heartbeat-apart,
}
use work.Pool.Lifecycle.{WorkerPool, names_of, heartbeater_of, start, stop}

-- A member that is removed is not there, nor is it if another key is deleted.
taken_out :
    (f : Key → Text → Bool) (k j : Key) (m : Text)
    → update (update f k (update (f k) m false)) j (λ x. false) k m ≡ false
taken_out f k j m = ground arith

module _ (before : Blob → Blob → Bool) (cjson : Option Args → Option Args) (ns pool : Text)
    (names : List Text) where
  -- The commands behind the loop.
  abbrev ended : Store → Store
  ended s = (documented before cjson).del (Keys.heartbeat ns pool) (
      (documented before cjson).srem (Keys.worker_pools ns) pool
        (reap_stale_locks (documented before cjson) (lock_keys ns names) pool s))

  ended-lists : (s : Store) → (ended s).lists ≡ update s.lists (Keys.heartbeat ns pool) []
  unfolding documented
  ended-lists s =
      ap (λ (f : Key → List Blob). update f (Keys.heartbeat ns pool) [])
        (reap_stale_locks-keeps before cjson (lock_keys ns names) pool s).0

  ended-sets : (s : Store) → (ended s).sets (Keys.worker_pools ns) pool ≡ false
  unfolding documented
  ended-sets s =
      taken_out (reap_stale_locks (documented before cjson) (lock_keys ns names) pool s).sets
        (Keys.worker_pools ns) (Keys.heartbeat ns pool) pool

  ended-hashes : (s : Store) → (ended s).hashes (Keys.heartbeat ns pool) ≡ []
  unfolding documented
  ended-hashes s = if_pos (Text-discrete (Keys.heartbeat ns pool) (Keys.heartbeat ns pool)) refl _ _

  -- What Stop does to a world in which Redis answers.
  stop_runs :
      (fuel : ℕ) (h : WorkerPoolHeartbeater) (w : World)
      → h.namespace ≡ ns
      → h.worker_pool_id ≡ pool
      → w.faults ≡ []
      → let loop =
          requeue_loop (documented before cjson) fuel (requeue_keys ns pool names) pool w in
        remove_heartbeat (documented before cjson) h (
          regardless (
            clean_stale_lock_info (documented before cjson) ns pool names (
              regardless
                (requeue_in_progress_jobs (documented before cjson) fuel ns pool names w))))
        ≡ record loop.1 { store = ended loop.1.store; faults = [] }
  unfolding requeue_in_progress_jobs clean_stale_lock_info remove_heartbeat
  stop_runs fuel h w same_ns same_id calm =
      let d = documented before cjson in
      let loop = requeue_loop d fuel (requeue_keys ns pool names) pool w in
      let calm' = requeue_loop-calm d (requeue_keys ns pool names) pool fuel w calm in
      let clean = command-calm (reap_stale_locks d (lock_keys ns names) pool) loop.1 calm' in
      let beat_gone : Text → Text → World = λ n i. record loop.1 {
        store = d.del (Keys.heartbeat n i) (
            d.srem (Keys.worker_pools n) i
              (reap_stale_locks d (lock_keys ns names) pool loop.1.store));
        faults = [];
      } in
      ap (λ r. remove_heartbeat d h (regardless r)) clean
      ∙ ap regardless (
          command-calm
            (λ s.
              d.del (Keys.heartbeat h.namespace h.worker_pool_id)
                (d.srem (Keys.worker_pools h.namespace) h.worker_pool_id s))
            _ refl)
      ∙ ap (λ n. beat_gone n h.worker_pool_id) same_ns
      ∙ ap (λ i. beat_gone ns i) same_id

  stop_runs-Reaped :
      (fuel : ℕ) (h : WorkerPoolHeartbeater) (w : World)
      → h.namespace ≡ ns
      → h.worker_pool_id ≡ pool
      → w.faults ≡ []
      → All IsName names
      → total (requeue_keys ns pool names) w.store < fuel
      → Reaped ns pool
          (requeue_keys ns pool names)
          w.store
          (remove_heartbeat (documented before cjson) h (
            regardless (
              clean_stale_lock_info (documented before cjson) ns pool names (
                regardless (
                  requeue_in_progress_jobs (documented before cjson) fuel ns pool names w))))).store
  stop_runs-Reaped fuel h w same_ns same_id calm named enough =
      let ks = requeue_keys ns pool names in
      let separate = requeue_keys-Separate ns pool names named in
      let drained =
        requeue_loop_lem (documented before cjson) (documented-IsDocumented before cjson) fuel ks
          pool w separate enough in
      let done = drained.done calm in
      let v = (requeue_loop (documented before cjson) fuel ks pool w).1.store in
      let kept =
        All-both _ (λ l. Alone l ks) (λ k. backlog k v ≡ backlog k w.store) ks
          (λ k a _. (drained.kept k a).jobs) separate separate in
      subst (λ (u : World). Reaped ns pool ks w.store u.store)
        (sym (stop_runs fuel h w same_ns same_id calm))
        (Reaped-by ns pool ks w.store v (ended v) (ended-lists v) (ended-sets v) (ended-hashes v)
          (drained.emptied done) kept (heartbeat-apart ns pool names))

abbrev started_as : ℕ → Option Text → ℕ → WorkerPool → WorkerPool
started_as pid host now wp = record wp {
  started = true;
  heartbeater = some (heartbeater_of pid host now wp);
}

if_false : {A : Type 0} {b : Bool} (x y : A) → b ≡ false → (if b then x else y) ≡ y
if_false x y e = rw e refl

start-started :
    (redis : Redis) (pid : ℕ) (host : Option Text) (now : ℕ) (wp : WorkerPool) (w : World)
    → wp.started ≡ false
    → (start redis pid host now wp w).0 ≡ started_as pid host now wp
unfolding start
start-started redis pid host now wp w idle =
    ap (λ (r : WorkerPool × World). r.0) (if_false _ _ idle)

stop-stopped :
    (redis : Redis) (fuel : ℕ) (wp : WorkerPool) (v : World)
    → wp.started ≡ false
    → stop redis fuel wp v ≡ (wp, v)
unfolding stop
stop-stopped redis fuel wp v idle = if_false _ _ idle

-- A pool that was stopped.
pub record IsStopped (redis : Redis) (fuel : ℕ) (wp : WorkerPool) (u : World)
    (r : WorkerPool × World) : Type 0 where
  pub halted : r.0.started ≡ false
  pub reaped :
      Reaped wp.namespace wp.worker_pool_id
        (requeue_keys wp.namespace wp.worker_pool_id (names_of wp.job_types))
        u.store
        r.1.store
  pub again : (v : World) → stop redis fuel r.0 v ≡ (r.0, v)

running-IsStopped :
    (before : Blob → Blob → Bool) (cjson : Option Args → Option Args) (pid : ℕ) (host : Option Text)
    (now : ℕ) (wp : WorkerPool) (u : World) (fuel : ℕ)
    → All IsName (names_of wp.job_types)
    → u.faults ≡ []
    → total (requeue_keys wp.namespace wp.worker_pool_id (names_of wp.job_types)) u.store < fuel
    → IsStopped
        (documented before cjson)
        fuel
        wp
        u
        (stop (documented before cjson) fuel (started_as pid host now wp) u)
unfolding stop heartbeater_of new_worker_pool_heartbeater
running-IsStopped before cjson pid host now wp u fuel named calm enough = record {
  halted = refl;
  reaped =
      stop_runs-Reaped before cjson wp.namespace wp.worker_pool_id (names_of wp.job_types) fuel
        (heartbeater_of pid host now wp) u refl refl calm named enough;
  again = λ v. stop-stopped (documented before cjson) fuel _ v refl;
}

-- A pool that was started and is then stopped, whatever became of the store in between, with job types
-- whose names have no colon, with Redis answering and fuel above its jobs in progress: it is no
-- longer started, it has left the set of pools, its heartbeat is gone, and each of its jobs in
-- progress is back in its queue, ahead of those that wait there. A second stop does nothing.
pub stop-IsStopped :
    (redis : Redis)
    → IsDocumented redis
    → (pid : ℕ) (host : Option Text) (now : ℕ) (wp : WorkerPool) (w u : World) (fuel : ℕ)
    → wp.started ≡ false
    → All IsName (names_of wp.job_types)
    → u.faults ≡ []
    → total (requeue_keys wp.namespace wp.worker_pool_id (names_of wp.job_types)) u.store < fuel
    → let r = stop redis fuel (start redis pid host now wp w).0 u in IsStopped redis fuel wp u r
stop-IsStopped redis doc pid host now wp w u fuel idle named calm enough =
    subst (λ x. IsStopped redis fuel wp u (stop redis fuel x u))
      (sym (start-started redis pid host now wp w idle))
      (of_documented (λ r. IsStopped r fuel wp u (stop r fuel (started_as pid host now wp) u))
        (λ before cjson. running-IsStopped before cjson pid host now wp u fuel named calm enough)
        redis doc)

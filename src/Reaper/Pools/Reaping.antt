-- ===== src/Reaper/Pools/Reaping.antt =====
-- What reaping a dead pool leaves.
use work.Prelude.{
  ℕ, suc, zero, ◌<◌, ◌≡◌, ◌≢◌, refl, sym, subst, ap, ◌∙◌, arith, Bool, false, List, [], ◌∷◌, ◌++◌,
  All, All-both, Option, none, some, if_pos, if_neg,
}
use work.Text.{Text, Text-discrete}
use work.Job.{Blob, Args}
use work.Keys
use work.Keys.Apart.{IsName, heartbeat-ne-jobs, jobs-plain}
use work.Redis.{
  Redis, Store, Key, update, documented, IsDocumented, documented-IsDocumented, of_documented,
}
use work.Conn.{Result, ok, err, World, M, bind_result, pure, command, exchange}
use work.Scripts.Reenqueue.{RequeueKeys, Requeued, reenqueue_job}
use work.Scripts.Reap.{reap_lock, reap_stale_locks}
use work.Reaper.{
  requeue_keys, lock_keys, requeue_loop, requeue_in_progress_jobs, clean_stale_lock_info,
}
use work.Reaper.Backlog.{backlog, Alone}
use work.Reaper.Loop.{total, requeue_loop_lem}
use work.Reaper.Names.{requeue_keys-Separate}
use work.Reaper.Pools.{requeue_known, reap_pool}

-- A command with no fault ahead.
pub command-calm :
    (run : Store → Store) (w : World)
    → w.faults ≡ []
    → command run w ≡ (ok tt, record w { store = run w.store; faults = [] })
command-calm run w calm = ap (λ fs. exchange fs (λ s. (tt {0}, run s)) w) calm

>>-calm :
    {B : Type 0} (r : Result (Unit {0}) × World) (k : M B)
    → r.0 ≡ ok tt
    → bind_result r (λ _. k) ≡ k r.1
>>-calm (ok tt, w) k e = refl
>>-calm (err x, w) k e = absurd (cc)

-- A world with no fault ahead stays one.
module _ (redis : Redis) (keys : List RequeueKeys) (pool : Text) where
  go_on : ℕ → Option Requeued → M (Unit {0})
  go_on fuel none = pure tt
  go_on fuel (some r) = requeue_loop redis fuel keys pool

  requeue_loop-step :
      (fuel : ℕ) (w : World)
      → w.faults ≡ []
      → requeue_loop redis (suc fuel) keys pool w
        ≡ go_on fuel
            (reenqueue_job redis keys pool w.store).0
            (record w { store = (reenqueue_job redis keys pool w.store).1; faults = [] })
  unfolding requeue_loop go_on
  requeue_loop-step fuel w calm =
      ap (λ fs. bind_result (exchange fs (reenqueue_job redis keys pool) w) (go_on fuel)) calm

  pub requeue_loop-calm :
      (fuel : ℕ) (w : World) → w.faults ≡ [] → (requeue_loop redis fuel keys pool w).1.faults ≡ []
  unfolding requeue_loop go_on
  requeue_loop-calm zero w calm = calm
  requeue_loop-calm (suc fuel) w calm =
      subst (λ (r : Result (Unit {0}) × World). r.1.faults ≡ [])
        (sym (requeue_loop-step fuel w calm))
        (after (reenqueue_job redis keys pool w.store) (λ v c. requeue_loop-calm fuel v c))
    where
      after :
          (r : Option Requeued × Store)
          → ((v : World) → v.faults ≡ [] → (requeue_loop redis fuel keys pool v).1.faults ≡ [])
          → (go_on fuel r.0 (record w { store = r.1; faults = [] })).1.faults ≡ []
      after (none, t) ih = refl
      after (some x, t) ih = ih _ refl

module _ (before : Blob → Blob → Bool) (cjson : Option Args → Option Args) where
  reap_lock-keeps :
      (lock info : Key) (pool : Text) (s : Store)
      → let t = reap_lock (documented before cjson) lock info pool s in
        (t.lists ≡ s.lists) × (t.sets ≡ s.sets) × (t.hashes ≡ s.hashes)
  unfolding reap_lock documented
  reap_lock-keeps lock info pool s = (ground arith, ground arith, ground arith)

  pub reap_stale_locks-keeps :
      (keys : List (Key × Key)) (pool : Text) (s : Store)
      → let t = reap_stale_locks (documented before cjson) keys pool s in
        (t.lists ≡ s.lists) × (t.sets ≡ s.sets) × (t.hashes ≡ s.hashes)
  unfolding reap_stale_locks documented
  reap_stale_locks-keeps [] pool s = (refl, refl, refl)
  reap_stale_locks-keeps (k ∷ keys) pool s =
      let (lists, sets, hashes) =
        reap_stale_locks-keeps keys pool (reap_lock (documented before cjson) k.0 k.1 pool s) in
      let (lists', sets', hashes') = reap_lock-keeps k.0 k.1 pool s in
      (lists ∙ lists', sets ∙ sets', hashes ∙ hashes')

-- What is left of a dead pool with the job queues ks: it is neither in the set of pools nor beating, and
-- every job that it had in progress is queued again, ahead of those that were queued.
pub record Reaped (ns pool : Text) (ks : List RequeueKeys) (s t : Store) : Type 0 where
  pub gone : t.sets (Keys.worker_pools ns) pool ≡ false
  pub quiet : t.hashes (Keys.heartbeat ns pool) ≡ []
  pub emptied : All (λ k. t.lists k.in_prog_queue ≡ []) ks
  pub requeued : All (λ k. t.lists k.job_queue ≡ backlog k s) ks

-- No queue among the keys is the heartbeat.
pub heartbeat-apart :
    (ns pool : Text) (names : List Text)
    → All (λ k. Keys.heartbeat ns pool ≢ k.job_queue) (requeue_keys ns pool names)
unfolding requeue_keys
heartbeat-apart ns pool [] = tt
heartbeat-apart ns pool (n ∷ names) = (
  (λ e. heartbeat-ne-jobs ns pool n [] (e ∙ sym (jobs-plain ns n))),
  heartbeat-apart ns pool names,
)

-- The pool is reaped once its in-progress queues are empty and no job is lost, if then nothing of the
-- lists changes but that the heartbeat's key is deleted.
pub Reaped-by :
    (ns pool : Text) (ks : List RequeueKeys) (s v t : Store)
    → t.lists ≡ update v.lists (Keys.heartbeat ns pool) []
    → t.sets (Keys.worker_pools ns) pool ≡ false
    → t.hashes (Keys.heartbeat ns pool) ≡ []
    → All (λ k. v.lists k.in_prog_queue ≡ []) ks
    → All (λ k. backlog k v ≡ backlog k s) ks
    → All (λ k. Keys.heartbeat ns pool ≢ k.job_queue) ks
    → Reaped ns pool ks s t
Reaped-by ns pool ks s v t lists gone quiet empty same apart = record {
  gone = gone;
  quiet = quiet;
  emptied = All-both _ (λ k. v.lists k.in_prog_queue ≡ []) _ ks (λ k _ e. at_empty k e) empty empty;
  requeued =
      All-both _ _ _ ks (λ k both far. at_queue k both.0 both.1 far)
        (All-both _ _ (λ k. (v.lists k.in_prog_queue ≡ []) × (backlog k v ≡ backlog k s)) ks
          (λ k p q. (p, q)) empty same)
        apart;
}
  where
    at_empty : (k : RequeueKeys) → v.lists k.in_prog_queue ≡ [] → t.lists k.in_prog_queue ≡ []
    at_empty k e = ap (λ (f : Key → List Blob). f k.in_prog_queue) lists ∙ ground (arith, e)

    at_queue :
        (k : RequeueKeys)
        → v.lists k.in_prog_queue ≡ []
        → backlog k v ≡ backlog k s
        → Keys.heartbeat ns pool ≢ k.job_queue
        → t.lists k.job_queue ≡ backlog k s
    at_queue k e same far =
        ap (λ (f : Key → List Blob). f k.job_queue) lists
        ∙ if_neg (Text-discrete (Keys.heartbeat ns pool) k.job_queue) far _ _
        ∙ ap (λ l. l ++ v.lists k.job_queue) (sym e)
        ∙ same

module _ (before : Blob → Blob → Bool) (cjson : Option Args → Option Args) (ns pool : Text)
    (names : List Text) where
  -- The commands behind the loop.
  abbrev cleared : Store → Store
  cleared s = reap_stale_locks (documented before cjson) (lock_keys ns names) pool (
      (documented before cjson).srem (Keys.worker_pools ns) pool
        ((documented before cjson).del (Keys.heartbeat ns pool) s))

  cleared-lists : (s : Store) → (cleared s).lists ≡ update s.lists (Keys.heartbeat ns pool) []
  unfolding documented
  cleared-lists s = (reap_stale_locks-keeps before cjson (lock_keys ns names) pool _).0

  cleared-sets : (s : Store) → (cleared s).sets (Keys.worker_pools ns) pool ≡ false
  unfolding documented
  cleared-sets s =
      ap (λ (f : Key → Text → Bool). f (Keys.worker_pools ns) pool)
        (reap_stale_locks-keeps before cjson (lock_keys ns names) pool _).1
      ∙ ap (λ (f : Text → Bool). f pool)
          (if_pos (Text-discrete (Keys.worker_pools ns) (Keys.worker_pools ns)) refl _ _)
      ∙ if_pos (Text-discrete pool pool) refl _ _

  cleared-hashes : (s : Store) → (cleared s).hashes (Keys.heartbeat ns pool) ≡ []
  unfolding documented
  cleared-hashes s =
      ap (λ (f : Key → List (Text × Text)). f (Keys.heartbeat ns pool))
        (reap_stale_locks-keeps before cjson (lock_keys ns names) pool _).2
      ∙ if_pos (Text-discrete (Keys.heartbeat ns pool) (Keys.heartbeat ns pool)) refl _ _

  cleared-Reaped :
      (ks : List RequeueKeys) (s v : Store)
      → All (λ k. v.lists k.in_prog_queue ≡ []) ks
      → All (λ k. backlog k v ≡ backlog k s) ks
      → All (λ k. Keys.heartbeat ns pool ≢ k.job_queue) ks
      → Reaped ns pool ks s (cleared v)
  cleared-Reaped ks s v empty same apart =
      Reaped-by ns pool ks s v (cleared v) (cleared-lists v) (cleared-sets v) (cleared-hashes v)
        empty same apart

module _ (before : Blob → Blob → Bool) (cjson : Option Args → Option Args) (ns pool name : Text)
    (names current : List Text) (fuel : ℕ) (w : World) (calm : w.faults ≡ []) where
  abbrev loop : Result (Unit {0}) × World
  loop = requeue_loop (documented before cjson) fuel (requeue_keys ns pool (name ∷ names)) pool w

  reap_pool-runs :
      loop.0 ≡ ok tt
      → reap_pool (documented before cjson) ns fuel current pool (name ∷ names) w ≡ (
        ok tt,
        record loop.1 {
          store = cleared before cjson ns pool (name ∷ names) loop.1.store;
          faults = [];
        },
      )
  unfolding reap_pool requeue_known requeue_in_progress_jobs clean_stale_lock_info
  reap_pool-runs done =
      let del_it = command ((documented before cjson).del (Keys.heartbeat ns pool)) in
      let calm' =
        requeue_loop-calm (documented before cjson) (requeue_keys ns pool (name ∷ names)) pool fuel
          w calm in
      ap
        (λ (r : Result (Unit {0}) × World).
          bind_result
            (bind_result r
              (λ _. command ((documented before cjson).srem (Keys.worker_pools ns) pool)))
            (λ _.
              command
                (reap_stale_locks (documented before cjson) (lock_keys ns (name ∷ names)) pool)))
        (>>-calm loop del_it done
          ∙ command-calm ((documented before cjson).del (Keys.heartbeat ns pool)) loop.1 calm')

  reap_pool-on :
      All IsName (name ∷ names)
      → total (requeue_keys ns pool (name ∷ names)) w.store < fuel
      → let r = reap_pool (documented before cjson) ns fuel current pool (name ∷ names) w in
        (r.0 ≡ ok tt) × Reaped ns pool (requeue_keys ns pool (name ∷ names)) w.store r.1.store
  reap_pool-on named enough =
      let ks = requeue_keys ns pool (name ∷ names) in
      let separate = requeue_keys-Separate ns pool (name ∷ names) named in
      let ended =
        requeue_loop_lem (documented before cjson) (documented-IsDocumented before cjson) fuel ks
          pool w separate enough in
      let done = ended.done calm in
      let v = loop.1.store in
      let kept =
        All-both _ (λ l. Alone l ks) (λ k. backlog k v ≡ backlog k w.store) ks
          (λ k a _. (ended.kept k a).jobs) separate separate in
      subst (λ (r : Result (Unit {0}) × World). (r.0 ≡ ok tt) × Reaped ns pool ks w.store r.1.store)
        (sym (reap_pool-runs done))
        (
          refl,
          cleared-Reaped before cjson ns pool (name ∷ names) ks w.store v (ended.emptied done) kept
              (heartbeat-apart ns pool (name ∷ names)),
        )

-- A dead pool whose job types have names without a colon is reaped, with no fault on the way and fuel
-- above the number of its jobs in progress: it leaves the set of pools, its heartbeat is gone, and each
-- of its jobs in progress is back in its queue, ahead of the jobs that wait there.
pub reap_pool-Reaped :
    (redis : Redis)
    → IsDocumented redis
    → (ns pool name : Text) (names current : List Text) (fuel : ℕ) (w : World)
    → All IsName (name ∷ names)
    → w.faults ≡ []
    → total (requeue_keys ns pool (name ∷ names)) w.store < fuel
    → let r = reap_pool redis ns fuel current pool (name ∷ names) w in
      (r.0 ≡ ok tt) × Reaped ns pool (requeue_keys ns pool (name ∷ names)) w.store r.1.store
reap_pool-Reaped redis h ns pool name names current fuel w named calm enough =
    of_documented
      (λ d.
        let r = reap_pool d ns fuel current pool (name ∷ names) w in
        (r.0 ≡ ok tt) × Reaped ns pool (requeue_keys ns pool (name ∷ names)) w.store r.1.store)
      (λ before cjson.
        reap_pool-on before cjson ns pool name names current fuel w calm named enough)
      redis h

-- ===== src/Client/Pools/Shown.antt =====
-- What the client shows of a pool that has just beaten.
use work.Prelude.{Bool, ℕ, ◌≤◌, ◌≡◌, ◌⊎◌, inl, inr, refl, ap, ◌∙◌, List, [], ◌∷◌, All, Option, some}
use work.Prelude.Int.{pos}
use work.Text.{Text}
use work.Text.Decimal.{parse_int-format, parse_uint-format, max_int64, max_uint64}
use work.Text.Names.{split, sort_strings, IsPlain, split-join-sort_strings}
use work.Text.Names.Sorted.{sort_strings-sort_strings}
use work.Job.{Blob, Args}
use work.Keys
use work.Redis.{
  Redis, Store, Key, documented, IsDocumented, documented-IsDocumented, of_documented, put_fields,
}
use work.Conn.{World, ok, bind_result, exchange, M, call}
use work.Heartbeat.{WorkerPoolHeartbeater, new_worker_pool_heartbeater, beat_fields, heartbeat}
use work.Heartbeat.Beats.{heartbeat-hash, put_fields-empty, put_fields-beat}
use work.Client.Pools.{
  WorkerPoolHeartbeat, no_heartbeat, read_beat, read_beat_field, read_beats, worker_pool_heartbeats,
  hashes_at, or_malformed, and_then,
}

-- Numbers that fit their types.
pub record Fits (concurrency pid at now : ℕ) : Type 0 where
  pub time : now ≤ max_int64
  pub start : at ≤ max_int64
  pub process : pid ≤ max_int64
  pub workers : concurrency ≤ max_uint64

-- Numbers that fit, and names that are read back.
record IsReadable (h : WorkerPoolHeartbeater) (names ids : List Text) (now : ℕ) : Type 0 where
  time : now ≤ max_int64
  start : h.started_at ≤ max_int64
  process : h.pid ≤ max_int64
  workers : h.concurrency ≤ max_uint64
  named : split h.job_names ≡ sort_strings names
  listed : split h.worker_ids ≡ sort_strings ids

abbrev pub shown : WorkerPoolHeartbeater → List Text → List Text → ℕ → WorkerPoolHeartbeat
shown h names ids now = record {
  worker_pool_id = h.worker_pool_id;
  started_at = pos h.started_at;
  heartbeat_at = pos now;
  job_names = sort_strings names;
  concurrency = h.concurrency;
  host = h.hostname;
  pid = pos h.pid;
  worker_ids = sort_strings ids;
}

read_beat-beat_fields :
    (h : WorkerPoolHeartbeater) (names ids : List Text) (now : ℕ)
    → IsReadable h names ids now
    → read_beat (beat_fields h now) (no_heartbeat h.worker_pool_id) ≡ some (shown h names ids now)
unfolding read_beat read_beat_field beat_fields
read_beat-beat_fields h names ids now r =
    let names_sorted : sort_strings (split h.job_names) ≡ sort_strings names =
      ap sort_strings r.named ∙ sort_strings-sort_strings names in
    let ids_sorted : sort_strings (split h.worker_ids) ≡ sort_strings ids =
      ap sort_strings r.listed ∙ sort_strings-sort_strings ids in
    rw
      (
        parse_int-format now r.time,
        parse_int-format h.started_at r.start,
        parse_uint-format h.concurrency r.workers,
        parse_int-format h.pid r.process,
        names_sorted,
        ids_sorted,
      )
      refl

-- The hash is new, or holds an earlier beat of the pool.
abbrev pub IsOwn : WorkerPoolHeartbeater → List (Text × Text) → Type 0
IsOwn h hash = (hash ≡ []) ⊎ ((old : ℕ) × (hash ≡ beat_fields h old))

IsOwn-beat :
    (h : WorkerPoolHeartbeater) (now : ℕ) (hash : List (Text × Text))
    → IsOwn h hash
    → put_fields (beat_fields h now) hash ≡ beat_fields h now
IsOwn-beat h now hash (inl e) = ap (put_fields (beat_fields h now)) e ∙ put_fields-empty h now
IsOwn-beat h now hash (inr (old, e)) =
    ap (put_fields (beat_fields h now)) e ∙ put_fields-beat h old now

module _ (before : Blob → Blob → Bool) (cjson : Option Args → Option Args)
    (smembers : Key → Store → List Text) where
  -- Both reads go through.
  heartbeats-calm :
      (ns : Text) (v : World)
      → v.faults ≡ []
      → let d = documented before cjson in
        (worker_pool_heartbeats d ns smembers v).0
        ≡ (or_malformed
            (read_beats (
              hashes_at d ns
                (Keys.heartbeat ns)
                (sort_strings (smembers (Keys.worker_pools ns) v.store))
                v.store))
            (record v { faults = [] })).0
  unfolding worker_pool_heartbeats
  heartbeats-calm ns v calm =
      let d = documented before cjson in
      let ids = smembers (Keys.worker_pools ns) in
      let k : List Text → M (List (Text × List (Text × Text))) =
        λ l. call (λ s. (hashes_at d ns (Keys.heartbeat ns) (sort_strings l) s, s)) in
      ap
        (λ fs.
          (bind_result (bind_result (exchange fs (λ s. (ids s, s)) v) k)
            (λ hashes. or_malformed (read_beats hashes))).0)
        calm

  heartbeat-calm :
      (h : WorkerPoolHeartbeater) (now : ℕ) (w : World)
      → w.faults ≡ []
      → (heartbeat (documented before cjson) h now w).faults ≡ []
  unfolding heartbeat
  heartbeat-calm h now w calm = rw calm refl

  one_pool :
      (ns id : Text) (v : World) (hash : List (Text × Text)) (shows : WorkerPoolHeartbeat)
      → v.faults ≡ []
      → smembers (Keys.worker_pools ns) v.store ≡ id ∷ []
      → v.store.hashes (Keys.heartbeat ns id) ≡ hash
      → read_beat hash (no_heartbeat id) ≡ some shows
      → (worker_pool_heartbeats (documented before cjson) ns smembers v).0 ≡ ok (shows ∷ [])
  unfolding read_beats documented sort_strings
  one_pool ns id v hash shows calm members held reads =
      let d = documented before cjson in
      let v' : World = record v { faults = [] } in
      heartbeats-calm ns v calm
      ∙ ap
          (λ ids.
            (or_malformed
              (read_beats (hashes_at d ns (Keys.heartbeat ns) (sort_strings ids) v.store)) v').0)
          members
      ∙ ap (λ fs. (or_malformed (and_then (read_beat fs (no_heartbeat id)) (some [])) v').0) held
      ∙ ap (λ o. (or_malformed (and_then o (some [])) v').0) reads

heartbeats-beat :
    (redis : Redis)
    → IsDocumented redis
    → (smembers : Key → Store → List Text) (h : WorkerPoolHeartbeater) (names ids : List Text)
      (now : ℕ) (w : World)
    → IsReadable h names ids now
    → w.faults ≡ []
    → IsOwn h (w.store.hashes (Keys.heartbeat h.namespace h.worker_pool_id))
    → smembers (Keys.worker_pools h.namespace) (heartbeat redis h now w).store
      ≡ h.worker_pool_id ∷ []
    → (worker_pool_heartbeats redis h.namespace smembers (heartbeat redis h now w)).0
      ≡ ok (shown h names ids now ∷ [])
heartbeats-beat redis doc smembers h names ids now w readable calm own =
    of_documented
      (λ r.
        smembers (Keys.worker_pools h.namespace) (heartbeat r h now w).store ≡ h.worker_pool_id ∷ []
        → (worker_pool_heartbeats r h.namespace smembers (heartbeat r h now w)).0
          ≡ ok (shown h names ids now ∷ []))
      (λ before cjson members.
        one_pool before cjson smembers h.namespace h.worker_pool_id
          (heartbeat (documented before cjson) h now w) (beat_fields h now) (shown h names ids now)
          (heartbeat-calm before cjson smembers h now w calm) members
          (heartbeat-hash (documented before cjson) (documented-IsDocumented before cjson) h now w
              calm
            ∙ IsOwn-beat h now _ own)
          (read_beat-beat_fields h names ids now readable))
      redis doc

-- The heartbeater of a pool, once its loop has started.
abbrev pub started :
    Text → Text → List Text → ℕ → List Text → ℕ → Option Text → ℕ → WorkerPoolHeartbeater
started ns pool names concurrency ids pid host at =
    record (new_worker_pool_heartbeater ns pool names concurrency ids pid host) { started_at = at }

-- A pool that beats, and that is the only one in the set of pools, is shown by the client as it beat:
-- with the names of its job types and the ids of its workers sorted, and every number as it was. It
-- has at least one job type and one worker, with no commas in their names and ids; Redis answers, the
-- numbers fit their types, and the hash was not there or held an earlier beat of the pool.
pub worker_pool_heartbeats-heartbeat :
    (redis : Redis)
    → IsDocumented redis
    → (smembers : Key → Store → List Text) (ns pool name : Text) (names : List Text)
      (concurrency : ℕ) (id : Text) (ids : List Text) (pid : ℕ) (host : Option Text) (at now : ℕ)
      (w : World)
    → Fits concurrency pid at now
    → All IsPlain (name ∷ names)
    → All IsPlain (id ∷ ids)
    → w.faults ≡ []
    → IsOwn
        (started ns pool (name ∷ names) concurrency (id ∷ ids) pid host at)
        (w.store.hashes (Keys.heartbeat ns pool))
    → smembers
        (Keys.worker_pools ns)
        (heartbeat redis
          (started ns pool (name ∷ names) concurrency (id ∷ ids) pid host at)
          now
          w).store
      ≡ pool ∷ []
    → let h = started ns pool (name ∷ names) concurrency (id ∷ ids) pid host at in
      (worker_pool_heartbeats redis ns smembers (heartbeat redis h now w)).0
      ≡ ok (shown h (name ∷ names) (id ∷ ids) now ∷ [])
unfolding new_worker_pool_heartbeater
worker_pool_heartbeats-heartbeat redis doc smembers ns pool name names concurrency id ids pid host
      at now w fits plain plain_ids calm own members =
    heartbeats-beat redis doc smembers
      (started ns pool (name ∷ names) concurrency (id ∷ ids) pid host at) (name ∷ names) (id ∷ ids)
      now w
      (record {
        time = fits.time;
        start = fits.start;
        process = fits.process;
        workers = fits.workers;
        named = split-join-sort_strings name names plain;
        listed = split-join-sort_strings id ids plain_ids;
      })
      calm own members

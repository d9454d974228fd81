-- ===== src/Reaper/Pools/Beating.antt =====
-- The reaper's verdict on a pool that has just beaten.
use work.Prelude.{
  ℕ, ◌+◌, ◌≤◌, leb, ◌≡◌, refl, ap, ◌∙◌, arith, inl, inr, Bool, true, false, Bool-cases, List, [],
  ◌∷◌, All, Option, none, some, if◌then◌else◌,
}
use work.Prelude.Int.{pos, ◌+ℤ◌, ltb_ℤ}
use work.Text.{Text, text}
use work.Text.Decimal.{format, parse_int-format, max_int64}
use work.Text.Names.{join, split, sort_strings, IsPlain, split-join-sort_strings}
use work.Job.{Blob, Args}
use work.Keys
use work.Redis.{Redis, documented, IsDocumented, documented-IsDocumented, of_documented, field_of}
use work.Conn.{World, ok, bind_result, exchange}
use work.Heartbeat.{new_worker_pool_heartbeater, heartbeat, WorkerPoolHeartbeater}
use work.Heartbeat.Beats.{beat_time, beat_names, heartbeat-hash}
use work.Reaper.Pools.{names_in, read_names, by_age, since_beat, check_pool}
use work.Reaper.Pools.Verdict.{beat_field}

-- The names, if the beat is old.
abbrev pub if_old : ℕ → ℕ → ℕ → List Text → Option (List Text)
if_old dead_time now beat names = if leb (beat + dead_time) now then some names else none

module _ (before : Blob → Blob → Bool) (cjson : Option Args → Option Args) (ns pool : Text)
    (dead_time now : ℕ) where
  abbrev d : Redis
  d = documented before cjson

  read_names-named :
      (joined : Text) (v : World)
      → v.faults ≡ []
      → beat_field ns pool (text "job_names") v.store ≡ some joined
      → (read_names d ns pool v).0 ≡ ok (some (split joined))
  unfolding read_names documented
  read_names-named joined v calm named = rw calm (ap (λ o. ok (names_in o)) named)

  by_age-beat :
      (beat : ℕ) (joined : Text) (v : World)
      → v.faults ≡ []
      → beat_field ns pool (text "job_names") v.store ≡ some joined
      → (by_age d ns dead_time now pool (some (pos beat)) v).0
        ≡ ok (if_old dead_time now beat (split joined))
  unfolding by_age ◌+ℤ◌
  by_age-beat beat joined v calm named =
      elim (Bool-cases (ltb_ℤ (pos now) (pos beat +ℤ pos dead_time))) [
        | inl young ↦
            let e : leb (beat + dead_time) now ≡ false = ground (arith, young) in rw (young, e) refl
        | inr old ↦
            let e : leb (beat + dead_time) now ≡ true = ground (arith, old) in
            rw (old, e) (read_names-named joined v calm named)
      ]

  check_pool-beat :
      (beat : ℕ) (joined : Text) (v : World)
      → beat ≤ max_int64
      → v.faults ≡ []
      → beat_field ns pool (text "heartbeat_at") v.store ≡ some (format beat)
      → beat_field ns pool (text "job_names") v.store ≡ some joined
      → (check_pool d ns dead_time now pool v).0 ≡ ok (if_old dead_time now beat (split joined))
  unfolding check_pool since_beat documented
  check_pool-beat beat joined v fits calm at named =
      let v' : World = record v { faults = [] } in
      ap
        (λ fs.
          (bind_result (exchange fs (λ s. (beat_field ns pool (text "heartbeat_at") s, s)) v)
            (since_beat d ns dead_time now pool)).0)
        calm
      ∙ ap (λ o. (since_beat d ns dead_time now pool o v').0) at
      ∙ ap (λ o. (by_age d ns dead_time now pool o v').0) (parse_int-format beat fits)
      ∙ by_age-beat beat joined v' refl named

  heartbeat-calm :
      (h : WorkerPoolHeartbeater) (beat : ℕ) (w : World)
      → w.faults ≡ []
      → (heartbeat d h beat w).faults ≡ []
  unfolding heartbeat
  heartbeat-calm h beat w calm = rw calm refl

-- After a beat that reached Redis, findDeadPools' check of the pool takes it for dead exactly from
-- `dead_time` seconds after the beat on, and then with its job types in their order, whatever its hash
-- held before. The pool has at least one job type, their names have no commas, and Redis answers.
pub check_pool-heartbeat :
    (redis : Redis)
    → IsDocumented redis
    → (ns pool : Text) (job : Text) (jobs : List Text) (concurrency : ℕ) (worker_ids : List Text)
      (pid : ℕ) (host : Option Text) (dead_time now beat : ℕ) (w : World)
    → beat ≤ max_int64
    → All IsPlain (job ∷ jobs)
    → w.faults ≡ []
    → let h = new_worker_pool_heartbeater ns pool (job ∷ jobs) concurrency worker_ids pid host in
      (check_pool redis ns dead_time now pool (heartbeat redis h beat w)).0
      ≡ ok (if leb (beat + dead_time) now then some (sort_strings (job ∷ jobs)) else none)
unfolding new_worker_pool_heartbeater
check_pool-heartbeat redis documents ns pool job jobs concurrency worker_ids pid host dead_time now
      beat w fits plain calm =
    let h = new_worker_pool_heartbeater ns pool (job ∷ jobs) concurrency worker_ids pid host in
    let old = w.store.hashes (Keys.heartbeat ns pool) in
    of_documented
      (λ d.
        (check_pool d ns dead_time now pool (heartbeat d h beat w)).0
        ≡ ok (if_old dead_time now beat (sort_strings (job ∷ jobs))))
      (λ before cjson.
        let hash =
          heartbeat-hash (documented before cjson) (documented-IsDocumented before cjson) h beat w
            calm in
        check_pool-beat before cjson ns pool dead_time now beat (join (sort_strings (job ∷ jobs))) _
          fits (heartbeat-calm before cjson ns pool dead_time now h beat w calm)
          (ap (field_of (text "heartbeat_at")) hash ∙ beat_time h beat old)
          (ap (field_of (text "job_names")) hash ∙ beat_names h beat old)
        ∙ ap (λ l. ok (if_old dead_time now beat l)) (split-join-sort_strings job jobs plain))
      redis documents

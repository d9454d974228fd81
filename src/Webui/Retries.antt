-- ===== src/Webui/Retries.antt =====
-- The request that retries a dead job, from its path to the job's queue.
use mathlib.Core.Path.{ap₂}
use work.Prelude.{
  ℕ, ◌==◌, if◌then◌else◌, ◌≤◌, ◌≡◌, ◌≢◌, refl, sym, ap, subst, ◌∙◌, true, inl, inr, List, [], ◌∷◌,
  map, Option, none, some,
}
use work.Prelude.Int.{pos}
use work.Text.{Text}
use work.Text.Decimal.{format, parse_int-format, max_int64}
use work.Text.Names.{sort_strings}
use work.Job.{Blob, Job, serialize}
use work.Keys
use work.Redis.{Redis, Store, Key, ZSet, IsDocumented, z_range}
use work.Conn.{
  World, fail, script_failed, not_retried, Result, ok, err, M, pure, bind_result, exchange,
}
use work.Conn.Returns.{Returns, Returns-call, Returns-bind, Returns-pure, on_from}
use work.Scripts.Requeue.{has_key}
use work.Scripts.Requeue.Known.{has_key-sort, has_key-jobs, has_key-more}
use work.Scripts.Retry.Fresh.{Retried, Revived, requeue_single_dead-Retried}
use work.Client.{requeue_scored, retry_dead_named}
use work.Client.Queues.{Queue, queues}
use work.Client.Queues.Latency.{queues-Verdict, Verdict, Broken, AllShown}
use work.Client.Retries.{job_names, with_names, retry_dead_job}
use work.Webui.{json, status_ok, handle, retry_dead, post_retry_dead_job, render_or_panic}
use work.Client.ReadOnly.{queues-Keeps}

names_shown :
    (redis : Redis) (ns : Text) (last_entry : Key → Store → Option Blob) (now : ℕ) (s : Store)
    (names : List Text) (qs : List Queue)
    → AllShown redis ns last_entry now s names qs
    → job_names qs ≡ names
unfolding job_names
names_shown redis ns last_entry now s [] [] h = refl
names_shown redis ns last_entry now s [] (q ∷ qs) h = absurd h
names_shown redis ns last_entry now s (name ∷ names) [] h = absurd h
names_shown redis ns last_entry now s (name ∷ names) (q ∷ qs) (shown, h) =
    ap₂ (λ (x : Text) (xs : List Text). x ∷ xs) shown.named
      (names_shown redis ns last_entry now s names qs h)

queues-Returns :
    (redis : Redis) (ns : Text) (last_entry : Key → Store → Option Blob)
    (smembers : Key → Store → List Text) (now : ℕ)
    → Returns (queues redis ns last_entry smembers now)
unfolding queues
queues-Returns redis ns last_entry smembers now =
    Returns-bind _ _
      (Returns-bind _ _ (Returns-bind _ _ (Returns-call _) (λ names. Returns-call _))
        (λ qs. Returns-call _))
      (λ xs. Returns-pure _)

module _ (redis : Redis) (ns : Text) (now died_at : ℕ) (j : Job) where
  abbrev IsRetried : Store → Result (Unit {0}) × World → Type 0
  IsRetried s r =
      (r.0 ≡ ok tt) × Revived redis (Keys.dead ns) (Keys.jobs ns j.name) now j s r.1.store

  named-IsRetried :
      (names : List Text) (v : World)
      → v.faults ≡ []
      → Retried redis
          (Keys.dead ns)
          (Keys.jobs ns j.name)
          now
          j
          v.store
          (requeue_scored redis ns names now (pos died_at) j.id v.store)
      → IsRetried v.store (retry_dead_named redis ns names now (pos died_at) j.id v)
  unfolding retry_dead_named
  named-IsRetried names v calm h =
      let p = requeue_scored redis ns names now (pos died_at) j.id v.store in
      let k : Option ℕ → M (Unit {0}) = λ r. elim r [
        | none ↦ fail script_failed
        | some count ↦ if count == 0 then fail not_retried else pure tt
      ] in
      let v' : World = record v { store = p.1; faults = [] } in
      let path : retry_dead_named redis ns names now (pos died_at) j.id v ≡ (ok tt, v') =
        ap
          (λ fs.
            bind_result (exchange fs (requeue_scored redis ns names now (pos died_at) j.id) v) k)
          calm
        ∙ ap (λ r. k r v') h.0 in
      subst (IsRetried v.store) (sym path) (refl, h.1)

  abbrev Done : Store → Result (Option (Unit {0})) × World → Type 0
  Done s r =
      (r.0 ≡ ok (some tt)) × Revived redis (Keys.dead ns) (Keys.jobs ns j.name) now j s r.1.store

  Done-some :
      (s : Store) (r : Result (Unit {0}) × World)
      → IsRetried s r
      → Done s (bind_result r (λ u. pure (some u)))
  Done-some s (ok u, v) h = (refl, h.1)
  Done-some s (err x, v) h = absurd (cc)

  rendered :
      (s : Store) (r : Result (Option (Unit {0})) × World)
      → Done s r
      → let p = render_or_panic (λ u. status_ok) r in
        (p.0 ≡ some (json status_ok))
        × Revived redis (Keys.dead ns) (Keys.jobs ns j.name) now j s p.1.store
  rendered s (ok none, v) h = absurd (cc)
  rendered s (ok (some u), v) h = (refl, h.1)
  rendered s (err x, v) h = absurd (cc)

  module _ (doc : IsDocumented redis) (last_entry : Key → Store → Option Blob)
      (smembers : Key → Store → List Text) (asked : ℕ) where
    -- The script, with the names of the known job types.
    script-Retried :
        (names : List Text) (s : Store)
        → z_range died_at died_at (s.zsets (Keys.dead ns)) ≡ (died_at, serialize j) ∷ []
        → j.name ≢ []
        → has_key j.name names ≡ true
        → Retried redis
            (Keys.dead ns)
            (Keys.jobs ns j.name)
            now
            j
            s
            (requeue_scored redis ns names now (pos died_at) j.id s)
    unfolding requeue_scored Keys.jobs
    script-Retried names s due named known =
        requeue_single_dead-Retried redis doc (Keys.dead ns) (map (Keys.jobs ns) names)
          (Keys.jobs_prefix ns) now died_at s j due named
          (has_key-more _ (Keys.dead ns) _ (has_key-jobs ns j.name names known))

    named-Done :
        (ps : List Queue) (v : World)
        → v.faults ≡ []
        → z_range died_at died_at (v.store.zsets (Keys.dead ns)) ≡ (died_at, serialize j) ∷ []
        → j.name ≢ []
        → has_key j.name (job_names ps) ≡ true
        → Done v.store (
            with_names
              (λ names. retry_dead_named redis ns names now (pos died_at) j.id)
              (some ps)
              v)
    unfolding with_names
    named-Done ps v quiet due named known = Done-some v.store _ (
        named-IsRetried (job_names ps) v quiet
          (script-Retried (job_names ps) v.store due named known))

    with_names-Done :
        (s : Store) (names : List Text) (o : Option (List Queue))
        → z_range died_at died_at (s.zsets (Keys.dead ns)) ≡ (died_at, serialize j) ∷ []
        → j.name ≢ []
        → has_key j.name names ≡ true
        → ¬ Broken redis ns last_entry s names
        → Verdict redis ns last_entry asked s names o
        → (v : World) → v.faults ≡ []
        → v.store ≡ s
        → Done s (with_names (λ l. retry_dead_named redis ns l now (pos died_at) j.id) o v)
    with_names-Done s names o due named known sound (inl (e, broken)) v quiet same =
        absurd (sound broken)
    with_names-Done s names none due named known sound (inr (qs, e, shown)) v quiet same =
        absurd (cc)
    with_names-Done s names (some ps) due named known sound (inr (qs, e, shown)) v quiet same =
        let same_queues : ps ≡ qs = cc in
        let all =
          ap job_names same_queues ∙ names_shown redis ns last_entry asked s names qs shown in
        subst
          (λ t.
            Done t
              (with_names (λ l. retry_dead_named redis ns l now (pos died_at) j.id) (some ps) v))
          same
          (named-Done ps v quiet
            (subst
              (λ (t : Store).
                z_range died_at died_at (t.zsets (Keys.dead ns)) ≡ (died_at, serialize j) ∷ [])
              (sym same) due)
            named (subst (λ l. has_key j.name l ≡ true) (sym all) known))

    retry_dead_job-Done :
        (w : World)
        → w.faults ≡ []
        → z_range died_at died_at (w.store.zsets (Keys.dead ns)) ≡ (died_at, serialize j) ∷ []
        → j.name ≢ []
        → has_key j.name (smembers (Keys.known_jobs ns) w.store) ≡ true
        → ¬ Broken redis ns last_entry w.store
            (sort_strings (smembers (Keys.known_jobs ns) w.store))
        → Done w.store (retry_dead_job redis ns last_entry smembers asked now (pos died_at) j.id w)
    unfolding retry_dead_job
    retry_dead_job-Done w calm due named known sound =
        let asks = queues redis ns last_entry smembers asked w in
        let names = smembers (Keys.known_jobs ns) w.store in
        let (o, got, verdict) = queues-Verdict redis ns last_entry smembers asked w calm in
        let (a, got', quiet) = queues-Returns redis ns last_entry smembers asked w calm in
        let kept = queues-Keeps redis ns smembers last_entry asked w in
        subst (Done w.store) (sym (on_from asks _ o got)) (
          with_names-Done w.store (sort_strings names) o due named (has_key-sort j.name names known)
            sound verdict asks.1 quiet kept.stays)

-- A request to retry a dead job, whose path has the job's time of death in decimal and its id, is
-- answered by ok, and the job is revived: it leaves the dead set and stands in front of its queue, as
-- a job enqueued now that has not failed yet. Redis answers; the job is the only one of its time of
-- death; its name is one of the known jobs; and the known queues end in jobs, so that Queues does
-- not panic.
pub retry_dead-Revived :
    (redis : Redis)
    → IsDocumented redis
    → (ns : Text) (entries : Key → Store → ZSet) (last_entry : Key → Store → Option Blob)
      (smembers : Key → Store → List Text) (asked now died_at : ℕ) (j : Job) (w : World)
    → w.faults ≡ []
    → died_at ≤ max_int64
    → z_range died_at died_at (w.store.zsets (Keys.dead ns)) ≡ (died_at, serialize j) ∷ []
    → j.name ≢ []
    → has_key j.name (smembers (Keys.known_jobs ns) w.store) ≡ true
    → ¬ Broken redis ns last_entry w.store (sort_strings (smembers (Keys.known_jobs ns) w.store))
    → let r =
        handle redis ns entries last_entry smembers asked now
          (post_retry_dead_job (format died_at) j.id)
          w in
      (r.0 ≡ some (json status_ok))
      × Revived redis (Keys.dead ns) (Keys.jobs ns j.name) now j w.store r.1.store
unfolding handle retry_dead
retry_dead-Revived redis doc ns entries last_entry smembers asked now died_at j w calm fits due
      named known sound =
    rw (parse_int-format died_at fits) (
      rendered redis ns now died_at j w.store _ (
        retry_dead_job-Done redis ns now died_at j doc last_entry smembers asked w calm due named
          known sound))

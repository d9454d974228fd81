-- ===== src/Worker/Uniqueness.antt =====
-- The life of a unique job's key, from its enqueues (enqueue.go) to the worker that runs it (worker.go).
use work.Prelude.{
  ℕ, ◌≡◌, ◌≢◌, refl, sym, ap, ◌∙◌, Bool, true, List, [], ◌∷◌, Option, none, some, inl, inr, arith,
  if_pos, if_neg, if_true,
}
use work.Text.{Text, text, Text-discrete}
use work.Job.{Args, Blob, raw, Job, serialize, Blob-discrete}
use work.Job.RoundTrip.{read_back, new_job-serialize}
use work.Redis.{Redis, Store, Key, documented, IsDocumented, of_documented}
use work.Conn.{World, M, pure, command, ◌>>=◌}
use work.Enqueuer.{Enqueuer, updated_of, run_unique_script}
use work.Enqueuer.Uniquely.{Placed, Ran, run_unique_script_lem}
use work.Scripts.Unique.{Status}
use work.Worker.{
  JobType, TerminateOp, settle, apply_fate, process_job, job_to_run, get_and_delete_unique_job,
  unique_key_for, updated_job, logged, remove_job_from_in_progress, run_error, fate_of, find_type,
}
use work.Worker.Process.{calm}

module _ (encode : Args → Text) (before : Blob → Blob → Bool) (cjson : Option Args → Option Args)
    (ns pool : Text) where
  abbrev d : Redis
  d = documented before cjson

  settle-strings :
      (job : Job) (fate : TerminateOp) (b : Blob) (s : Store)
      → (settle encode d ns pool job fate b s).strings ≡ s.strings
  unfolding settle apply_fate documented
  settle-strings job fate b s = ground arith

  -- What is found at the key, and what that leaves.
  abbrev found_job : Job → Option Blob → Option Job
  found_job job none = none
  found_job job (some b) = updated_job b job

  abbrev freed : Key → Option Blob → Store → Store
  freed key none s = s
  freed key (some b) s = d.del key s

  get_and_delete-calm :
      (job : Job) (s : Store) (w : World)
      → let key = unique_key_for encode d ns pool job.unique_key job in
        get_and_delete_unique_job encode d ns pool job (calm s w)
        ≡ (found_job job (s.strings key), calm (freed key (s.strings key) s) w)
  unfolding get_and_delete_unique_job documented
  get_and_delete-calm job s w = by (s.strings key)
    where
      key : Key
      key = unique_key_for encode d ns pool job.unique_key job

      reply : Option Blob → M (Option Job)
      reply b = elim b [
        | none ↦ pure none
        | some v ↦ command (d.del key) >>= (λ _. pure (updated_job v job))
      ]

      by :
          (o : Option Blob)
          → logged (reply o (calm s w)) ≡ (found_job job o, calm (freed key o s) w)
      by none = refl
      by (some b) = refl

  freed-none :
      (key : Key) (s : Store) (o : Option Blob)
      → s.strings key ≡ o
      → (freed key o s).strings key ≡ none
  unfolding documented
  freed-none key s none e = e
  freed-none key s (some b) e = if_pos (Text-discrete key key) refl _ _

  abbrev replaced : Job → Option Job → Job
  replaced job none = job
  replaced job (some j) = j

  job_to_run-calm :
      (job : Job) (s : Store) (w : World)
      → job.unique ≡ true
      → let key = unique_key_for encode d ns pool job.unique_key job in
        job_to_run encode d ns pool job (calm s w)
        ≡ (replaced job (found_job job (s.strings key)), calm (freed key (s.strings key) s) w)
  unfolding job_to_run
  job_to_run-calm job s w unique =
      let got = get_and_delete_unique_job encode d ns pool job (calm s w) in
      if_true (replaced job got.0, got.1) (job, calm s w) unique
      ∙ ap (λ (r : Option Job × World). (replaced job r.0, r.1)) (get_and_delete-calm job s w)

  -- Settling the job leaves the key as it is.
  process-strings :
      (jts : List JobType) (run : JobType → Job → Option Text) (now draw : ℕ) (job : Job)
      (s : Store) (w : World)
      → job.unique ≡ true
      → let key = unique_key_for encode d ns pool job.unique_key job in
        (process_job encode d ns pool jts run now draw job (calm s w)).1.store.strings key ≡ none
  unfolding process_job remove_job_from_in_progress
  process-strings jts run now draw job s w unique =
      let key = unique_key_for encode d ns pool job.unique_key job in
      let j = replaced job (found_job job (s.strings key)) in
      let t = freed key (s.strings key) s in
      let jt = find_type j.name jts in
      let (settled, fate) = fate_of now draw jt (run_error run jt j) j in
      rw (job_to_run-calm job s w unique) (
        ap (λ (l : Key → Option Blob). l key) (settle-strings settled fate job.raw_json t)
        ∙ freed-none key s (s.strings key) refl)

  key-set : (k : Text) (job : Job) → k ≢ [] → unique_key_for encode d ns pool k job ≡ k
  unfolding unique_key_for
  key-set [] job h = absurd (h refl)
  key-set (c ∷ k) job h = refl

-- The job that runs: the one in hand if the last enqueue had no key map, else that of the last enqueue.
abbrev pub latest : Option Args → Job → Job → Job
latest none job first = first
latest (some m) job first = record (read_back job) {
  raw_json = serialize job;
  dequeued_from = first.dequeued_from;
  in_prog_queue = first.in_prog_queue;
}

blob-apart : (job : Job) → serialize job ≢ raw (text "1")
unfolding serialize
blob-apart job e = absurd (cc)

module _ (encode : Args → Text) (before : Blob → Blob → Bool) (cjson : Option Args → Option Args)
    (ns pool : Text) where
  found-latest :
      (m : Option Args) (job first : Job)
      → replaced encode before cjson ns pool first
          (found_job encode before cjson ns pool first (some (updated_of m job)))
        ≡ latest m job first
  unfolding updated_of updated_job
  found-latest none job first =
      ap (replaced encode before cjson ns pool first)
        (if_pos (Blob-discrete (raw (text "1")) (raw (text "1"))) refl _ _)
  found-latest (some m) job first = ap (replaced encode before cjson ns pool first) (
      if_neg (Blob-discrete (serialize job) (raw (text "1"))) (blob-apart job) _ _
      ∙ new_job-serialize job first.dequeued_from first.in_prog_queue)

  run-latest :
      (m : Option Args) (job first : Job) (t : Store) (w : World)
      → first.unique ≡ true
      → first.unique_key ≡ job.unique_key
      → job.unique_key ≢ []
      → t.strings job.unique_key ≡ some (updated_of m job)
      → (job_to_run encode (documented before cjson) ns pool first (calm t w)).0
        ≡ latest m job first
  run-latest m job first t w unique same set held =
      let key = unique_key_for encode (documented before cjson) ns pool first.unique_key first in
      let own : key ≡ job.unique_key =
        key-set encode before cjson ns pool first.unique_key first (λ e. set (sym same ∙ e))
        ∙ same in
      ap (λ (r : Job × World). r.0) (job_to_run-calm encode before cjson ns pool first t w unique)
      ∙ ap
          (λ o.
            replaced encode before cjson ns pool first
              (found_job encode before cjson ns pool first o))
          (ap t.strings own ∙ held)
      ∙ found-latest m job first

  process-frees :
      (jts : List JobType) (run : JobType → Job → Option Text) (now draw : ℕ) (k : Key)
      (first : Job) (t : Store) (w : World)
      → first.unique ≡ true
      → first.unique_key ≡ k
      → k ≢ []
      → (process_job encode
            (documented before cjson)
            ns
            pool
            jts
            run
            now
            draw
            first
            (calm t w)).1.store.strings
          k
        ≡ none
  process-frees jts run now draw k first t w unique same set =
      let d = documented before cjson in
      let after = (process_job encode d ns pool jts run now draw first (calm t w)).1.store in
      let own : unique_key_for encode d ns pool first.unique_key first ≡ k =
        key-set encode before cjson ns pool first.unique_key first (λ e. set (sym same ∙ e))
        ∙ same in
      ap after.strings (sym own)
      ∙ process-strings encode before cjson ns pool jts run now draw first t w unique

accepted :
    (redis : Redis) (e : Enqueuer) (at : Option ℕ) (name : Text) (m : Option Args) (job : Job)
    (s : Store) (r : Status × Store)
    → Ran redis e at name m job s r
    → s.strings job.unique_key ≡ none
    → (r.0 ≡ Status.ok) × Placed redis e at name job s r.1
accepted redis e at name m job s r (held, ttl, inl (missing, done, placed)) free = (done, placed)
accepted redis e at name m job s r (held, ttl, inr (present, d, l, z)) free = absurd (present free)

-- After the last of the enqueues under a unique key, a worker that takes a unique job with that key
-- runs it with the arguments of the last enqueue, as they are read back from JSON, if that had a key
-- map, and otherwise as it is; the
-- key is free once the job is processed, and the next enqueue under it is accepted and puts its job
-- onto its queue or into the scheduled set. Redis answers, and the key is not the empty text.
pub run_unique_script-process_job :
    (encode : Args → Text) (redis : Redis)
    → IsDocumented redis
    → (e : Enqueuer) (at at' : Option ℕ) (name name' : Text) (m m' : Option Args)
      (job first next : Job) (ns pool : Text) (job_types : List JobType)
      (run : JobType → Job → Option Text) (now draw : ℕ) (s : Store) (w : World)
    → first.unique ≡ true
    → first.unique_key ≡ job.unique_key
    → next.unique_key ≡ job.unique_key
    → job.unique_key ≢ []
    → let t = (run_unique_script encode redis e at name m job s).1 in
      let u = (process_job encode redis ns pool job_types run now draw first (calm t w)).1.store in
      let r = run_unique_script encode redis e at' name' m' next u in
      ((job_to_run encode redis ns pool first (calm t w)).0 ≡ latest m job first)
      × (u.strings job.unique_key ≡ none)
      × (r.0 ≡ Status.ok)
      × Placed redis e at' name' next u r.1
run_unique_script-process_job encode redis documents e at at' name name' m m' job first next ns pool
      jts run now draw s w unique same same' set =
    let t = (run_unique_script encode redis e at name m job s).1 in
    let u = (process_job encode redis ns pool jts run now draw first (calm t w)).1.store in
    let held = (run_unique_script_lem encode redis documents e at name m job s).0 in
    let runs =
      of_documented (λ r. (job_to_run encode r ns pool first (calm t w)).0 ≡ latest m job first)
        (λ before cjson.
          run-latest encode before cjson ns pool m job first t w unique same set held)
        redis documents in
    let freed =
      of_documented
        (λ r.
          (process_job encode r ns pool jts run now draw first (calm t w)).1.store.strings
            job.unique_key
          ≡ none)
        (λ before cjson.
          process-frees encode before cjson ns pool jts run now draw job.unique_key first t w unique
            same set)
        redis documents in
    let after = run_unique_script_lem encode redis documents e at' name' m' next u in
    let (done, placed) =
      accepted redis e at' name' m' next u _ after (ap u.strings same' ∙ freed) in
    (runs, freed, done, placed)

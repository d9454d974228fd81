-- ===== src/Worker/Process.antt =====
-- The in-progress queue, the lock and the lock info, over the run of a fetched job.
use mathlib.Core.Path.{ap₂, subst₂}
use work.Prelude.{
  ℕ, ◌≡◌, ◌≢◌, refl, sym, subst, ap, ◌∙◌, Bool, false, List, [], ◌∷◌, ◌++◌, Option, some, arith,
  length, length-append,
}
use work.Prelude.Int.{ℤ, pos, negsuc, ◌+ℤ◌, int_laws}
use work.Text.{Text}
use work.Job.{Args, Blob, Job, failed, new_job}
use work.Keys
use work.Redis.{Redis, Store, documented, or_0, IsDocumented, of_documented}
use work.Conn.{World}
use work.Scripts.Fetch.{FetchKeys, Fetched}
use work.Scripts.Fetch.Choice.{taken, Takes}
use work.Worker.{
  JobType, TerminateOp, keys_of, settle, apply_fate, fate_of, process_job, job_to_run,
  remove_job_from_in_progress, find_type, run_error,
}

-- The lock comes back to its value, read as a number, and the in-progress queue to its jobs.
pub record Restored (k : FetchKeys) (pool : Text) (s t : Store) : Type 0 where
  pub in_prog : t.lists k.in_prog_queue ≡ s.lists k.in_prog_queue
  pub lock : or_0 (t.counters k.lock_key) ≡ or_0 (s.counters k.lock_key)
  pub lock_info : or_0 (t.tallies k.lock_info_key pool) ≡ or_0 (s.tallies k.lock_info_key pool)

up_and_down : (x : ℤ) → x +ℤ pos 1 +ℤ negsuc 0 ≡ x
up_and_down x = omega int_laws

module _ (encode : Args → Text) (before : Blob → Blob → Bool) (cjson : Option Args → Option Args)
    (ns pool : Text) where
  fate-lists :
      (fate : TerminateOp) (s : Store)
      → (apply_fate encode (documented before cjson) ns pool fate s).lists ≡ s.lists
  unfolding apply_fate documented
  fate-lists fate s = ground arith

  settle-taken :
      (rest : List Blob) (b : Blob) (s : Store) (job : Job) (fate : TerminateOp)
      → Keys.jobs_in_progress ns pool job.name ≢ Keys.jobs ns job.name
      → job.in_prog_queue ≡ Keys.jobs_in_progress ns pool job.name
      → Restored (keys_of ns pool job.name) pool s (
          settle encode
            (documented before cjson)
            ns
            pool
            job
            fate
            b
            (taken (keys_of ns pool job.name) pool rest b s))
  unfolding settle documented keys_of apply_fate
  settle-taken rest b s job fate apart prog = record {
    in_prog = ground arith;
    lock = ground (arith, up_and_down (or_0 (s.counters (Keys.jobs_lock ns job.name))));
    lock_info =
        ground (arith, up_and_down (or_0 (s.tallies (Keys.jobs_lock_info ns job.name) pool)));
  }

-- The job is settled under the name and the queues that it was fetched with.
pub fate_of-kept :
    (now draw : ℕ) (jt : Option JobType) (e : Option Text) (j : Job)
    → ((fate_of now draw jt e j).0.name ≡ j.name)
      × ((fate_of now draw jt e j).0.in_prog_queue ≡ j.in_prog_queue)
unfolding fate_of failed
fate_of-kept now draw jt e j = (ground arith, ground arith)

longer : (xs ys : List ℕ) (y : ℕ) → xs ++ y ∷ ys ≢ xs
longer xs ys y e = absurd (omega (arith, ap length e, length-append xs (y ∷ ys)))

-- A job type's two queues have different names, whatever the names of namespace, pool and job.
pub in_progress-ne-jobs :
    (ns pool name : Text) → Keys.jobs_in_progress ns pool name ≢ Keys.jobs ns name
unfolding Keys.jobs_in_progress
in_progress-ne-jobs ns pool name = longer (Keys.jobs ns name) _ _

new_job-queues :
    (b : Blob) (from prog : Text) (j : Job)
    → new_job b from prog ≡ some j
    → (j.raw_json ≡ b) × (j.in_prog_queue ≡ prog)
unfolding new_job
new_job-queues b from prog j e = (ground arith, ground arith)

-- A world with this store and no fault ahead.
abbrev pub calm : Store → World → World
calm s w = record w { store = s; faults = [] }

module _ (encode : Args → Text) (before : Blob → Blob → Bool) (cjson : Option Args → Option Args)
    (ns pool : Text) where
  job_to_run-plain :
      (job : Job) (w : World)
      → job.unique ≡ false
      → job_to_run encode (documented before cjson) ns pool job w ≡ (job, w)
  unfolding job_to_run
  job_to_run-plain job w plain = rw plain

  remove_calm :
      (job : Job) (fate : TerminateOp) (b : Blob) (s : Store) (w : World)
      → (remove_job_from_in_progress encode
          (documented before cjson)
          ns
          pool
          job
          fate
          b
          (calm s w)).1.store
        ≡ settle encode (documented before cjson) ns pool job fate b s
  unfolding remove_job_from_in_progress
  remove_calm job fate b s w = refl

  -- settle-taken, for a job that kept its name.
  pub settle_named :
      (name : Text) (rest : List Blob) (b : Blob) (s : Store) (job : Job) (fate : TerminateOp)
      → job.name ≡ name
      → job.in_prog_queue ≡ Keys.jobs_in_progress ns pool name
      → Restored (keys_of ns pool name) pool s (
          settle encode
            (documented before cjson)
            ns
            pool
            job
            fate
            b
            (taken (keys_of ns pool name) pool rest b s))
  settle_named name rest b s job fate e prog =
      subst
        (λ n. Restored (keys_of ns pool n) pool s (
          settle encode (documented before cjson) ns pool job fate b
            (taken (keys_of ns pool n) pool rest b s)))
        e
        (settle-taken encode before cjson ns pool rest b s job fate
          (in_progress-ne-jobs ns pool job.name)
          (prog ∙ ap (λ n. Keys.jobs_in_progress ns pool n) (sym e)))

  -- The job as it is settled, with its fate.
  abbrev out : List JobType → (JobType → Job → Option Text) → ℕ → ℕ → Job → Job × TerminateOp
  out job_types run now draw job =
      let jt = find_type job.name job_types in fate_of now draw jt (run_error run jt job) job

  pub process_plain :
      (job_types : List JobType) (run : JobType → Job → Option Text) (now draw : ℕ) (t : Store)
      (w : World) (job : Job)
      → job.unique ≡ false
      → let (settled, fate) = out job_types run now draw job in
        (process_job encode
          (documented before cjson)
          ns
          pool
          job_types
          run
          now
          draw
          job
          (calm t w)).1.store
        ≡ settle encode (documented before cjson) ns pool settled fate job.raw_json t
  unfolding process_job
  process_plain job_types run now draw t w job plain =
      let (settled, fate) = out job_types run now draw job in
      rw (job_to_run-plain job (calm t w) plain) (remove_calm settled fate job.raw_json t w)

  process_taken :
      (job_types : List JobType) (run : JobType → Job → Option Text) (now draw : ℕ)
      (rest : List Blob) (s : Store) (w : World) (job : Job)
      → job.unique ≡ false
      → job.in_prog_queue ≡ Keys.jobs_in_progress ns pool job.name
      → Restored
          (keys_of ns pool job.name)
          pool
          s
          (process_job encode
            (documented before cjson)
            ns
            pool
            job_types
            run
            now
            draw
            job
            (calm (taken (keys_of ns pool job.name) pool rest job.raw_json s) w)).1.store
  process_taken job_types run now draw rest s w job plain prog =
      let k = keys_of ns pool job.name in
      let o = out job_types run now draw job in
      let jt = find_type job.name job_types in
      let (name, queue) = fate_of-kept now draw jt (run_error run jt job) job in
      subst (Restored k pool s)
        (sym (process_plain job_types run now draw (taken k pool rest job.raw_json s) w job plain))
        (settle_named job.name rest job.raw_json s o.0 o.1 name (queue ∙ prog))

-- The job that a script's reply stands for was fetched from the queue of its own name.
abbrev pub IsOf : Text → Text → FetchKeys → Job → Type 0
IsOf ns pool k job = k ≡ keys_of ns pool job.name

-- A worker that takes a job of the job type k and runs it, with no fault on the way, leaves the job
-- type's in-progress queue and locks as they were before, whether the handler fails or not. The job
-- is not unique, and is of the type that its JSON names.
pub process_job-Restored :
    (encode : Args → Text) (redis : Redis)
    → IsDocumented redis
    → (ns pool : Text) (job_types : List JobType) (run : JobType → Job → Option Text) (now draw : ℕ)
      (k : FetchKeys) (s : Store) (w : World) (f : Fetched) (t : Store) (b : Blob) (job : Job)
    → Takes k pool s (some f, t)
    → f.res ≡ some b
    → new_job b f.job_queue f.in_prog_queue ≡ some job
    → IsOf ns pool k job
    → job.unique ≡ false
    → Restored k pool s
        (process_job encode redis ns pool job_types run now draw job (calm t w)).1.store
unfolding keys_of
process_job-Restored encode redis h ns pool job_types run now draw k s w f t b job
      (rest, c, popped, e) res parsed of plain =
    let (raw, queue) = new_job-queues b f.job_queue f.in_prog_queue job parsed in
    let own = keys_of ns pool job.name in
    let bytes : c ≡ job.raw_json = ground arith in
    let prog : job.in_prog_queue ≡ k.in_prog_queue = ground arith in
    let left : t ≡ taken k pool rest c s = ap (λ (r : Option Fetched × Store). r.1) e in
    let same : t ≡ taken own pool rest job.raw_json s =
      left ∙ ap₂ (λ (l : FetchKeys) (d : Blob). taken l pool rest d s) of bytes in
    let done =
      of_documented
        (λ r.
          Restored own pool s
            (process_job encode r ns pool job_types run now draw job
              (calm (taken own pool rest job.raw_json s) w)).1.store)
        (λ before cjson.
          process_taken encode before cjson ns pool job_types run now draw rest s w job plain
            (prog ∙ ap (λ (l : FetchKeys). l.in_prog_queue) of))
        redis h in
    subst₂
      (λ (l : FetchKeys) (u : Store).
        Restored l pool s
          (process_job encode redis ns pool job_types run now draw job (calm u w)).1.store)
      (sym of) (sym same) done

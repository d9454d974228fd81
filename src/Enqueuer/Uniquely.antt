-- ===== src/Enqueuer/Uniquely.antt =====
-- What the scripts of a unique enqueue do, once and twice.
use work.Prelude.{
  ℕ, ◌≡◌, ◌≢◌, ◌⊎◌, inl, inr, Bool, ◌∷◌, ◌++◌, Option, none, some, arith, ap, sym, ◌∙◌,
}
use work.Text.{Text}
use work.Job.{Args, Blob, Job, serialize}
use work.Keys
use work.Redis.{Redis, Store, documented, update, z_insert, z_remove, IsDocumented, of_documented}
use work.Scripts.Unique.{Status, ok, dup, unique_ttl, enqueue_unique, enqueue_unique_in}
use work.Enqueuer.{Enqueuer, updated_of, run_unique_script}

-- Where the job is put: at the head of its queue, or in the scheduled set.
abbrev pub Placed : Redis → Enqueuer → Option ℕ → Text → Job → Store → Store → Type 0
Placed redis e none name job s t =
    (t.lists
      ≡ update s.lists (e.queue_prefix ++ name) (serialize job ∷ s.lists (e.queue_prefix ++ name)))
    × (t.zsets ≡ s.zsets)
Placed redis e (some at) name job s t =
    let key = Keys.scheduled e.namespace in
    let others = z_remove (serialize job) (s.zsets key) in
    (t.lists ≡ s.lists)
    × (t.zsets ≡ update s.zsets key (z_insert redis.before at (serialize job) others))

-- The key holds the job's update and runs out in a day. The job is placed if the key was missing.
abbrev pub Ran :
    Redis → Enqueuer → Option ℕ → Text → Option Args → Job → Store → Status × Store → Type 0
Ran redis e at name key_map job s r =
    (r.1.strings job.unique_key ≡ some (updated_of key_map job))
    × (r.1.ttl job.unique_key ≡ some unique_ttl)
    × (((s.strings job.unique_key ≡ none) × (r.0 ≡ ok) × Placed redis e at name job s r.1)
        ⊎ ((s.strings job.unique_key ≢ none)
            × (r.0 ≡ dup)
            × (r.1.lists ≡ s.lists)
            × (r.1.zsets ≡ s.zsets)))

module _ (encode : Args → Text) where
  script_on :
      (before : Blob → Blob → Bool) (cjson : Option Args → Option Args) (e : Enqueuer)
      (at : Option ℕ) (name : Text) (key_map : Option Args) (job : Job) (s : Store)
      → Ran
          (documented before cjson)
          e
          at
          name
          key_map
          job
          s
          (run_unique_script encode (documented before cjson) e at name key_map job s)
  unfolding run_unique_script enqueue_unique enqueue_unique_in documented
  script_on before cjson e none name key_map job s = (ground arith, ground arith, ground arith)
  script_on before cjson e (some at) name key_map job s = (ground arith, ground arith, ground arith)

  -- A run of the unique scripts pushes the job, onto its queue or into the scheduled set, exactly when
  -- the unique key was missing; else it changes no list and no sorted set. In either case the key
  -- then holds the update (the placeholder, or the job with the latest arguments) for a day.
  pub run_unique_script_lem :
      (redis : Redis)
      → IsDocumented redis
      → (e : Enqueuer) (at : Option ℕ) (name : Text) (key_map : Option Args) (job : Job) (s : Store)
      → Ran redis e at name key_map job s (run_unique_script encode redis e at name key_map job s)
  run_unique_script_lem redis h e at name key_map job s =
      of_documented
        (λ r. Ran r e at name key_map job s (run_unique_script encode r e at name key_map job s))
        (λ before cjson. script_on before cjson e at name key_map job s) redis h

  -- Of two unique enqueues with one key, with nothing between them, the second is refused: it changes
  -- no list and no sorted set, and the key then holds the second's update.
  pub run_unique_script_twice :
      (redis : Redis)
      → IsDocumented redis
      → (e : Enqueuer) (at at' : Option ℕ) (name name' : Text) (m m' : Option Args) (job job' : Job)
        (s : Store)
      → job.unique_key ≡ job'.unique_key
      → let t = (run_unique_script encode redis e at name m job s).1 in
        let r = run_unique_script encode redis e at' name' m' job' t in
        (r.0 ≡ dup)
        × (r.1.lists ≡ t.lists)
        × (r.1.zsets ≡ t.zsets)
        × (r.1.strings job.unique_key ≡ some (updated_of m' job'))
  run_unique_script_twice redis h e at at' name name' m m' job job' s same =
      second _ (run_unique_script_lem redis h e at name m job s) _
        (run_unique_script_lem redis h e at' name' m' job' _)
    where
      second :
          (r : Status × Store)
          → Ran redis e at name m job s r
          → (q : Status × Store) → Ran redis e at' name' m' job' r.1 q
          → (q.0 ≡ dup)
            × (q.1.lists ≡ r.1.lists)
            × (q.1.zsets ≡ r.1.zsets)
            × (q.1.strings job.unique_key ≡ some (updated_of m' job'))
      second r ran q (held, _, inl (missing, _, _)) =
          let k : r.1.strings job'.unique_key ≡ some (updated_of m job) =
            ap r.1.strings (sym same) ∙ ran.0 in
          cc
      second r ran q (held, _, inr (present, d, l, z)) = (d, l, z, ap q.1.strings same ∙ held)

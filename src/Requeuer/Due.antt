-- ===== src/Requeuer/Due.antt =====
-- A job that is due, and one that is not yet, in the requeuer's script.
use work.Prelude.{
  ℕ, leb, ◌≤◌, ◌<◌, ◌⊎◌, inl, inr, Bool-cases, ◌≡◌, ◌≢◌, refl, sym, subst, ap, ◌∙◌, Bool, true,
  false, List, [], ◌∷◌, ◌++◌, map, Option, some, arith,
}
use work.Text.{Text}
use work.Job.{
  Args, Blob, Job, Doc, doc, doc_of, serialize, new_job, name_kept, marshal_args, unmarshal_args,
}
use work.Job.RoundTrip.{blob_with, new_job-blob_with}
use work.Keys
use work.Redis.{Redis, Store, Key, ZSet, documented, update, z_insert, z_remove, z_range}
use work.Conn.{World, ok, exchange}
use work.Scripts.Requeue.{Reply, has_key, zrem_lpush, requeue_first, place, cjson_encode}
use work.Scripts.Requeue.Known.{has_key-jobs, has_key-more}
use work.Redis.Ranges.{z_range-z_insert, z_range-z_insert_late}
use work.Requeuer.{Requeuer, run_script, moved, process}

-- The job as a worker then reads it: enqueued now, its arguments as JSON and cjson leave them.
abbrev pub moved_job : Redis → ℕ → Job → Job
moved_job redis now j = record j {
  enqueued_at = now;
  args = unmarshal_args (redis.cjson (marshal_args j.args));
}

abbrev moved_blob : (Option Args → Option Args) → ℕ → Job → Blob
moved_blob cjson now j = blob_with (cjson (marshal_args j.args)) (record j { enqueued_at = now })

-- The job has left the set, and is the newest of its queue.
pub record Moved (redis : Redis) (key queue : Key) (now : ℕ) (j : Job) (s t : Store) : Type 0 where
  pub removed : t.zsets ≡ update s.zsets key (z_remove (serialize j) (s.zsets key))
  pub bytes : Blob
  pub queued : t.lists ≡ update s.lists queue (bytes ∷ s.lists queue)
  pub read_as :
      (from prog : Text)
      → new_job bytes from prog
        ≡ some (record (moved_job redis now j) {
          raw_json = bytes;
          dequeued_from = from;
          in_prog_queue = prog;
        })

module _ (before : Blob → Blob → Bool) (cjson : Option Args → Option Args) where
  abbrev d : Redis
  d = documented before cjson

  abbrev after : Key → Key → ℕ → Job → Store → Store
  after key queue now j s = record s {
    zsets = update s.zsets key (z_remove (serialize j) (s.zsets key));
    lists = update s.lists queue (moved_blob cjson now j ∷ s.lists queue);
  }

  place_known :
      (keys : List Key) (dead_key queue : Key) (now : ℕ) (c : Doc) (s : Store)
      → has_key queue keys ≡ true
      → place d keys dead_key queue now c s
        ≡ (Reply.ok, d.lpush queue (cjson_encode d (record c { t = some now })) s)
  unfolding place
  place_known keys dead_key queue now c s known = simp (known, place)

  first_named :
      (key dead_key : Key) (queues : List Key) (prefix name : Text) (now score : ℕ) (rest : ZSet)
      (c : Doc) (s : Store)
      → c.name ≡ some name
      → requeue_first d key dead_key queues prefix now ((score, doc c) ∷ rest) s
        ≡ place d (key ∷ dead_key ∷ queues) dead_key (prefix ++ name) now c (d.zrem key (doc c) s)
  unfolding requeue_first
  first_named key dead_key queues prefix name now score rest c s n = simp (n, requeue_first)

  run_script-due :
      (r : Requeuer) (now score : ℕ) (rest : ZSet) (j : Job) (s : Store)
      → z_range 0 now (s.zsets r.requeue_key) ≡ (score, serialize j) ∷ rest
      → j.name ≢ []
      → has_key
          (Keys.jobs r.namespace j.name)
          (r.requeue_key ∷ Keys.dead r.namespace ∷ map (Keys.jobs r.namespace) r.job_names)
        ≡ true
      → run_script d r now s
        ≡ (Reply.ok, after r.requeue_key (Keys.jobs r.namespace j.name) now j s)
  unfolding run_script zrem_lpush documented serialize doc_of cjson_encode Keys.jobs
  run_script-due r now score rest j s due named known =
      let key = r.requeue_key in
      let dead_key = Keys.dead r.namespace in
      let queues = map (Keys.jobs r.namespace) r.job_names in
      let prefix = Keys.jobs_prefix r.namespace in
      ap (λ z. requeue_first d key dead_key queues prefix now z s) due
      ∙ first_named key dead_key queues prefix j.name now score rest (doc_of j) s
          (name_kept j.name named)
      ∙ place_known (key ∷ dead_key ∷ queues) dead_key (prefix ++ j.name) now (doc_of j)
          (d.zrem key (doc (doc_of j)) s) known

  run_script-early :
      (r : Requeuer) (now : ℕ) (s : Store)
      → z_range 0 now (s.zsets r.requeue_key) ≡ []
      → run_script d r now s ≡ (Reply.nil, s)
  unfolding run_script zrem_lpush documented requeue_first
  run_script-early r now s due =
      ap
        (λ z.
          requeue_first d r.requeue_key (Keys.dead r.namespace)
            (map (Keys.jobs r.namespace) r.job_names) (Keys.jobs_prefix r.namespace) now z s)
        due

due_or_early : (at now : ℕ) → (at ≤ now) ⊎ (now < at)
due_or_early at now = elim (Bool-cases (leb at now)) [
  | inl e ↦ inl (ground arith)
  | inr e ↦ inr (ground arith)
]

-- At the time `now`, the job with the score `at` is moved if it is due, and otherwise nothing happens.
abbrev pub Turned : Redis → Requeuer → ℕ → ℕ → Job → World → Bool × World → Type 0
Turned redis r at now j w p =
    ((at ≤ now)
      × (p.0 ≡ true)
      × Moved redis r.requeue_key (Keys.jobs r.namespace j.name) now j w.store p.1.store)
    ⊎ ((now < at) × (p.0 ≡ false) × (p.1.store ≡ w.store))

module _ (before : Blob → Blob → Bool) (cjson : Option Args → Option Args) where
  process-calm :
      (r : Requeuer) (now : ℕ) (w : World) (p : Reply × Store)
      → w.faults ≡ []
      → run_script (documented before cjson) r now w.store ≡ p
      → process (documented before cjson) r now w
        ≡ moved (ok p.0, record w { store = p.1; faults = [] })
  unfolding process
  process-calm r now w p calm ran =
      ap (λ fs. moved (exchange fs (run_script (documented before cjson) r now) w)) calm
      ∙ ap (λ (q : Reply × Store). moved (ok q.0, record w { store = q.1; faults = [] })) ran

  Moved-after :
      (key queue : Key) (now : ℕ) (j : Job) (s : Store)
      → Moved (documented before cjson) key queue now j s (after before cjson key queue now j s)
  unfolding documented
  Moved-after key queue now j s = record {
    removed = refl;
    bytes = moved_blob cjson now j;
    queued = refl;
    read_as = λ from prog.
        new_job-blob_with (cjson (marshal_args j.args)) (record j { enqueued_at = now }) from prog;
  }

  -- The only job that may be due.
  pub process-Turned :
      (r : Requeuer) (at now : ℕ) (z : ZSet) (j : Job) (w : World)
      → w.faults ≡ []
      → z_range 0 now z ≡ []
      → w.store.zsets r.requeue_key ≡ z_insert before at (serialize j) z
      → j.name ≢ []
      → has_key j.name r.job_names ≡ true
      → Turned (documented before cjson) r at now j w (process (documented before cjson) r now w)
  unfolding moved
  process-Turned r at now z j w calm nothing held named known =
      let d = documented before cjson in
      let known' = has_key-more _ r.requeue_key _ (
        has_key-more _ (Keys.dead r.namespace) _
          (has_key-jobs r.namespace j.name r.job_names known)) in
      elim (due_or_early at now) [
        | inl le ↦
            subst (Turned d r at now j w)
              (sym (
                process-calm r now w _ calm (
                  run_script-due before cjson r now at [] j w.store
                    (ap (z_range 0 now) held
                      ∙ z_range-z_insert before now at (serialize j) z nothing le)
                    named known')))
              (inl
                (le, refl, Moved-after r.requeue_key (Keys.jobs r.namespace j.name) now j w.store))
        | inr lt ↦
            subst (Turned d r at now j w)
              (sym (
                process-calm r now w _ calm (
                  run_script-early before cjson r now w.store (
                    ap (z_range 0 now) held
                    ∙ z_range-z_insert_late before now at (serialize j) z nothing lt))))
              (inr (lt, refl, refl))
      ]

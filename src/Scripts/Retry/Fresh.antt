-- ===== src/Scripts/Retry/Fresh.antt =====
-- What becomes of a dead job that is retried.
use work.Prelude.{
  ℕ, ◌≡◌, ◌≢◌, refl, ap, ◌∙◌, Bool, true, [], ◌∷◌, ◌++◌, List, Option, some, none, arith,
}
use work.Text.{Text}
use work.Job.{
  Args, Blob, Job, Doc, doc, doc_of, serialize, new_job, name_kept, marshal_args, unmarshal_args,
}
use work.Job.RoundTrip.{blob_with, new_job-blob_with}
use work.Redis.{
  Redis, Store, Key, documented, update, z_remove, z_range, IsDocumented, of_documented,
}
use work.Scripts.Requeue.{has_key, cjson_encode}
use work.Scripts.Delete.{id_is}
use work.Scripts.Retry.{revive, revive_loop, add_if, requeue_single_dead}

-- The job as a worker then reads it: enqueued now, with no failures. Its arguments went through cjson.
abbrev pub fresh : Redis → ℕ → Job → Job
fresh redis now j = record j {
  enqueued_at = now;
  args = unmarshal_args (redis.cjson (marshal_args j.args));
  fails = 0;
  last_err = [];
  failed_at = 0;
}

abbrev fresh_blob : (Option Args → Option Args) → ℕ → Job → Blob
fresh_blob cjson now j =
    blob_with (cjson (marshal_args j.args))
      (record j { enqueued_at = now; fails = 0; last_err = []; failed_at = 0 })

-- One job retried: its queue has a job in front that reads as the fresh one, and the dead set has
-- the entry no more.
pub record Revived (redis : Redis) (dead_key queue : Key) (now : ℕ) (j : Job) (s t : Store)
    : Type 0 where
  pub removed : t.zsets ≡ update s.zsets dead_key (z_remove (serialize j) (s.zsets dead_key))
  pub bytes : Blob
  pub queued : t.lists ≡ update s.lists queue (bytes ∷ s.lists queue)
  pub read_as :
      (from prog : Text)
      → new_job bytes from prog
        ≡ some (record (fresh redis now j) {
          raw_json = bytes;
          dequeued_from = from;
          in_prog_queue = prog;
        })

abbrev pub Retried : Redis → Key → Key → ℕ → Job → Store → Option ℕ × Store → Type 0
Retried redis dead_key queue now j s r = (r.0 ≡ some 1) × Revived redis dead_key queue now j s r.1

module _ (before : Blob → Blob → Bool) (cjson : Option Args → Option Args) where
  -- The store after the job j went to its queue.
  abbrev after : Key → Key → ℕ → Job → Store → Store
  after dead_key queue now j s = record s {
    zsets = update s.zsets dead_key (z_remove (serialize j) (s.zsets dead_key));
    lists = update s.lists queue (fresh_blob cjson now j ∷ s.lists queue);
  }

  revive_one :
      (dead_key : Key) (queues : List Key) (prefix name : Text) (now score : ℕ) (picks : Doc → Bool)
      (d : Doc) (s : Store)
      → picks d ≡ true
      → d.name ≡ some name
      → let t = (documented before cjson).zrem dead_key (doc d) s in
        let r = revive (documented before cjson) dead_key queues (prefix ++ name) now d t in
        revive_loop
          (documented before cjson)
          dead_key
          queues
          prefix
          now
          picks
          ((score, doc d) ∷ [])
          0
          s
        ≡ (some (add_if (documented before cjson) r.0 0), r.1)
  unfolding revive_loop
  revive_one dead_key queues prefix name now score picks d s p n = simp (p, n, revive_loop)

  revive_known :
      (dead_key : Key) (queues : List Key) (queue : Key) (now : ℕ) (d : Doc) (s : Store)
      → has_key queue (dead_key ∷ queues) ≡ true
      → revive (documented before cjson) dead_key queues queue now d s ≡ (
        true,
        (documented before cjson).lpush queue
            (cjson_encode
              (documented before cjson)
              (record d { t = some now; fails = none; failed_at = none; err = none }))
            s,
      )
  unfolding revive
  revive_known dead_key queues queue now d s known = simp (known, revive)

  single_known :
      (dead_key : Key) (queues : List Key) (prefix : Text) (now died_at : ℕ) (s : Store) (j : Job)
      → z_range died_at died_at (s.zsets dead_key) ≡ (died_at, serialize j) ∷ []
      → j.name ≢ []
      → has_key (prefix ++ j.name) (dead_key ∷ queues) ≡ true
      → requeue_single_dead (documented before cjson) dead_key queues prefix now died_at j.id s
        ≡ (some 1, after dead_key (prefix ++ j.name) now j s)
  unfolding requeue_single_dead serialize doc_of documented cjson_encode
  single_known dead_key queues prefix now died_at s j due named known =
      let same : id_is j.id (some j.id) ≡ true = ground arith in
      rw due (
        revive_one dead_key queues prefix j.name now died_at (λ d. id_is j.id d.id) (doc_of j) s
          same (name_kept j.name named)
        ∙ ap (λ (r : Bool × Store). (some (add_if (documented before cjson) r.0 0), r.1))
            (revive_known dead_key queues (prefix ++ j.name) now (doc_of j)
              ((documented before cjson).zrem dead_key (doc (doc_of j)) s) known))

-- A dead job that is the only one of its time of death, with its name not empty and its queue known,
-- leaves the dead set when it is retried, and stands in front of its queue. What a worker reads there
-- is the same job, enqueued now and with no failures, no error and no time of failure: it has all its
-- tries again. Its arguments are as cjson decodes and encodes them.
pub requeue_single_dead-Retried :
    (redis : Redis)
    → IsDocumented redis
    → (dead_key : Key) (queues : List Key) (prefix : Text) (now died_at : ℕ) (s : Store) (j : Job)
    → z_range died_at died_at (s.zsets dead_key) ≡ (died_at, serialize j) ∷ []
    → j.name ≢ []
    → has_key (prefix ++ j.name) (dead_key ∷ queues) ≡ true
    → Retried redis dead_key
        (prefix ++ j.name)
        now
        j
        s
        (requeue_single_dead redis dead_key queues prefix now died_at j.id s)
unfolding documented
requeue_single_dead-Retried redis h dead_key queues prefix now died_at s j due named known =
    of_documented
      (λ r.
        Retried r dead_key (prefix ++ j.name) now j s
          (requeue_single_dead r dead_key queues prefix now died_at j.id s))
      (λ before cjson.
        rw (single_known before cjson dead_key queues prefix now died_at s j due named known) (
          refl,
          record {
            removed = refl;
            bytes = fresh_blob cjson now j;
            queued = refl;
            read_as = λ from prog.
                new_job-blob_with (cjson (marshal_args j.args))
                  (record j { enqueued_at = now; fails = 0; last_err = []; failed_at = 0 }) from
                  prog;
          },
        ))
      redis h

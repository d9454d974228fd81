-- ===== src/Tests/Bulks.antt =====
-- Examples of BulkEnqueue.
use work.Prelude.{ℕ, ◌≡◌, refl, Bool, not, ◌==◌, true, false, List, [], ◌∷◌, none}
use work.Text.{Text, Text-discrete, text}
use work.Keys
use work.Redis.{Store, documented}
use work.Scripts.Unique.{enqueue_unique}
use work.Conn.{World}
use work.Enqueuer.{Enqueuer, min_wait_enabled}
use work.Enqueuer.Bulk.{
  BulkEnqueueParam, BulkEnqueueResult, build_jobs, pending_names, add_names, bulk_enqueue,
  results_of,
}
use work.Enqueuer.Bulk.Staged.{Stages, entries, Sending}
use work.Enqueuer.Bulk.Pushes.{bulk_enqueue_lem}
use work.Enqueuer.Bulk.Singly.{enqueue_each, bulk_enqueue-enqueue_each}
use work.Tests.{redis, redis-IsDocumented, encode, empty_store, world_on, sends}

abbrev simple : BulkEnqueueParam
simple = record {
  name = text "m";
  args = none;
  run_at_epoch = 0;
  unique = false;
  unique_key_map = none;
}

abbrev once : BulkEnqueueParam
once = record simple { unique = true }

-- The second job's script is lost.
abbrev batch : List BulkEnqueueParam
batch = once ∷ once ∷ simple ∷ []

abbrev loaded : ℕ → Bool
loaded n = not (n == 1)

abbrev ids : ℕ → Text
ids n = text "1"

abbrev calm : World
calm = world_on empty_store

abbrev told : Bool → Text → BulkEnqueueResult
told skipped key = record {
  id = text "1";
  enqueued_at = 7;
  enqueue_skipped = skipped;
  unique_key = key;
}

abbrev quick : Enqueuer
quick = record sends { min_wait_replicas = 0 }

no_wait : min_wait_enabled quick ≡ false
unfolding min_wait_enabled
no_wait = refl

abbrev key : Text
key = Keys.unique_job encode (text "n") (text "m") none

abbrev told_all : List BulkEnqueueResult
told_all = told false key ∷ told true key ∷ told false [] ∷ []

bulk_enqueue_lem_example :
    let r = bulk_enqueue encode redis quick loaded ids 7 7 batch calm in
    let names = pending_names calm.known_jobs 7 batch in
    (sent : List Sending) × (t : Store) × (told_all ≡ results_of sent)
    × (entries sent ≡ build_jobs encode quick.namespace 7 ids 0 batch)
    × Stages encode redis quick loaded 0 sent calm.store t
        (add_names encode redis quick names t)
        r.1.store
unfolding bulk_enqueue enqueue_unique documented Text-discrete Keys.unique_job Keys.namespace_prefix
bulk_enqueue_lem_example =
    bulk_enqueue_lem encode redis quick loaded ids 7 7 batch calm told_all refl

abbrev pair : List BulkEnqueueParam
pair = simple ∷ record simple { run_at_epoch = 9 } ∷ []

bulk_enqueue-enqueue_each_example :
    let bulk = (bulk_enqueue encode redis quick loaded ids 7 7 pair calm).1.store in
    let each = (enqueue_each redis quick 7 ids 0 pair calm).store in
    (bulk.lists ≡ each.lists) × (bulk.zsets ≡ each.zsets)
bulk_enqueue-enqueue_each_example =
    bulk_enqueue-enqueue_each encode redis redis-IsDocumented quick loaded ids 7 7 pair calm no_wait
      (refl, (refl, tt)) refl

-- ===== src/Worker/InOrder/Delivered.antt =====
-- The jobs of one type reach a worker in the order in which they were enqueued.
use work.Prelude.{ℕ, ◌≡◌, refl, sym, subst, ap, ◌∙◌, Bool, List, [], ◌∷◌, ◌++◌, map, length, Option}
use work.Text.{Text}
use work.Job.{Args, Blob, Job, serialize}
use work.Job.RoundTrip.{read_back}
use work.Keys
use work.Redis.{Redis, Store, documented, IsDocumented, of_documented}
use work.Conn.{World}
use work.Enqueuer.{new_enqueuer, new_job_of, enqueue}
use work.Sampler.{SampleItem}
use work.Scripts.Fetch.{FetchKeys}
use work.Scripts.Fetch.Choice.{taken}
use work.Worker.{JobType, keys_of, process_job}
use work.Worker.Process.{Restored, calm}
use work.Worker.InOrder.{Order, Ready, enqueue_all, serve, attend}
use work.Worker.InOrder.Steps.{Served, delivered, enqueue-Served, process-Served, fetch-last}

-- The blobs of a queue after these were pushed, the last one first.
abbrev stacked : List Blob → List Blob → List Blob
stacked [] q = q
stacked (b ∷ bs) q = stacked bs (b ∷ q)

stacked-append : (bs q r : List Blob) → stacked bs (q ++ r) ≡ stacked bs q ++ r
stacked-append [] q r = refl
stacked-append (b ∷ bs) q r = stacked-append bs (b ∷ q) r

Restored-trans :
    (k : FetchKeys) (pool : Text) (s t u : Store)
    → Restored k pool s t
    → Restored k pool t u
    → Restored k pool s u
Restored-trans k pool s t u f g = record {
  in_prog = g.in_prog ∙ f.in_prog;
  lock = g.lock ∙ f.lock;
  lock_info = g.lock_info ∙ f.lock_info;
}

abbrev pub job_of : Text → Order → Job
job_of name o = new_job_of name o.id o.at o.arguments

abbrev blobs_of : Text → List Order → List Blob
blobs_of name os = map (λ o. serialize (job_of name o)) os

module _ (before : Blob → Blob → Bool) (cjson : Option Args → Option Args)
    (ns pool name : Text) where
  enqueue_all-Served :
      (os : List Order) (q : List Blob) (w : World)
      → w.faults ≡ []
      → Ready ns pool name q w.store
      → Served before cjson ns pool name
          (stacked (blobs_of name os) q)
          w
          (enqueue_all (documented before cjson) ns name os w)
  unfolding enqueue_all
  enqueue_all-Served [] q w c h = (c, h, record { in_prog = refl; lock = refl; lock_info = refl })
  enqueue_all-Served (o ∷ os) q w c h =
      let v =
        (enqueue (documented before cjson) (new_enqueuer ns 0) name o.arguments o.id o.at w).1 in
      let (quiet, ready, same) = enqueue-Served before cjson ns pool name o q w c h in
      let (calm_end, end, kept) = enqueue_all-Served os _ v quiet ready in
      (calm_end, end, Restored-trans _ pool _ _ _ same kept)

  module _ (encode : Args → Text) (x : SampleItem) (xs : List SampleItem) (jts : List JobType)
      (run : JobType → Job → Option Text) (clock draws : ℕ → ℕ)
      (payload : x.payload ≡ keys_of ns pool name) where
    abbrev End : List Order → World → List Job × World → Type 0
    End os w r =
        (r.0 ≡ map (λ o. delivered before cjson ns pool name (job_of name o)) os)
        × Served before cjson ns pool name [] w r.1

    serve-End :
        (os : List Order) (w : World)
        → w.faults ≡ []
        → Ready ns pool name (stacked (blobs_of name os) []) w.store
        → End os w (
            serve encode
              (documented before cjson)
              ns
              pool
              (x ∷ xs)
              jts
              run
              clock
              draws
              (length os)
              w)
    unfolding serve new_job_of
    serve-End [] w c h = (refl, (c, h, record { in_prog = refl; lock = refl; lock_info = refl }))
    serve-End (o ∷ os) w c h =
        let d = documented before cjson in
        let j = job_of name o in
        let q = stacked (blobs_of name os) [] in
        let last =
          subst (λ l. Ready ns pool name l w.store)
            (stacked-append (blobs_of name os) [] (serialize j ∷ [])) h in
        let t = calm (taken (keys_of ns pool name) pool q (serialize j) w.store) w in
        let n = length os in
        let v =
          (process_job encode d ns pool jts run (clock n) (draws n)
            (delivered before cjson ns pool name j) t).1 in
        let (quiet, ready, same) =
          process-Served before cjson ns pool name encode jts run (clock n) (draws n) q j w refl
            refl last in
        let (jobs, (calm_end, end, kept)) = serve-End os v quiet ready in
        subst
          (λ r. End (o ∷ os) w (
            attend encode d ns pool (x ∷ xs) jts run clock draws n
              (serve encode d ns pool (x ∷ xs) jts run clock draws n) r))
          (sym (fetch-last before cjson ns pool name encode x xs q j w payload c last))
          (
            ap (λ l. delivered before cjson ns pool name j ∷ l) jobs,
            (calm_end, end, Restored-trans _ pool _ _ _ same kept),
          )

-- The job as the worker reads it.
abbrev pub read_by_worker : Text → Text → Text → Order → Job
read_by_worker ns pool name o = record (read_back (job_of name o)) {
  raw_json = serialize (job_of name o);
  dequeued_from = Keys.jobs ns name;
  in_prog_queue = Keys.jobs_in_progress ns pool name;
}

-- Jobs of one type that are enqueued onto its empty queue reach a worker whose first sample is that
-- type in the order in which they were enqueued, each one exactly once and as it was enqueued, but with
-- its arguments as they are read back from JSON, though their handlers may fail. Then the queue is empty again, and the type's in-progress queue, lock and
-- lock info are as before. Redis answers, the Enqueuer waits for no replicas, the type is not paused
-- and its limit has room for one more job.
pub serve-enqueue_all :
    (encode : Args → Text) (redis : Redis)
    → IsDocumented redis
    → (ns pool name : Text) (x : SampleItem) (xs : List SampleItem) (job_types : List JobType)
      (run : JobType → Job → Option Text) (clock draws : ℕ → ℕ) (orders : List Order) (w : World)
    → x.payload ≡ keys_of ns pool name
    → w.faults ≡ []
    → Ready ns pool name [] w.store
    → let r =
        serve encode redis ns pool
          (x ∷ xs)
          job_types
          run
          clock
          draws
          (length orders)
          (enqueue_all redis ns name orders w) in
      (r.0 ≡ map (read_by_worker ns pool name) orders)
      × Ready ns pool name [] r.1.store
      × Restored (keys_of ns pool name) pool w.store r.1.store
serve-enqueue_all encode redis doc ns pool name x xs jts run clock draws orders w payload c ready =
    of_documented
      (λ d.
        let r =
          serve encode d ns pool (x ∷ xs) jts run clock draws (length orders)
            (enqueue_all d ns name orders w) in
        (r.0 ≡ map (read_by_worker ns pool name) orders)
        × Ready ns pool name [] r.1.store
        × Restored (keys_of ns pool name) pool w.store r.1.store)
      (λ before cjson.
        let v = enqueue_all (documented before cjson) ns name orders w in
        let (quiet, queued, same) =
          enqueue_all-Served before cjson ns pool name orders [] w c ready in
        let (jobs, (calm_end, end, kept)) =
          serve-End before cjson ns pool name encode x xs jts run clock draws payload orders v quiet
            queued in
        (jobs, end, Restored-trans _ pool _ _ _ same kept))
      redis doc

-- ===== src/Worker/InOrder/Steps.antt =====
-- One Enqueue, and one job fetched and processed, while Redis answers.
use mathlib.Core.Path.{subst₂}
use work.Prelude.{
  ℕ, ◌≡◌, ◌≢◌, refl, sym, subst, ap, ◌∙◌, Bool, false, List, [], ◌∷◌, ◌++◌, map, Option, none, some,
  arith, if_pos, if_neg,
}
use work.Prelude.Int.{ℤ}
use work.Text.{Text, text, Text-discrete}
use work.Job.{Args, Blob, Job, serialize, new_job}
use work.Job.RoundTrip.{read_back, new_job-serialize}
use work.Keys
use work.Keys.Apart.{append_left_cancel}
use work.Redis.{Redis, Store, documented, or_0, update}
use work.Redis.Lists.{pop_last-append}
use work.Conn.{World, ok, bind_result, exchange}
use work.Enqueuer.Plain.{registered-world}
use work.Enqueuer.{
  Enqueuer, new_enqueuer, new_job_of, enqueue, receive_wait, redis_do_helper, add_to_known_jobs,
}
use work.Sampler.{SampleItem}
use work.Scripts.Fetch.{FetchKeys, Fetched, fetch_job, take_job}
use work.Scripts.Fetch.Choice.{HasRoom, IsRunnable, may_run_complete, taken}
use work.Worker.{
  JobType, TerminateOp, keys_of, fetch, process_job, settle, apply_fate, parse_reply, fate_of,
  find_type, run_error,
}
use work.Worker.Process.{
  Restored, calm, in_progress-ne-jobs, process_plain, settle_named, fate_of-kept,
}
use work.Worker.Loop.Quiet.{process_job-Quiet}
use work.Worker.InOrder.{Order, Ready}

HasRoom-or_0 : (a m : Option ℤ) → HasRoom (some (or_0 a)) m → HasRoom a m
HasRoom-or_0 a none h = tt
HasRoom-or_0 none (some m) h = tt
HasRoom-or_0 (some a) (some m) h = h

lock-ne-concurrency : (ns name : Text) → Keys.jobs_lock ns name ≢ Keys.jobs_concurrency ns name
unfolding Keys.jobs_lock Keys.jobs_concurrency
lock-ne-concurrency ns name e =
    let suffixes : text ":lock" ≡ text ":max_concurrency" =
      append_left_cancel (Keys.jobs ns name) _ _ e in
    absurd (cc)

parse_reply-job :
    (f : Fetched) (b : Blob) (job : Job)
    → f.res ≡ some b
    → new_job b f.job_queue f.in_prog_queue ≡ some job
    → (w : World) → parse_reply (some f) w ≡ (ok (some job), w)
unfolding parse_reply
parse_reply-job f b job res parsed w = rw (res, parsed) refl

not_empty : (q : List Blob) (b : Blob) → q ++ b ∷ [] ≢ []
not_empty [] b e = absurd (cc)
not_empty (c ∷ q) b e = absurd (cc)

module _ (before : Blob → Blob → Bool) (cjson : Option Args → Option Args)
    (ns pool name : Text) where
  abbrev d : Redis
  d = documented before cjson

  Ready-IsRunnable :
      (q : List Blob) (b : Blob) (s : Store)
      → Ready ns pool name (q ++ b ∷ []) s
      → IsRunnable s (keys_of ns pool name)
  unfolding keys_of
  Ready-IsRunnable q b s h = record {
    waiting = λ e. not_empty q b (sym h.waiting ∙ e);
    unpaused = h.unpaused;
    room = HasRoom-or_0 _ _ h.room;
  }

  take_job-last :
      (k : FetchKeys) (q : List Blob) (b : Blob) (s : Store)
      → s.lists k.job_queue ≡ q ++ b ∷ []
      → take_job d k pool s ≡ (
        some (record { res = some b; job_queue = k.job_queue; in_prog_queue = k.in_prog_queue }),
        taken k pool q b s,
      )
  unfolding take_job documented
  take_job-last k q b s e = rw (e, pop_last-append q b)

  known_same :
      (e : Enqueuer) (now : ℕ) (w : World)
      → w.faults ≡ []
      → let v = (add_to_known_jobs d e name now w).1 in
        (v.faults ≡ [])
        × (v.store.lists ≡ w.store.lists)
        × (v.store.strings ≡ w.store.strings)
        × (v.store.counters ≡ w.store.counters)
        × (v.store.tallies ≡ w.store.tallies)
  unfolding add_to_known_jobs documented
  known_same e now w c = (
    ground (arith, c),
    ground (arith, c),
    ground (arith, c),
    ground (arith, c),
    ground (arith, c),
  )

  -- Redis answers on, the queue is as given, and nothing is left in progress that was not before.
  abbrev pub Served : List Blob → World → World → Type 0
  Served q w v =
      (v.faults ≡ [])
      × Ready ns pool name q v.store
      × Restored (keys_of ns pool name) pool w.store v.store

  pub enqueue-Served :
      (o : Order) (q : List Blob) (w : World)
      → w.faults ≡ []
      → Ready ns pool name q w.store
      → let v = (enqueue d (new_enqueuer ns 0) name o.arguments o.id o.at w).1 in
        Served (serialize (new_job_of name o.id o.at o.arguments) ∷ q) w v
  unfolding enqueue documented new_enqueuer redis_do_helper receive_wait Keys.jobs keys_of
  enqueue-Served o q w c h =
      let j = new_job_of name o.id o.at o.arguments in
      let key = Keys.jobs_prefix ns ++ name in
      let v : World = record w {
        store = record w.store {
          lists = update w.store.lists key (serialize j ∷ w.store.lists key);
        };
        faults = [];
      } in
      let after = add_to_known_jobs d (new_enqueuer ns 0) name o.at v in
      let (quiet, lists, strings, counters, tallies) = known_same (new_enqueuer ns 0) o.at v refl in
      let world = registered-world j after in
      rw (c, world)
        (
          quiet,
          record {
            waiting =
                ap (λ (l : Text → List Blob). l key) lists
                ∙ if_pos (Text-discrete key key) refl _ _
                ∙ ap (λ l. serialize j ∷ l) h.waiting;
            unpaused =
                ap (λ (l : Text → Option Blob). l (Keys.jobs_paused ns name)) strings ∙ h.unpaused;
            room =
                subst
                  (λ (l : Text → Option ℤ).
                    HasRoom (some (or_0 (l (Keys.jobs_lock ns name))))
                      (l (Keys.jobs_concurrency ns name)))
                  (sym counters) h.room;
          },
          record {
            in_prog =
                ap (λ (l : Text → List Blob). l (Keys.jobs_in_progress ns pool name)) lists
                ∙ if_neg (Text-discrete key (Keys.jobs_in_progress ns pool name))
                    (λ e. in_progress-ne-jobs ns pool name (sym e)) _ _;
            lock = ap (λ (l : Text → Option ℤ). or_0 (l (Keys.jobs_lock ns name))) counters;
            lock_info =
                ap (λ (l : Text → Text → Option ℤ). or_0 (l (Keys.jobs_lock_info ns name) pool))
                  tallies;
          },
        )

  settle-fields :
      (encode : Args → Text) (q : List Blob) (b : Blob) (s : Store) (job : Job) (fate : TerminateOp)
      → job.name ≡ name
      → job.in_prog_queue ≡ Keys.jobs_in_progress ns pool name
      → let t = settle encode d ns pool job fate b (taken (keys_of ns pool name) pool q b s) in
        (t.lists (Keys.jobs ns name) ≡ q)
        × (t.strings (Keys.jobs_paused ns name) ≡ s.strings (Keys.jobs_paused ns name))
        × (t.counters (Keys.jobs_concurrency ns name) ≡ s.counters (Keys.jobs_concurrency ns name))
  unfolding settle documented keys_of apply_fate
  settle-fields encode q b s job fate e prog =
      let apart = in_progress-ne-jobs ns pool name in
      let unlike = lock-ne-concurrency ns name in
      (ground (arith, apart, prog), ground arith, ground (arith, unlike, e))

  settle-Ready :
      (encode : Args → Text) (q : List Blob) (b : Blob) (s : Store) (job : Job) (fate : TerminateOp)
      → job.name ≡ name
      → job.in_prog_queue ≡ Keys.jobs_in_progress ns pool name
      → Ready ns pool name (q ++ b ∷ []) s
      → Ready ns pool name q
          (settle encode d ns pool job fate b (taken (keys_of ns pool name) pool q b s))
  unfolding keys_of
  settle-Ready encode q b s job fate e prog h =
      let (lists, strings, limit) = settle-fields encode q b s job fate e prog in
      let back = settle_named encode before cjson ns pool name q b s job fate e prog in
      record {
        waiting = lists;
        unpaused = strings ∙ h.unpaused;
        room =
            subst₂ (λ (lock : ℤ) (limit : Option ℤ). HasRoom (some lock) limit) (sym back.lock)
              (sym limit) h.room;
      }

  fetch_job-last :
      (k : FetchKeys) (ks : List FetchKeys) (q : List Blob) (b : Blob) (s : Store)
      → k ≡ keys_of ns pool name
      → Ready ns pool name (q ++ b ∷ []) s
      → fetch_job d (k ∷ ks) pool s ≡ (
        some (record {
          res = some b;
          job_queue = Keys.jobs ns name;
          in_prog_queue = Keys.jobs_in_progress ns pool name;
        }),
        taken (keys_of ns pool name) pool q b s,
      )
  unfolding fetch_job keys_of
  fetch_job-last k ks q b s e h =
      let own = keys_of ns pool name in
      let runs = may_run_complete before cjson own s (Ready-IsRunnable q b s h) in
      ap (λ l. fetch_job d (l ∷ ks) pool s) e ∙ rw runs (take_job-last own q b s h.waiting)

  -- What the worker reads of the job.
  abbrev pub delivered : Job → Job
  delivered j = record (read_back j) {
    raw_json = serialize j;
    dequeued_from = Keys.jobs ns name;
    in_prog_queue = Keys.jobs_in_progress ns pool name;
  }

  pub fetch-last :
      (encode : Args → Text) (x : SampleItem) (xs : List SampleItem) (q : List Blob) (j : Job)
      (w : World)
      → x.payload ≡ keys_of ns pool name
      → w.faults ≡ []
      → Ready ns pool name (q ++ serialize j ∷ []) w.store
      → fetch encode d ns pool (x ∷ xs) w ≡ (
        ok (some (delivered j)),
        calm (taken (keys_of ns pool name) pool q (serialize j) w.store) w,
      )
  unfolding fetch
  fetch-last encode x xs q j w payload c h =
      let keys = map (λ (y : SampleItem). y.payload) (x ∷ xs) in
      ap (λ fs. bind_result (exchange fs (fetch_job d keys pool) w) parse_reply) c
      ∙ ap
          (λ (r : Option Fetched × Store).
            bind_result (ok r.0, record w { store = r.1; faults = [] }) parse_reply)
          (fetch_job-last x.payload (map (λ (y : SampleItem). y.payload) xs) q (serialize j) w.store
            payload h)
      ∙ parse_reply-job _ (serialize j) (delivered j) refl
          (new_job-serialize j (Keys.jobs ns name) (Keys.jobs_in_progress ns pool name)) _

  pub process-Served :
      (encode : Args → Text) (jts : List JobType) (run : JobType → Job → Option Text) (now draw : ℕ)
      (q : List Blob) (j : Job) (w : World)
      → j.name ≡ name
      → j.unique ≡ false
      → Ready ns pool name (q ++ serialize j ∷ []) w.store
      → Served q w
          (process_job encode d ns pool jts run now draw
            (delivered j)
            (calm (taken (keys_of ns pool name) pool q (serialize j) w.store) w)).1
  process-Served encode jts run now draw q j w e plain h =
      let t = taken (keys_of ns pool name) pool q (serialize j) w.store in
      let job = delivered j in
      let jt = find_type job.name jts in
      let (settled, fate) = fate_of now draw jt (run_error run jt job) job in
      let (kept_name, kept_queue) = fate_of-kept now draw jt (run_error run jt job) job in
      let done = process_plain encode before cjson ns pool jts run now draw t w job plain in
      (
        (process_job-Quiet encode before cjson ns pool jts run now draw job (calm t w) refl).calm,
        subst (Ready ns pool name q) (sym done)
            (settle-Ready encode q (serialize j) w.store settled fate (kept_name ∙ e) kept_queue h),
        subst (Restored (keys_of ns pool name) pool w.store) (sym done) (
            settle_named encode before cjson ns pool name q (serialize j) w.store settled fate
              (kept_name ∙ e) kept_queue),
      )

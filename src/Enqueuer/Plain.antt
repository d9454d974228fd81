-- ===== src/Enqueuer/Plain.antt =====
-- What Enqueue leaves behind, whatever becomes of its exchanges with Redis.
use work.Prelude.{
  ℕ, ◌≡◌, ◌⊎◌, inl, inr, refl, sym, Option-cases, ap, ◌∙◌, Bool, true, false, List, [], ◌∷◌, ◌++◌,
  Option, none, some, arith,
}
use work.Text.{Text}
use work.Job.{Args, Blob, Job, serialize}
use work.Keys
use work.Redis.{Redis, Store, Key, documented, update, IsDocumented, of_documented}
use work.Conn.{
  World, Result, ok, err, connection, Fault, delivered, request_lost, reply_lost, bind_result,
  exchange,
}
use work.Enqueuer.{
  Enqueuer, Outcome, new_job_of, redis_do_helper, receive_wait, add_to_known_jobs, enqueue, pushed,
  registered, need_sadd,
}

-- A name is cached only if the set of known jobs has it.
abbrev pub CacheIsTrue : Text → World → Type 0
CacheIsTrue ns w =
    (name : Text) (t : ℕ)
    → w.known_jobs name ≡ some t
    → w.store.sets (Keys.known_jobs ns) name ≡ true

abbrev pub lists_of : {A : Type 0} → A × World → Key → List Blob
lists_of r = r.1.store.lists

module _ (before : Blob → Blob → Bool) (cjson : Option Args → Option Args) (e : Enqueuer) where
  known-lists :
      (name : Text) (now : ℕ) (w : World)
      → lists_of (add_to_known_jobs (documented before cjson) e name now w) ≡ w.store.lists
  unfolding add_to_known_jobs documented
  known-lists name now w = ground arith

module _ (e : Enqueuer) where
  receive_wait-store : (w : World) → (receive_wait e w).1.store ≡ w.store
  unfolding receive_wait
  receive_wait-store w = ground arith

  receive_wait-known : (w : World) → (receive_wait e w).1.known_jobs ≡ w.known_jobs
  unfolding receive_wait
  receive_wait-known w = ground arith

-- What a command with a WAIT behind it does to the world.
abbrev pub Helped : (Store → Store) → World → Result (Unit {0}) × World → Type 0
Helped run w r =
    (r.1.known_jobs ≡ w.known_jobs)
    × ((r.1.store ≡ run w.store) ⊎ ((r.1.store ≡ w.store) × (r.0 ≡ err connection)))

-- The command is carried out, or was lost with its request, and then an error is returned.
helper_on :
    (e : Enqueuer) (fs : List Fault) (run : Store → Store) (w : World)
    → Helped run w (bind_result (exchange fs (λ s. (tt, run s)) w) (λ _. receive_wait e))
helper_on e [] run w = (receive_wait-known e _, inl (receive_wait-store e _))
helper_on e (delivered ∷ fs) run w = (receive_wait-known e _, inl (receive_wait-store e _))
helper_on e (request_lost ∷ fs) run w = (refl, inr (refl, refl))
helper_on e (reply_lost ∷ fs) run w = (refl, inl refl)

pub helper_cases :
    (e : Enqueuer) (run : Store → Store) (w : World) → Helped run w (redis_do_helper e run w)
unfolding redis_do_helper
helper_cases e run w = helper_on e w.faults run w

-- The lists after the job is pushed onto its queue.
abbrev pub queued : Enqueuer → Job → Store → Key → List Blob
queued e job s =
    update s.lists (e.queue_prefix ++ job.name)
      (serialize job ∷ s.lists (e.queue_prefix ++ job.name))

-- Either nothing of the lists changes and no job is returned, or the job is the newest of its
-- queue and no other list changes.
abbrev pub Pushes : Enqueuer → Job → World → Outcome Job → Type 0
Pushes e job w r =
    (((r.0.0 ≡ none) ⊎ (r.0.0 ≡ some job)) × (lists_of r ≡ queued e job w.store))
    ⊎ ((r.0 ≡ (none, some connection)) × (lists_of r ≡ w.store.lists))

registered_cases :
    (job : Job) (r : Result (Unit {0}) × World)
    → ((registered job r).0.0 ≡ some job) × (lists_of (registered job r) ≡ lists_of r)
registered_cases job (ok u, w) = (refl, refl)
registered_cases job (err x, w) = (refl, refl)

pub registered-world :
    {J : Type 0} (job : J) (r : Result (Unit {0}) × World) → (registered job r).1 ≡ r.1
registered-world job (ok u, w) = refl
registered-world job (err x, w) = refl

cached_known :
    (ns name : Text) (now : ℕ) (w : World)
    → CacheIsTrue ns w
    → need_sadd now (w.known_jobs name) ≡ false
    → w.store.sets (Keys.known_jobs ns) name ≡ true
unfolding need_sadd
cached_known ns name now w c h = elim (Option-cases (w.known_jobs name)) [
  | inl e ↦ let g : true ≡ false = rw (e, need_sadd) at h in cc
  | inr (t, e) ↦ c name t e
]

module _ (before : Blob → Blob → Bool) (cjson : Option Args → Option Args) (e : Enqueuer) where
  Pushes-by :
      (job : Job) (w : World) (now : ℕ) (r : Result (Unit {0}) × World)
      → Helped (λ s. record s { lists = queued e job s }) w r
      → Pushes e job w (pushed job (add_to_known_jobs (documented before cjson) e job.name now) r)
  Pushes-by job w now (ok u, v) (k, inl s) =
      let (some_job, lists) =
        registered_cases job (add_to_known_jobs (documented before cjson) e job.name now v) in
      inl (
        inr some_job,
        lists ∙ known-lists before cjson e job.name now v ∙ ap (λ (t : Store). t.lists) s,
      )
  Pushes-by job w now (ok u, v) (k, inr (s, x)) = cc
  Pushes-by job w now (err x, v) (k, inl s) = inl (inl refl, ap (λ (t : Store). t.lists) s)
  Pushes-by job w now (err x, v) (k, inr (s, y)) = inr (ground arith, ap (λ (t : Store). t.lists) s)

  -- The name is in the set when the call succeeds, and the cache stays true in any case.
  known_true :
      (name : Text) (now : ℕ) (w : World)
      → CacheIsTrue e.namespace w
      → let r = add_to_known_jobs (documented before cjson) e name now w in
        (r.0 ≡ ok tt → r.1.store.sets (Keys.known_jobs e.namespace) name ≡ true)
        × CacheIsTrue e.namespace r.1
  unfolding add_to_known_jobs documented
  known_true name now w c =
      let cached = cached_known e.namespace name now w c in
      (λ h. ground (arith, cached), λ n t h. ground (arith, c n t))

abbrev pub Enqueued : Enqueuer → Job → World → Outcome Job → Type 0
Enqueued e job w r =
    Pushes e job w r
    × (r.0.1 ≡ none
        → (r.0.0 ≡ some job) × (r.1.store.sets (Keys.known_jobs e.namespace) job.name ≡ true))
    × CacheIsTrue e.namespace r.1

-- The cache is about the set alone.
cache-moves :
    (ns : Text) (v w : World)
    → v.known_jobs ≡ w.known_jobs
    → v.store.sets ≡ w.store.sets
    → CacheIsTrue ns w
    → CacheIsTrue ns v
cache-moves ns v w k s c name t h =
    ap (λ (f : Key → Text → Bool). f (Keys.known_jobs ns) name) s
    ∙ c name t (sym (ap (λ (f : Text → Option ℕ). f name) k) ∙ h)

Helped-sets :
    (e : Enqueuer) (job : Job) (w : World) (r : Result (Unit {0}) × World)
    → Helped (λ s. record s { lists = queued e job s }) w r
    → r.1.store.sets ≡ w.store.sets
Helped-sets e job w r (k, inl s) = ap (λ (t : Store). t.sets) s
Helped-sets e job w r (k, inr (s, x)) = ap (λ (t : Store). t.sets) s

registered-known :
    (ns name : Text) (job : Job) (r : Result (Unit {0}) × World)
    → (r.0 ≡ ok tt → r.1.store.sets (Keys.known_jobs ns) name ≡ true) × CacheIsTrue ns r.1
    → ((registered job r).0.1 ≡ none
        → ((registered job r).0.0 ≡ some job)
          × ((registered job r).1.store.sets (Keys.known_jobs ns) name ≡ true))
      × CacheIsTrue ns (registered job r).1
registered-known ns name job (ok u, w) (known, c) = (λ h. (refl, known refl), c)
registered-known ns name job (err x, w) (known, c) = (λ h. cc, c)

enqueue_documented :
    (before : Blob → Blob → Bool) (cjson : Option Args → Option Args) (e : Enqueuer) (job : Job)
    (now : ℕ) (w : World) (r : Result (Unit {0}) × World)
    → Helped (λ s. record s { lists = queued e job s }) w r
    → CacheIsTrue e.namespace w
    → Enqueued e job w (pushed job (add_to_known_jobs (documented before cjson) e job.name now) r)
enqueue_documented before cjson e job now w (ok u, v) helped c =
    let c' = cache-moves e.namespace v w helped.0 (Helped-sets e job w (ok u, v) helped) c in
    let (known, cached) =
      registered-known e.namespace job.name job _ (known_true before cjson e job.name now v c') in
    (Pushes-by before cjson e job w now (ok u, v) helped, known, cached)
enqueue_documented before cjson e job now w (err x, v) helped c = (
  Pushes-by before cjson e job w now (err x, v) helped,
  (λ h. cc),
  cache-moves e.namespace v w helped.0 (Helped-sets e job w (err x, v) helped) c,
)

enqueue_on :
    (before : Blob → Blob → Bool) (cjson : Option Args → Option Args) (e : Enqueuer) (name : Text)
    (args : Option Args) (id : Text) (now : ℕ) (w : World)
    → CacheIsTrue e.namespace w
    → Enqueued e
        (new_job_of name id now args)
        w
        (enqueue (documented before cjson) e name args id now w)
unfolding enqueue documented
enqueue_on before cjson e name args id now w c =
    let job = new_job_of name id now args in
    enqueue_documented before cjson e job now w _
      (helper_cases e (λ s. record s { lists = queued e job s }) w) c

-- Whatever becomes of its exchanges with Redis, Enqueue either pushes the job onto its queue, as the
-- newest, and changes no other list, or changes no list and returns the connection's error alone.
-- When it returns no error it returns the job, and the job's name is in the set of known jobs.
-- The cache of known jobs holds only names of that set, if it did before.
pub enqueue_lem :
    (redis : Redis)
    → IsDocumented redis
    → (e : Enqueuer) (name : Text) (args : Option Args) (id : Text) (now : ℕ) (w : World)
    → CacheIsTrue e.namespace w
    → Enqueued e (new_job_of name id now args) w (enqueue redis e name args id now w)
enqueue_lem redis h e name args id now w c =
    of_documented (λ r. Enqueued e (new_job_of name id now args) w (enqueue r e name args id now w))
      (λ before cjson. enqueue_on before cjson e name args id now w c) redis h

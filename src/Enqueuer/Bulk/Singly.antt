-- ===== src/Enqueuer/Bulk/Singly.antt =====
-- BulkEnqueue of jobs that are not unique, and the same jobs enqueued one by one.
use work.Prelude.{
  ℕ, suc, ◌≡◌, refl, sym, subst, ap, ◌∙◌, Bool, true, false, List, [], ◌∷◌, All, Option, none, some,
  arith, ◌==◌, if◌then◌else◌, Bool-cases, inl, inr,
}
use work.Text.{Text}
use work.Job.{Args, Blob, Job}
use work.Keys
use work.Redis.{Redis, Store, documented, IsDocumented, of_documented}
use work.Conn.{World}
use work.Enqueuer.{Enqueuer, min_wait_enabled, enqueue, enqueue_at, new_job_of}
use work.Enqueuer.Bulk.{
  BulkEnqueueParam, Entry, build_job, build_jobs, run_at_of, push_plain, add_names, bulk_enqueue,
}
use work.Enqueuer.Bulk.Singles.{
  Agree, Agree-trans, Agree-refl, Moved, build_job-plain, pushed-Moved,
}
use work.Enqueuer.Bulk.Staged.{
  Sending, Split, plain, known, lost, none_left, Sent, nothing, push, script, entries, Stages,
}
use work.Enqueuer.Bulk.Pushes.{bulk_enqueue_lem}
use work.Enqueuer.Bulk.Answers.{bulk_enqueue-Answered}

abbrev IsPlainEntry : Entry → Type 0
IsPlainEntry x = x.param.unique ≡ false

module _ (encode : Args → Text) (redis : Redis) (e : Enqueuer) where
  -- One push after the other.
  unfoldable push_all : List Entry → Store → Store
  unfolding push_plain
  push_all [] s = s
  push_all (x ∷ xs) s = push_all xs (push_plain encode redis e x (run_at_of x.param.run_at_epoch) s)

  Sent-push_all :
      (xs : List Sending) (s t : Store)
      → All IsPlainEntry (entries xs)
      → Sent encode redis e s xs t
      → t ≡ push_all (entries xs) s
  unfolding push_all
  Sent-push_all [] s t h nothing = refl
  Sent-push_all (x ∷ xs) s t h (push p sent) = Sent-push_all xs _ t h.1 sent
  Sent-push_all (x ∷ xs) s t h (script u ran sent) = absurd (clash (sym u ∙ h.0))
    where
      clash : true ≡ false → ⊥
      clash p = cc

-- Jobs that are not unique all go out at once.
Split-plain :
    (has_script : ℕ → Bool) (i : ℕ) (xs ys zs : List Sending)
    → All IsPlainEntry (entries xs)
    → Split has_script i xs ys zs
    → (ys ≡ xs) × (zs ≡ [])
Split-plain has_script i [] ys zs h none_left = (refl, refl)
Split-plain has_script i (x ∷ xs) ys zs h (plain p rest) =
    let (e, f) = Split-plain has_script (suc i) xs _ zs h.1 rest in (ap (λ l. x ∷ l) e, f)
Split-plain has_script i (x ∷ xs) ys zs h (known u has rest) = absurd (clash (sym u ∙ h.0))
  where
    clash : true ≡ false → ⊥
    clash p = cc
Split-plain has_script i (x ∷ xs) ys zs h (lost u has rest) = absurd (clash (sym u ∙ h.0))
  where
    clash : true ≡ false → ⊥
    clash p = cc

module _ (redis : Redis) (e : Enqueuer) where
  -- The job of a parameter by itself: Enqueue, or EnqueueAt for a time.
  abbrev pub enqueue_one : ℕ → Text → BulkEnqueueParam → World → World
  enqueue_one now id p w =
      if p.run_at_epoch == 0
      then (enqueue redis e p.name p.args id now w).1
      else (enqueue_at redis e p.name p.run_at_epoch p.args id now w).1

  -- The i-th job has the i-th identifier.
  unfoldable pub enqueue_each : ℕ → (ℕ → Text) → ℕ → List BulkEnqueueParam → World → World
  enqueue_each now ids i [] w = w
  enqueue_each now ids i (p ∷ ps) w = enqueue_each now ids (suc i) ps (enqueue_one now (ids i) p w)

module _ (encode : Args → Text) (before : Blob → Blob → Bool) (cjson : Option Args → Option Args)
    (e : Enqueuer) (quick : min_wait_enabled e ≡ false) where
  abbrev d : Redis
  d = documented before cjson

  push_plain-Agree :
      (x : Entry) (at : Option ℕ) (s t : Store)
      → Agree s t
      → Agree (push_plain encode d e x at s) (push_plain encode d e x at t)
  unfolding push_plain documented
  push_plain-Agree x none s t a = record { queues = ground (arith, a.queues); sorted = a.sorted }
  push_plain-Agree x (some at) s t a = record {
    queues = a.queues;
    sorted = ground (arith, a.sorted);
  }

  push_all-Agree :
      (xs : List Entry) (s t : Store)
      → Agree s t
      → Agree (push_all encode d e xs s) (push_all encode d e xs t)
  unfolding push_all
  push_all-Agree [] s t a = a
  push_all-Agree (x ∷ xs) s t a =
      push_all-Agree xs _ _ (push_plain-Agree x (run_at_of x.param.run_at_epoch) s t a)

  add_names-Agree : (names : List Text) (s : Store) → Agree (add_names encode d e names s) s
  unfolding add_names documented
  add_names-Agree [] s = Agree-refl s
  add_names-Agree (name ∷ names) s =
      let a = add_names-Agree names (d.sadd (Keys.known_jobs e.namespace) name s) in
      record { queues = a.queues; sorted = a.sorted }

  -- The entry of the i-th parameter.
  abbrev entry : ℕ → Text → BulkEnqueueParam → Entry
  entry now id p = record { param = p; job = build_job encode e.namespace now id p }

  abbrev pushed_as : ℕ → Text → BulkEnqueueParam → Job → Store → Store
  pushed_as now id p job =
      push_plain encode d e (record { param = p; job = job }) (run_at_of p.run_at_epoch)

  enqueue_one-new :
      (now : ℕ) (id : Text) (p : BulkEnqueueParam) (w : World)
      → w.faults ≡ []
      → Moved (pushed_as now id p (new_job_of p.name id now p.args)) w (enqueue_one d e now id p w)
  unfolding push_plain run_at_of enqueue enqueue_at
  enqueue_one-new now id p w calm = elim (Bool-cases (p.run_at_epoch == 0)) [
    | inl none_set ↦
        rw none_set
          (pushed-Moved before cjson e (new_job_of p.name id now p.args) p.name now _ w quick calm)
    | inr a_time ↦ rw a_time (pushed-Moved before cjson e _ p.name now _ w quick calm)
  ]

  enqueue_one-Moved :
      (now : ℕ) (id : Text) (p : BulkEnqueueParam) (w : World)
      → p.unique ≡ false
      → w.faults ≡ []
      → Moved
          (pushed_as now id p (build_job encode e.namespace now id p))
          w
          (enqueue_one d e now id p w)
  enqueue_one-Moved now id p w once calm =
      subst (λ job. Moved (pushed_as now id p job) w (enqueue_one d e now id p w))
        (sym (build_job-plain encode e.namespace now id p once)) (enqueue_one-new now id p w calm)

  enqueue_each-Moved :
      (now : ℕ) (ids : ℕ → Text) (i : ℕ) (ps : List BulkEnqueueParam) (w : World)
      → All (λ (p : BulkEnqueueParam). p.unique ≡ false) ps
      → w.faults ≡ []
      → Moved
          (push_all encode d e (build_jobs encode e.namespace now ids i ps))
          w
          (enqueue_each d e now ids i ps w)
  unfolding enqueue_each push_all build_jobs
  enqueue_each-Moved now ids i [] w h calm = record { calm = calm; agrees = Agree-refl w.store }
  enqueue_each-Moved now ids i (p ∷ ps) w h calm =
      let one = enqueue_one-Moved now (ids i) p w h.0 calm in
      let rest =
        enqueue_each-Moved now ids (suc i) ps (enqueue_one d e now (ids i) p w) h.1 one.calm in
      record {
        calm = rest.calm;
        agrees =
            Agree-trans _ _ _ rest.agrees
              (push_all-Agree (build_jobs encode e.namespace now ids (suc i) ps) _ _ one.agrees);
      }

  build_jobs-All :
      (now : ℕ) (ids : ℕ → Text) (i : ℕ) (ps : List BulkEnqueueParam)
      → All (λ (p : BulkEnqueueParam). p.unique ≡ false) ps
      → All IsPlainEntry (build_jobs encode e.namespace now ids i ps)
  unfolding build_jobs
  build_jobs-All now ids i [] h = tt
  build_jobs-All now ids i (p ∷ ps) h = (h.0, build_jobs-All now ids (suc i) ps h.1)

  none_after : (s t : Store) (xs : List Sending) → xs ≡ [] → Sent encode d e s xs t → t ≡ s
  none_after s t [] h nothing = refl
  none_after s t (x ∷ xs) h sent = absurd (cc)

  -- The stages of a batch without unique jobs.
  Stages-Agree :
      (has_script : ℕ → Bool) (sent : List Sending) (names : List Text) (s t v : Store)
      → All IsPlainEntry (entries sent)
      → Stages encode d e has_script 0 sent s t (add_names encode d e names t) v
      → Agree v (push_all encode d e (entries sent) s)
  Stages-Agree has_script sent names s t v h stages =
      let (early, after) = Split-plain has_script 0 sent stages.early stages.after h stages.split in
      let first : t ≡ push_all encode d e (entries sent) s =
        Sent-push_all encode d e sent s t h
          (subst (λ xs. Sent encode d e s xs t) early stages.first) in
      let second = none_after (add_names encode d e names t) v stages.after after stages.second in
      subst (λ u. Agree u (push_all encode d e (entries sent) s)) (sym second)
        (subst (λ u. Agree (add_names encode d e names t) u) first (add_names-Agree names t))

  bulk_enqueue-on :
      (has_script : ℕ → Bool) (ids : ℕ → Text) (now clock : ℕ) (ps : List BulkEnqueueParam)
      (w : World)
      → All (λ (p : BulkEnqueueParam). p.unique ≡ false) ps
      → w.faults ≡ []
      → let bulk = (bulk_enqueue encode d e has_script ids now clock ps w).1.store in
        let each = (enqueue_each d e now ids 0 ps w).store in
        (bulk.lists ≡ each.lists) × (bulk.zsets ≡ each.zsets)
  bulk_enqueue-on has_script ids now clock ps w h calm =
      let (results, done, calm') =
        bulk_enqueue-Answered encode d e has_script ids now clock ps w quick calm in
      let (sent, t, told, built, stages) =
        bulk_enqueue_lem encode d e has_script ids now clock ps w results done in
      let all = build_jobs-All now ids 0 ps h in
      let bulk =
        subst
          (λ xs.
            Agree (bulk_enqueue encode d e has_script ids now clock ps w).1.store
              (push_all encode d e xs w.store))
          built
          (Stages-Agree has_script sent _ w.store t _ (subst (All IsPlainEntry) (sym built) all)
            stages) in
      let each = (enqueue_each-Moved now ids 0 ps w h calm).agrees in
      (bulk.queues ∙ sym each.queues, bulk.sorted ∙ sym each.sorted)

-- A batch without unique jobs leaves the same queues and the same sorted sets as the jobs enqueued one
-- by one in its order, each by Enqueue or, with a time, by EnqueueAt, with the same identifiers and
-- time, while Redis answers and the Enqueuer does not wait for replicas.
pub bulk_enqueue-enqueue_each :
    (encode : Args → Text) (redis : Redis)
    → IsDocumented redis
    → (e : Enqueuer) (has_script : ℕ → Bool) (ids : ℕ → Text) (now clock : ℕ)
      (ps : List BulkEnqueueParam) (w : World)
    → min_wait_enabled e ≡ false
    → All (λ (p : BulkEnqueueParam). p.unique ≡ false) ps
    → w.faults ≡ []
    → let bulk = (bulk_enqueue encode redis e has_script ids now clock ps w).1.store in
      let each = (enqueue_each redis e now ids 0 ps w).store in
      (bulk.lists ≡ each.lists) × (bulk.zsets ≡ each.zsets)
bulk_enqueue-enqueue_each encode redis doc e has_script ids now clock ps w quick h calm =
    of_documented
      (λ r.
        ((bulk_enqueue encode r e has_script ids now clock ps w).1.store.lists
          ≡ (enqueue_each r e now ids 0 ps w).store.lists)
        × ((bulk_enqueue encode r e has_script ids now clock ps w).1.store.zsets
            ≡ (enqueue_each r e now ids 0 ps w).store.zsets))
      (λ before cjson.
        bulk_enqueue-on encode before cjson e quick has_script ids now clock ps w h calm)
      redis doc

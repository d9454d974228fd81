-- ===== src/Enqueuer/Bulk/Pushes.antt =====
-- What BulkEnqueue sends, and in which order.
use work.Prelude.{
  ℕ, ◌+◌, ◌≡◌, refl, sym, subst, ap, ◌∙◌, Bool, Bool-cases, inl, inr, List, [], ◌∷◌, if◌then◌else◌,
  arith,
}
use work.Text.{Text}
use work.Job.{Args}
use work.Redis.{Redis, Store}
use work.Conn.{World, Result, ok, M, ◌>>=◌, ◌>>◌, pure, call}
use work.Enqueuer.{Enqueuer}
use work.Enqueuer.Bulk.{
  BulkEnqueueParam, BulkEnqueueResult, build_jobs, pending_names, remember_all, wait_reply,
  send_all, resend, all_sent, add_names, first_pipeline, second_pipeline, bulk_enqueue, results_of,
}
use work.Conn.Returns.{bound, exchange-ok}
use work.Enqueuer.Bulk.Staged.{Sending, Stages, entries, send_all-Both, resend-all_sent}

remember_all-store :
    (names : List Text) (t : ℕ) (w : World) → (remember_all names t w).1.store ≡ w.store
unfolding remember_all
remember_all-store [] t w = refl
remember_all-store (name ∷ names) t w = remember_all-store names t _

wait_reply-store : (e : Enqueuer) (w : World) → (wait_reply e w).1.store ≡ w.store
unfolding wait_reply
wait_reply-store e w = ground arith

same_results : {a b : List BulkEnqueueResult} → ok a ≡ ok b → b ≡ a
same_results p = cc

module _ (encode : Args → Text) (redis : Redis) (e : Enqueuer) where
  -- The results and the store after the jobs that were lost are sent, from the store `s`.
  abbrev Ends :
      List Sending
      → Store
      → List BulkEnqueueResult
      → Result (List BulkEnqueueResult) × World
      → Type 0
  Ends xs s results r =
      (results ≡ results_of (resend encode redis e xs s).0)
      × (r.1.store ≡ (resend encode redis e xs s).1)

  second_pipeline-Ends :
      (xs : List Sending) (w : World) (results : List BulkEnqueueResult)
      → (second_pipeline encode redis e xs w).0 ≡ ok results
      → Ends xs w.store results (second_pipeline encode redis e xs w)
  unfolding second_pipeline
  second_pipeline-Ends xs w results h =
      let (ys, sent, next) = bound (call (resend encode redis e xs) w) _ results h in
      let (same, moved) = exchange-ok w.faults (resend encode redis e xs) w ys sent in
      let v = (call (resend encode redis e xs) w).1 in
      let (u, waited, last) = bound (wait_reply e v) _ results (sym (ap (λ r. r.0) next) ∙ h) in
      (
        same_results (sym (ap (λ r. r.0) (next ∙ last)) ∙ h) ∙ ap results_of same,
        ap (λ r. r.1.store) (next ∙ last) ∙ wait_reply-store e v ∙ moved,
      )

  -- What comes behind the first pipeline's reply.
  abbrev pub Rest : List Sending → M (List BulkEnqueueResult)
  Rest xs = if all_sent xs then pure (results_of xs) else second_pipeline encode redis e xs

  abbrev Tail : List Text → ℕ → List Sending → M (List BulkEnqueueResult)
  Tail names t xs = remember_all names t >> wait_reply e >>= (λ _. Rest xs)

  last-Ends :
      (xs : List Sending) (w : World) (results : List BulkEnqueueResult)
      → (Rest xs w).0 ≡ ok results
      → Ends xs w.store results (Rest xs w)
  last-Ends xs w results = elim (Bool-cases (all_sent xs)) [
    | inl all ↦
        rw (all, resend-all_sent encode redis e xs w.store all) (λ h. (same_results h, refl))
    | inr some_lost ↦ rw some_lost (second_pipeline-Ends xs w results)
  ]

  Tail-Ends :
      (names : List Text) (t : ℕ) (xs : List Sending) (w : World) (results : List BulkEnqueueResult)
      → (Tail names t xs w).0 ≡ ok results
      → Ends xs w.store results (Tail names t xs w)
  Tail-Ends names t xs w results h =
      let (a, waited, next) = bound ((remember_all names t >> wait_reply e) w) _ results h in
      let (b, kept, before) = bound (remember_all names t w) (λ _. wait_reply e) a waited in
      let stays =
        ap (λ r. r.1.store) before
        ∙ wait_reply-store e (remember_all names t w).1
        ∙ remember_all-store names t w in
      subst (Ends xs w.store results) (sym next) (
        subst (λ s. Ends xs s results (Rest xs ((remember_all names t >> wait_reply e) w).1)) stays
          (last-Ends xs _ results (sym (ap (λ r. r.0) next) ∙ h)))

-- If BulkEnqueue returns results, whatever became of its exchanges with Redis, then they are those of
-- the batch's jobs, in the order of the parameters, and every job was sent exactly once: in a first
-- stage, in the order of the batch, those that are not unique or whose script Redis had, each by its
-- push or its script from the store that the one before it left; then the names that the cache did
-- not have were added to the known jobs; then in a second stage the unique jobs whose scripts Redis
-- had lost, in the order of the batch. A result says that its job was skipped exactly if that job's
-- script replied that the job is a duplicate.
pub bulk_enqueue_lem :
    (encode : Args → Text) (redis : Redis) (e : Enqueuer) (has_script : ℕ → Bool) (ids : ℕ → Text)
    (now clock : ℕ) (params : List BulkEnqueueParam) (w : World) (results : List BulkEnqueueResult)
    → let r = bulk_enqueue encode redis e has_script ids now clock params w in
      let names = pending_names w.known_jobs clock params in
      r.0 ≡ ok results
      → (sent : List Sending) × (t : Store) × (results ≡ results_of sent)
        × (entries sent ≡ build_jobs encode e.namespace now ids 0 params)
        × Stages encode redis e has_script 0 sent w.store t
            (add_names encode redis e names t)
            r.1.store
unfolding bulk_enqueue first_pipeline
bulk_enqueue_lem encode redis e has_script ids now clock params w results h =
    let names = pending_names w.known_jobs clock params in
    let jobs = build_jobs encode e.namespace now ids 0 params in
    let run = first_pipeline encode redis e has_script jobs names in
    let (xs, came, next) = bound (call run w) _ results h in
    let (same, moved) = exchange-ok w.faults run w xs came in
    let (built, stages) =
      send_all-Both encode redis e has_script 0 jobs w.store
        (add_names encode redis e names (send_all encode redis e has_script 0 jobs w.store).1) in
    let ends =
      Tail-Ends encode redis e names (clock + 300) xs (call run w).1 results
        (sym (ap (λ r. r.0) next) ∙ h) in
    let tail = Tail encode redis e names (clock + 300) xs (call run w).1 in
    let (told, left) =
      subst (λ l. Ends encode redis e l (run w.store).1 results tail) same
        (subst (λ s. Ends encode redis e xs s results tail) moved ends) in
    (
      _,
      _,
      told,
      built,
      subst (Stages encode redis e has_script 0 _ w.store _ _)
          (sym (ap (λ r. r.1.store) next ∙ left)) stages,
    )

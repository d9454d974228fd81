-- ===== src/Enqueuer/Bulk/Answers.antt =====
-- When BulkEnqueue returns results.
use work.Prelude.{ℕ, ◌+◌, ◌≡◌, refl, Bool, false, Bool-cases, inl, inr, List, [], ◌∷◌}
use work.Text.{Text}
use work.Job.{Args}
use work.Redis.{Redis}
use work.Conn.{World, call}
use work.Conn.Returns.{Answered, Returns, Returns-pure, Returns-call, Returns-bind}
use work.Enqueuer.{Enqueuer, min_wait_enabled, remember}
use work.Enqueuer.Bulk.{
  BulkEnqueueParam, pending_names, remember_all, wait_reply, resend, all_sent, second_pipeline,
  bulk_enqueue,
}
use work.Enqueuer.Bulk.Pushes.{Rest}
use work.Enqueuer.Bulk.Staged.{Sending}

remember_all-Returns : (names : List Text) (t : ℕ) → Returns (remember_all names t)
unfolding remember_all remember
remember_all-Returns [] t = Returns-pure tt
remember_all-Returns (name ∷ names) t =
    Returns-bind (remember name t) (λ _. remember_all names t) (λ w calm. (tt, refl, calm))
      (λ _. remember_all-Returns names t)

wait_reply-Returns : (e : Enqueuer) → min_wait_enabled e ≡ false → Returns (wait_reply e)
unfolding wait_reply
wait_reply-Returns e h = rw h (Returns-pure tt)

module _ (encode : Args → Text) (redis : Redis) (e : Enqueuer)
    (h : min_wait_enabled e ≡ false) where
  second_pipeline-Returns : (xs : List Sending) → Returns (second_pipeline encode redis e xs)
  unfolding second_pipeline
  second_pipeline-Returns xs =
      Returns-bind (call (resend encode redis e xs)) _ (Returns-call _)
        (λ ys. Returns-bind (wait_reply e) _ (wait_reply-Returns e h) (λ _. Returns-pure _))

  Rest-Returns : (xs : List Sending) → Returns (Rest encode redis e xs)
  Rest-Returns xs = elim (Bool-cases (all_sent xs)) [
    | inl all ↦ rw all (Returns-pure _)
    | inr some_lost ↦ rw some_lost (second_pipeline-Returns xs)
  ]

-- While Redis answers, and an Enqueuer does not wait for replicas, BulkEnqueue returns results,
-- whichever scripts Redis has lost.
pub bulk_enqueue-Answered :
    (encode : Args → Text) (redis : Redis) (e : Enqueuer) (has_script : ℕ → Bool) (ids : ℕ → Text)
    (now clock : ℕ) (params : List BulkEnqueueParam) (w : World)
    → min_wait_enabled e ≡ false
    → w.faults ≡ []
    → Answered (bulk_enqueue encode redis e has_script ids now clock params w)
unfolding bulk_enqueue
bulk_enqueue-Answered encode redis e has_script ids now clock params w h calm =
    Returns-bind (call _) _ (Returns-call _)
      (λ xs.
        Returns-bind _ _
          (Returns-bind _ _
            (remember_all-Returns (pending_names w.known_jobs clock params) (clock + 300))
            (λ _. wait_reply-Returns e h))
          (λ _. Rest-Returns encode redis e h xs))
      w calm

-- ===== src/Enqueuer/Bulk/Staged.antt =====
-- The two pipelines of BulkEnqueue, as stages in which its jobs are carried out.
use work.Prelude.{
  ℕ, suc, ◌≡◌, refl, sym, subst, ap, Bool, true, false, Bool-cases, inl, inr, List, [], ◌∷◌, map,
}
use work.Text.{Text}
use work.Job.{Args}
use work.Redis.{Redis, Store}
use work.Scripts.Unique.{Status}
use work.Enqueuer.{Enqueuer}
use work.Enqueuer.Bulk.{
  Reply, pushed, no_script, ran, Entry, run_at_of, run_bulk_unique, push_plain, send_one, send_all,
  resend, all_sent, replied, with_reply,
}

abbrev pub Sending : Type 0
Sending = Entry × Reply

-- The jobs of the first pipeline and those of the second, both in the order of the batch. A job is
-- in the second exactly if it is unique and Redis did not have its script.
pub data Split (has_script : ℕ → Bool)
    : ℕ → List Sending → List Sending → List Sending → Type 0 where
  none_left : {i : ℕ} → Split has_script i [] [] []
  plain :
      {i : ℕ} {x : Sending} {xs : List Sending} {ys : List Sending} {zs : List Sending}
      → x.0.param.unique ≡ false
      → Split has_script (suc i) xs ys zs
      → Split has_script i (x ∷ xs) (x ∷ ys) zs
  known :
      {i : ℕ} {x : Sending} {xs : List Sending} {ys : List Sending} {zs : List Sending}
      → x.0.param.unique ≡ true
      → has_script i ≡ true
      → Split has_script (suc i) xs ys zs
      → Split has_script i (x ∷ xs) (x ∷ ys) zs
  lost :
      {i : ℕ} {x : Sending} {xs : List Sending} {ys : List Sending} {zs : List Sending}
      → x.0.param.unique ≡ true
      → has_script i ≡ false
      → Split has_script (suc i) xs ys zs
      → Split has_script i (x ∷ xs) ys (x ∷ zs)

abbrev pub entries : List Sending → List Entry
entries = map (λ x. x.0)

module _ (encode : Args → Text) (redis : Redis) (e : Enqueuer) where
  -- The jobs are carried out one after the other, each once, with these replies.
  pub data Sent : Store → List Sending → Store → Type 0 where
    nothing : {s : Store} → Sent s [] s
    push :
        {x : Entry} {xs : List Sending} {s : Store} {u : Store}
        → x.param.unique ≡ false
        → Sent (push_plain encode redis e x (run_at_of x.param.run_at_epoch) s) xs u
        → Sent s ((x, pushed) ∷ xs) u
    script :
        {x : Entry} {status : Status} {xs : List Sending} {s : Store} {t : Store} {u : Store}
        → x.param.unique ≡ true
        → run_bulk_unique encode redis e x s ≡ (status, t)
        → Sent t xs u
        → Sent s ((x, ran status) ∷ xs) u

  -- Two stages of jobs that have been sent, with `s` and `u` as the stores before them.
  pub record Stages (has_script : ℕ → Bool) (i : ℕ) (xs : List Sending) (s t u v : Store)
      : Type 0 where
    pub early : List Sending
    pub after : List Sending
    pub split : Split has_script i xs early after
    pub first : Sent s early t
    pub second : Sent u after v

  abbrev pub Both : (ℕ → Bool) → ℕ → List Entry → Store → Store → List Sending × Store → Type 0
  Both has_script i xs s u (qs, t) =
      let r = resend encode redis e qs u in (entries r.0 ≡ xs) × Stages has_script i r.0 s t u r.1

  send_one-plain :
      (has : Bool) (x : Entry) (s : Store)
      → x.param.unique ≡ false
      → send_one encode redis e has x s
        ≡ (pushed, push_plain encode redis e x (run_at_of x.param.run_at_epoch) s)
  unfolding send_one
  send_one-plain has x s u = rw u refl

  send_one-known :
      (has : Bool) (x : Entry) (s : Store)
      → x.param.unique ≡ true
      → has ≡ true
      → send_one encode redis e has x s ≡ replied (run_bulk_unique encode redis e x s)
  unfolding send_one
  send_one-known has x s u h = rw (u, h) refl

  send_one-lost :
      (has : Bool) (x : Entry) (s : Store)
      → x.param.unique ≡ true
      → has ≡ false
      → send_one encode redis e has x s ≡ (no_script, s)
  unfolding send_one
  send_one-lost has x s u h = rw (u, h) refl

  module _ (has_script : ℕ → Bool) (i : ℕ) (x : Entry) (xs : List Entry) where
    -- The stages of the jobs behind x, from any two stores.
    abbrev Later : Type 0
    Later =
        (s u : Store)
        → Both has_script (suc i) xs s u (send_all encode redis e has_script (suc i) xs s)

    abbrev Next : Store → Store → Reply × Store → Type 0
    Next s u r =
        Both has_script i (x ∷ xs) s u
          (with_reply x r (send_all encode redis e has_script (suc i) xs))

    plain-Next :
        (s u : Store)
        → x.param.unique ≡ false
        → Later
        → Next s u (pushed, push_plain encode redis e x (run_at_of x.param.run_at_epoch) s)
    unfolding resend
    plain-Next s u h later =
        let (same, r) = later (push_plain encode redis e x (run_at_of x.param.run_at_epoch) s) u in
        (
          ap (λ l. x ∷ l) same,
          record {
            early = _;
            after = r.after;
            split = plain h r.split;
            first = push h r.first;
            second = r.second;
          },
        )

    known-Next :
        (s u : Store)
        → x.param.unique ≡ true
        → has_script i ≡ true
        → Later
        → Next s u (replied (run_bulk_unique encode redis e x s))
    unfolding resend
    known-Next s u h has later =
        let (same, r) = later (run_bulk_unique encode redis e x s).1 u in
        (
          ap (λ l. x ∷ l) same,
          record {
            early = _;
            after = r.after;
            split = known h has r.split;
            first = script h refl r.first;
            second = r.second;
          },
        )

    lost-Next :
        (s u : Store)
        → x.param.unique ≡ true
        → has_script i ≡ false
        → Later
        → Next s u (no_script, s)
    unfolding resend
    lost-Next s u h has later =
        let (same, r) = later s (run_bulk_unique encode redis e x u).1 in
        (
          ap (λ l. x ∷ l) same,
          record {
            early = r.early;
            after = _;
            split = lost h has r.split;
            first = r.first;
            second = script h refl r.second;
          },
        )

    send_all-Next : (s u : Store) → Later → Next s u (send_one encode redis e (has_script i) x s)
    send_all-Next s u later = elim (Bool-cases x.param.unique) [
      | inr h ↦
          subst (Next s u) (sym (send_one-plain (has_script i) x s h)) (plain-Next s u h later)
      | inl h ↦ elim (Bool-cases (has_script i)) [
        | inl has ↦
            subst (Next s u) (sym (send_one-known (has_script i) x s h has))
              (known-Next s u h has later)
        | inr has ↦
            subst (Next s u) (sym (send_one-lost (has_script i) x s h has))
              (lost-Next s u h has later)
      ]
    ]

  pub send_all-Both :
      (has_script : ℕ → Bool) (i : ℕ) (xs : List Entry) (s u : Store)
      → Both has_script i xs s u (send_all encode redis e has_script i xs s)
  unfolding send_all resend
  send_all-Both has_script i [] s u = (
    refl,
    record { early = []; after = []; split = none_left; first = nothing; second = nothing },
  )
  send_all-Both has_script i (x ∷ xs) s u =
      send_all-Next has_script i x xs s u (send_all-Both has_script (suc i) xs)

  -- Nothing is sent again if nothing was lost.
  pub resend-all_sent :
      (qs : List Sending) (u : Store) → all_sent qs ≡ true → resend encode redis e qs u ≡ (qs, u)
  unfolding resend all_sent
  resend-all_sent [] u h = refl
  resend-all_sent ((x, pushed) ∷ qs) u h =
      ap (λ (r : List Sending × Store). ((x, pushed) ∷ r.0, r.1)) (resend-all_sent qs u h)
  resend-all_sent ((x, ran status) ∷ qs) u h =
      ap (λ (r : List Sending × Store). ((x, ran status) ∷ r.0, r.1)) (resend-all_sent qs u h)
  resend-all_sent ((x, no_script) ∷ qs) u h = absurd (cc)

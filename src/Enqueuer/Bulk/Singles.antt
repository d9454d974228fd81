-- ===== src/Enqueuer/Bulk/Singles.antt =====
-- What one enqueue does to the queues and the sorted sets, while Redis answers.
use work.Prelude.{
  ℕ, ◌≡◌, refl, sym, subst, ap, ◌∙◌, Bool, false, [], Option, if◌then◌else◌, Bool-cases, inl, inr,
}
use work.Text.{Text}
use work.Job.{Args, Blob}
use work.Keys
use work.Redis.{Store, documented}
use work.Conn.{World, Result, ok, err, exchange, bind_result}
use work.Enqueuer.{
  Enqueuer, min_wait_enabled, add_to_known_jobs, redis_do_helper, receive_wait, new_job_of, pushed,
  or_args, need_sadd, remember, registered,
}
use work.Enqueuer.Bulk.{BulkEnqueueParam, build_job, build_unique_key}

-- The same queues and sorted sets.
pub record Agree (s t : Store) : Type 0 where
  pub queues : s.lists ≡ t.lists
  pub sorted : s.zsets ≡ t.zsets

pub Agree-trans : (s t u : Store) → Agree s t → Agree t u → Agree s u
Agree-trans s t u a b = record { queues = a.queues ∙ b.queues; sorted = a.sorted ∙ b.sorted }

pub Agree-refl : (s : Store) → Agree s s
Agree-refl s = record { queues = refl; sorted = refl }

pub build_job-plain :
    (encode : Args → Text) (ns : Text) (now : ℕ) (id : Text) (p : BulkEnqueueParam)
    → p.unique ≡ false
    → build_job encode ns now id p ≡ new_job_of p.name id now p.args
unfolding build_job build_unique_key new_job_of
build_job-plain encode ns now id p h =
    ap
      (λ b. record (new_job_of p.name id now p.args) {
        unique = b;
        unique_key =
            if b then Keys.unique_job encode ns p.name (or_args p.unique_key_map p.args) else [];
      })
      h

-- No fault is left ahead, and the queues and sorted sets are those that `run` makes.
pub record Moved (run : Store → Store) (w v : World) : Type 0 where
  pub calm : v.faults ≡ []
  pub agrees : Agree v.store (run w.store)

module _ (before : Blob → Blob → Bool) (cjson : Option Args → Option Args) (e : Enqueuer) where
  add_to_known_jobs-Moved :
      (name : Text) (now : ℕ) (w : World)
      → w.faults ≡ []
      → Moved (λ s. s) w (add_to_known_jobs (documented before cjson) e name now w).1
  unfolding add_to_known_jobs remember documented
  add_to_known_jobs-Moved name now w calm = elim (Bool-cases (need_sadd now (w.known_jobs name))) [
    | inr no_need ↦ rw no_need (record { calm = calm; agrees = Agree-refl w.store })
    | inl needed ↦
        rw (needed, calm) (record { calm = refl; agrees = record { queues = refl; sorted = refl } })
  ]

  redis_do_helper-calm :
      (run : Store → Store) (w : World)
      → min_wait_enabled e ≡ false
      → w.faults ≡ []
      → redis_do_helper e run w ≡ (ok tt, record w { store = run w.store; faults = [] })
  unfolding redis_do_helper receive_wait
  redis_do_helper-calm run w quick calm =
      rw quick
        (ap (λ fs. bind_result (exchange fs (λ s. (tt {0}, run s)) w) (λ u v. (ok tt, v))) calm)

  registered-world : {J : Type 0} (j : J) (r : Result (Unit {0}) × World) → (registered j r).1 ≡ r.1
  registered-world j (ok u, w) = refl
  registered-world j (err x, w) = refl

  pub pushed-Moved :
      {J : Type 0} (j : J) (name : Text) (now : ℕ) (run : Store → Store) (w : World)
      → min_wait_enabled e ≡ false
      → w.faults ≡ []
      → Moved run w
          (pushed j
            (add_to_known_jobs (documented before cjson) e name now)
            (redis_do_helper e run w)).1
  pushed-Moved j name now run w quick calm =
      let v : World = record w { store = run w.store; faults = [] } in
      let known = add_to_known_jobs-Moved name now v refl in
      subst
        (λ r. Moved run w (pushed j (add_to_known_jobs (documented before cjson) e name now) r).1)
        (sym (redis_do_helper-calm run w quick calm))
        (subst (Moved run w)
          (sym (registered-world j (add_to_known_jobs (documented before cjson) e name now v)))
          (record { calm = known.calm; agrees = known.agrees }))

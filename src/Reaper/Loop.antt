-- ===== src/Reaper/Loop.antt =====
-- The loop of requeueInProgressJobs: when it ends, and what becomes of the jobs.
use work.Prelude.{
  ℕ, zero, suc, ◌+◌, ◌<◌, ◌≤◌, ◌≡◌, ◌≢◌, ◌⊎◌, inl, inr, refl, sym, subst, ap, ◌∙◌, List, [], ◌∷◌,
  ◌++◌, Option, none, some, arith, length, length-append, All, All-middle, Bool,
}
use work.Text.{Text}
use work.Job.{Args, Blob}
use work.Redis.{Redis, Store, documented, IsDocumented, of_documented}
use work.Conn.{
  World, Result, ok, err, out_of_fuel, Fault, delivered, request_lost, reply_lost, M, pure,
  bind_result, exchange,
}
use work.Scripts.Reenqueue.{RequeueKeys, Requeued, reenqueue_job}
use work.Reaper.{requeue_loop}
use work.Reaper.Backlog.{
  Apart, Alone, Same, Same-refl, Same-trans, Moved, Moved-Same, script_moves, released,
}

-- The jobs in progress, over the job types.
abbrev pub load : RequeueKeys → Store → ℕ
load k s = length (s.lists k.in_prog_queue)

abbrev pub total : List RequeueKeys → Store → ℕ
total [] s = 0
total (k ∷ ks) s = load k s + total ks s

total-le :
    (ks : List RequeueKeys) (s t : Store)
    → All (λ j. load j t ≤ load j s) ks
    → total ks t ≤ total ks s
total-le [] s t h = omega arith
total-le (k ∷ ks) s t h = omega (arith, total-le ks s t h.1)

total-lt :
    (pre : List RequeueKeys) (k : RequeueKeys) (post : List RequeueKeys) (s t : Store)
    → All (λ j. load j t ≤ load j s) (pre ++ k ∷ post)
    → load k t < load k s
    → total (pre ++ k ∷ post) t < total (pre ++ k ∷ post) s
total-lt [] k post s t h less = omega (arith, total-le post s t h.1)
total-lt (j ∷ pre) k post s t h less = omega (arith, total-lt pre k post s t h.1 less)

module _ (k : RequeueKeys) (pool : Text) (rest : List Blob) (b : Blob) (s : Store)
    (e : s.lists k.in_prog_queue ≡ rest ++ b ∷ []) where
  load_own : k.in_prog_queue ≢ k.job_queue → load k (released k pool rest b s) < load k s
  load_own own =
      let prog : (released k pool rest b s).lists k.in_prog_queue ≡ rest = ground arith in
      omega (arith, ap length prog, ap length e, length-append rest (b ∷ []))

  load_other : (j : RequeueKeys) → Apart k j → load j (released k pool rest b s) ≤ load j s
  load_other j apart =
      let kept : (released k pool rest b s).lists j.in_prog_queue ≡ s.lists j.in_prog_queue =
        ground arith in
      omega (arith, ap length kept)

-- Every job type is alone among them.
abbrev pub Separate : List RequeueKeys → Type 0
Separate ks = All (λ l. Alone l ks) ks

loads_shrink :
    (js pre : List RequeueKeys) (k : RequeueKeys) (post : List RequeueKeys) (pool : Text)
    (rest : List Blob) (b : Blob) (s : Store)
    → s.lists k.in_prog_queue ≡ rest ++ b ∷ []
    → All (λ l. Alone l (pre ++ k ∷ post)) js
    → All (λ j. load j (released k pool rest b s) ≤ load j s) js
loads_shrink [] pre k post pool rest b s e a = tt
loads_shrink (j ∷ js) pre k post pool rest b s e a = (
  by (All-middle (λ i. (i ≡ j) ⊎ Apart i j) pre k post a.0.others),
  loads_shrink js pre k post pool rest b s e a.1,
)
  where
    by : (k ≡ j) ⊎ Apart k j → load j (released k pool rest b s) ≤ load j s
    by (inl same) = rw (← same) (omega (arith, load_own k pool rest b s e (rw same a.0.own)))
    by (inr apart) = load_other k pool rest b s e j apart

-- A move leaves fewer jobs in progress.
total-released :
    (ks pre : List RequeueKeys) (k : RequeueKeys) (post : List RequeueKeys) (pool : Text)
    (rest : List Blob) (b : Blob) (s : Store)
    → ks ≡ pre ++ k ∷ post
    → s.lists k.in_prog_queue ≡ rest ++ b ∷ []
    → Separate ks
    → total ks (released k pool rest b s) < total ks s
total-released ks pre k post pool rest b s e f a =
    let a' = subst Separate e a in
    let own = (All-middle (λ l. Alone l (pre ++ k ∷ post)) pre k post a').own in
    subst (λ l. total l (released k pool rest b s) < total l s) (sym e)
      (total-lt pre k post s _ (loads_shrink (pre ++ k ∷ post) pre k post pool rest b s f a')
        (load_own k pool rest b s f own))

-- How the loop ends, from the store s and with the faults fs ahead.
pub record Ended (ks : List RequeueKeys) (pool : Text) (s : Store) (fs : List Fault)
    (r : Result (Unit {0}) × World) : Type 0 where
  pub kept : (l : RequeueKeys) → Alone l ks → Same l pool s r.1.store
  pub emptied : r.0 ≡ ok tt → All (λ k. r.1.store.lists k.in_prog_queue ≡ []) ks
  pub fuelled : r.0 ≢ err out_of_fuel
  pub done : fs ≡ [] → r.0 ≡ ok tt

module _ (before : Blob → Blob → Bool) (cjson : Option Args → Option Args) (ks : List RequeueKeys)
    (pool : Text) (separate : Separate ks) where
  -- The rest of the loop, from a world with the store that the script left.
  after_run :
      (s : Store) (r : Option Requeued × Store) (fs : List Fault) (v : World) (again : M (Unit {0}))
      → Moved ks pool s r
      → v.store ≡ r.1
      → (fs ≡ [] → v.faults ≡ [])
      → (total ks v.store < total ks s → Ended ks pool v.store v.faults (again v))
      → Ended ks pool s fs ((elim r.0 as (λ x. M (Unit {0})) [ none ↦ pure tt | some x ↦ again ]) v)
  after_run s (none, t) fs v again (inl (pre, k, post, rest, b, e, f, g)) at quiet ih = cc
  after_run s (none, t) fs v again (inr (stays, g)) at quiet ih =
      let back : v.store ≡ s = at ∙ ap (λ (x : Option Requeued × Store). x.1) g in
      record {
        kept = λ l a. rw back (Same-refl l pool s);
        emptied = λ _. rw back stays;
        fuelled = λ x. cc;
        done = λ _. refl;
      }
  after_run s (some x, t) fs v again (inr (stays, g)) at quiet ih = cc
  after_run s (some x, t) fs v again (inl (pre, k, post, rest, b, e, f, g)) at quiet ih =
      let moved : v.store ≡ released k pool rest b s =
        at ∙ ap (λ (y : Option Requeued × Store). y.1) g in
      let fewer : total ks v.store < total ks s =
        rw moved (total-released ks pre k post pool rest b s e f separate) in
      let end = ih fewer in
      let step = λ (l : RequeueKeys) (a : Alone l ks).
        subst (Same l pool s) (sym at)
          (Moved-Same l ks pool s (some x, t) a (inl (pre, k, post, rest, b, e, f, g))) in
      record {
        kept = λ l a. Same-trans l pool s v.store _ (step l a) (end.kept l a);
        emptied = end.emptied;
        fuelled = end.fuelled;
        done = λ h. end.done (quiet h);
      }

  on_faults :
      (fs : List Fault) (w : World) (again : M (Unit {0}))
      → ((v : World)
          → total ks v.store < total ks w.store
          → Ended ks pool v.store v.faults (again v))
      → Ended ks pool w.store fs (
          bind_result
            (exchange fs (reenqueue_job (documented before cjson) ks pool) w)
            (λ res. elim res as (λ x. M (Unit {0})) [ none ↦ pure tt | some x ↦ again ]))
  on_faults [] w again ih =
      after_run w.store _ [] _ again (script_moves before cjson ks pool w.store) refl (λ _. refl)
        (ih _)
  on_faults (delivered ∷ fs) w again ih =
      after_run w.store _ (delivered ∷ fs) _ again (script_moves before cjson ks pool w.store) refl
        (λ h. cc) (ih _)
  on_faults (request_lost ∷ fs) w again ih = record {
    kept = λ l a. Same-refl l pool w.store;
    emptied = λ h. cc;
    fuelled = λ h. cc;
    done = λ h. cc;
  }
  on_faults (reply_lost ∷ fs) w again ih = record {
    kept = λ l a. Moved-Same l ks pool w.store _ a (script_moves before cjson ks pool w.store);
    emptied = λ h. cc;
    fuelled = λ h. cc;
    done = λ h. cc;
  }

  loop_on :
      (fuel : ℕ) (w : World)
      → total ks w.store < fuel
      → Ended ks pool w.store w.faults (requeue_loop (documented before cjson) fuel ks pool w)
  unfolding requeue_loop
  loop_on zero w h = absurd (omega arith)
  loop_on (suc fuel) w h =
      on_faults w.faults w (requeue_loop (documented before cjson) fuel ks pool)
        (λ v less. loop_on fuel v (omega arith))

-- With fuel above the number of jobs in progress, and job types that share no key, the loop never
-- runs out, whatever becomes of its exchanges: it keeps each job type's jobs, in order, with those in
-- progress in front of those queued, and its lock and the pool's lock info less the jobs in progress.
-- Without an error every in-progress queue is empty, and with no fault there is no error.
pub requeue_loop_lem :
    (redis : Redis)
    → IsDocumented redis
    → (fuel : ℕ) (ks : List RequeueKeys) (pool : Text) (w : World) → Separate ks
    → total ks w.store < fuel
    → Ended ks pool w.store w.faults (requeue_loop redis fuel ks pool w)
requeue_loop_lem redis h fuel ks pool w separate enough =
    of_documented (λ r. Ended ks pool w.store w.faults (requeue_loop r fuel ks pool w))
      (λ before cjson. loop_on before cjson ks pool separate fuel w enough) redis h

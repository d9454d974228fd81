-- ===== src/Worker/Loop/Quiet.antt =====
-- What fetching and processing a job do to the lists, while Redis answers.
use work.Prelude.{
  ℕ, ◌+◌, ◌≤◌, ◌<◌, ◌≡◌, ◌≢◌, ◌⊎◌, refl, sym, subst, arith, Bool, true, false, inl, inr, List, [],
  ◌∷◌, ◌++◌, All, Option, none, some, if◌then◌else◌, length, length-append,
}
use work.Text.{Text}
use work.Job.{Args, Job, Blob}
use work.Redis.{Store, Key, documented, erase_first}
use work.Conn.{World, Result, ok, err, M, ◌>>=◌, pure, call, command, exchange, Fault, bind_result}
use work.Scripts.Fetch.{FetchKeys}
use work.Scripts.Fetch.Choice.{taken}
use work.Worker.{
  JobType, TerminateOp, process_job, find_type, fate_of, run_error, get_and_delete_unique_job,
  apply_fate, settle, logged, job_to_run, unique_key_for, updated_job, remove_job_from_in_progress,
}

abbrev pub waiting : List Key → Store → ℕ
waiting [] s = 0
waiting (q ∷ qs) s = length (s.lists q) + waiting qs s

abbrev pub Among : Key → List Key → Type 0
Among q [] = ⊥
Among q (r ∷ rs) = (q ≡ r) ⊎ Among q rs

abbrev pub Shorter : Store → Store → Key → Type 0
Shorter s t q = length (t.lists q) ≤ length (s.lists q)

pub waiting-le : (qs : List Key) (s t : Store) → All (Shorter s t) qs → waiting qs t ≤ waiting qs s
waiting-le [] s t h = omega arith
waiting-le (q ∷ qs) s t h = omega (arith, h.0, waiting-le qs s t h.1)

pub waiting-lt :
    (qs : List Key) (q : Key) (s t : Store)
    → All (Shorter s t) qs
    → Among q qs
    → length (t.lists q) < length (s.lists q)
    → waiting qs t < waiting qs s
waiting-lt [] q s t h among less = absurd (among)
waiting-lt (r ∷ qs) q s t h (inl e) less =
    omega
      (arith, subst (λ k. length (t.lists k) < length (s.lists k)) e less, waiting-le qs s t h.1)
waiting-lt (r ∷ qs) q s t h (inr among) less =
    omega (arith, h.0, waiting-lt qs q s t h.1 among less)

-- Taking a job shortens its queue, and no other list grows but the in-progress queue.
module _ (k : FetchKeys) (pool : Text) (rest : List Blob) (b : Blob) (s : Store)
    (e : s.lists k.job_queue ≡ rest ++ b ∷ []) where
  pub taken-Shorter : (q : Key) → k.in_prog_queue ≢ q → Shorter s (taken k pool rest b s) q
  taken-Shorter q apart = ground (arith, length-append rest (b ∷ []), e)

  pub taken-lt :
      k.in_prog_queue ≢ k.job_queue
      → length ((taken k pool rest b s).lists k.job_queue) < length (s.lists k.job_queue)
  taken-lt apart = ground (arith, length-append rest (b ∷ []), e)

-- No fault is left ahead, and no list has grown.
pub record Quiet (w v : World) : Type 0 where
  pub calm : v.faults ≡ []
  pub shorter : (q : Key) → Shorter w.store v.store q

still : (w : World) → w.faults ≡ [] → Quiet w w
still w calm = record { calm = calm; shorter = λ q. omega arith }

abbrev Quietly : {A : Type 0} → M A → Type 0
Quietly m = (w : World) → w.faults ≡ [] → Quiet w (m w).1

Quietly-pure : {A : Type 0} (a : A) → Quietly (pure a)
Quietly-pure a w calm = still w calm

Quiet-trans : (u v w : World) → Quiet u v → Quiet v w → Quiet u w
Quiet-trans u v w f g = record {
  calm = g.calm;
  shorter = λ q. omega (arith, f.shorter q, g.shorter q);
}

exchange-Quiet :
    {A : Type 0} (run : Store → A × Store)
    → ((s : Store) (q : Key) → Shorter s (run s).1 q)
    → (fs : List Fault) (w : World) → fs ≡ []
    → Quiet w (exchange fs run w).1
exchange-Quiet run shorter [] w calm = record { calm = refl; shorter = shorter w.store }
exchange-Quiet run shorter (f ∷ fs) w calm = absurd (cc)

Quietly-call :
    {A : Type 0} (run : Store → A × Store)
    → ((s : Store) (q : Key) → Shorter s (run s).1 q)
    → Quietly (call run)
Quietly-call run shorter w calm = exchange-Quiet run shorter w.faults w calm

bind-Quiet :
    {A B : Type 0} (u : World) (r : Result A × World) (k : A → M B)
    → Quiet u r.1
    → ((a : A) → Quietly (k a))
    → Quiet u (bind_result r k).1
bind-Quiet u (ok a, w) k quiet later = Quiet-trans u w (k a w).1 quiet (later a w quiet.calm)
bind-Quiet u (err x, w) k quiet later = quiet

Quietly-bind :
    {A B : Type 0} (m : M A) (k : A → M B)
    → Quietly m
    → ((a : A) → Quietly (k a))
    → Quietly (m >>= k)
Quietly-bind m k quiet later w calm = bind-Quiet w (m w) k (quiet w calm) later

erase_first-le : (b : Blob) (xs : List Blob) → length (erase_first b xs) ≤ length xs
unfolding erase_first
erase_first-le b [] = omega arith
erase_first-le b (x ∷ xs) = ground (arith, erase_first-le b xs)

logged-world : (r : Result (Option Job) × World) → (logged r).1 ≡ r.1
logged-world (ok j, w) = refl
logged-world (err e, w) = refl

module _ (encode : Args → Text) (before : Blob → Blob → Bool) (cjson : Option Args → Option Args)
    (ns pool : Text) where
  settle-Shorter :
      (job : Job) (fate : TerminateOp) (b : Blob) (s : Store) (q : Key)
      → Shorter s (settle encode (documented before cjson) ns pool job fate b s) q
  unfolding settle apply_fate documented
  settle-Shorter job fate b s q = ground (arith, erase_first-le b (s.lists job.in_prog_queue))

  unique-Quiet :
      (job : Job) (w : World)
      → w.faults ≡ []
      → Quiet w (get_and_delete_unique_job encode (documented before cjson) ns pool job w).1
  unfolding get_and_delete_unique_job documented
  unique-Quiet job w calm = subst (Quiet w) (sym (logged-world _)) (
      Quietly-bind (call (λ s. (s.strings key, s))) _ (Quietly-call _ (λ s q. omega arith)) found w
        calm)
    where
      key : Key
      key = unique_key_for encode (documented before cjson) ns pool job.unique_key job

      deleted : Store → Store
      deleted s = (documented before cjson).del key s

      found :
          (b : Option Blob)
          → Quietly {A = Option Job} (elim b [
            | none ↦ pure none
            | some v ↦ command deleted >>= (λ _. pure (updated_job v job))
          ])
      found none = Quietly-pure {A = Option Job} none
      found (some v) =
          Quietly-bind (command deleted) (λ u. pure (updated_job v job))
            (Quietly-call (λ s. (tt, deleted s)) (λ s q. ground arith))
            (λ u. Quietly-pure (updated_job v job))

  either-Quiet :
      (b : Bool) (w : World) (x y : Job × World)
      → Quiet w x.1
      → Quiet w y.1
      → Quiet w (if b then x else y).1
  either-Quiet true w x y hx hy = hx
  either-Quiet false w x y hx hy = hy

  job_to_run-Quiet :
      (job : Job) (w : World)
      → w.faults ≡ []
      → Quiet w (job_to_run encode (documented before cjson) ns pool job w).1
  unfolding job_to_run
  job_to_run-Quiet job w calm =
      either-Quiet job.unique w _ _ (unique-Quiet job w calm) (still w calm)

  settled-Quiet :
      (u v : World) (job : Job) (fate : TerminateOp) (b : Blob)
      → Quiet u v
      → Quiet u
          (remove_job_from_in_progress encode (documented before cjson) ns pool job fate b v).1
  unfolding remove_job_from_in_progress
  settled-Quiet u v job fate b quiet = Quiet-trans u v _ quiet (
      Quietly-call (λ s. (tt, settle encode (documented before cjson) ns pool job fate b s))
        (λ s q. settle-Shorter job fate b s q) v quiet.calm)

  pub process_job-Quiet :
      (jts : List JobType) (run : JobType → Job → Option Text) (now draw : ℕ) (job : Job)
      (w : World)
      → w.faults ≡ []
      → Quiet w (process_job encode (documented before cjson) ns pool jts run now draw job w).1
  unfolding process_job
  process_job-Quiet jts run now draw job w calm =
      let (j, v) = job_to_run encode (documented before cjson) ns pool job w in
      let jt = find_type j.name jts in
      let (settled, fate) = fate_of now draw jt (run_error run jt j) j in
      settled-Quiet w v settled fate job.raw_json (job_to_run-Quiet job w calm)

-- ===== src/Reaper/Backlog.antt =====
-- The reaper's script on the in-progress queues and the job queues, one move at a time.
use mathlib.Core.List.{append_assoc}
use work.Prelude.{
  suc, ◌≡◌, ◌≢◌, ◌⊎◌, inl, inr, refl, sym, subst, ap, ◌∙◌, List, [], ◌∷◌, ◌++◌, Option, none, some,
  arith, length, length-append, All, All-middle, Bool,
}
use work.Prelude.Int.{ℤ, pos, negsuc, ◌+ℤ◌, int_laws, pos_part, neg_part}
use work.Text.{Text}
use work.Job.{Args, Blob}
use work.Redis.{Store, Key, documented, update, or_0, pop_last}
use work.Redis.Lists.{pop_last-some, pop_last-cons}
use work.Scripts.Reenqueue.{RequeueKeys, Requeued, reenqueue_job}

-- Two job types that share no key.
pub record Apart (k l : RequeueKeys) : Type 0 where
  pub in_prog : k.in_prog_queue ≢ l.in_prog_queue
  pub queue : k.job_queue ≢ l.job_queue
  pub across : k.in_prog_queue ≢ l.job_queue
  pub back : k.job_queue ≢ l.in_prog_queue
  pub lock : k.lock_key ≢ l.lock_key
  pub info : k.lock_info_key ≢ l.lock_info_key

-- One job type among the others: each other is apart from it, and its own queues differ.
pub record Alone (l : RequeueKeys) (ks : List RequeueKeys) : Type 0 where
  pub own : l.in_prog_queue ≢ l.job_queue
  pub others : All (λ k. (k ≡ l) ⊎ Apart k l) ks

-- The jobs of a type, in progress or queued, and its locks that are not for jobs in progress.
abbrev pub backlog : RequeueKeys → Store → List Blob
backlog l s = s.lists l.in_prog_queue ++ s.lists l.job_queue

abbrev pub in_progress : RequeueKeys → Store → ℤ
in_progress l s = pos (length (s.lists l.in_prog_queue))

pub record Same (l : RequeueKeys) (pool : Text) (s t : Store) : Type 0 where
  pub jobs : backlog l t ≡ backlog l s
  pub locks :
      or_0 (t.counters l.lock_key) +ℤ in_progress l s
      ≡ or_0 (s.counters l.lock_key) +ℤ in_progress l t
  pub infos :
      or_0 (t.tallies l.lock_info_key pool) +ℤ in_progress l s
      ≡ or_0 (s.tallies l.lock_info_key pool) +ℤ in_progress l t

-- The effect of moving b back for the job type k.
abbrev pub released : RequeueKeys → Text → List Blob → Blob → Store → Store
released k pool rest b s =
    let popped = update s.lists k.in_prog_queue rest in
    record s {
      counters = update s.counters k.lock_key (some (or_0 (s.counters k.lock_key) +ℤ negsuc 0));
      tallies = update s.tallies k.lock_info_key (
          update (s.tallies k.lock_info_key) pool
            (some (or_0 (s.tallies k.lock_info_key pool) +ℤ negsuc 0)));
      lists = update popped k.job_queue (b ∷ popped k.job_queue);
    }

-- One fewer in progress, and the lock one lower.
one_lower :
    (x : ℤ) (xs rest : List Blob) (b : Blob)
    → xs ≡ rest ++ b ∷ []
    → x +ℤ negsuc 0 +ℤ pos (length xs) ≡ x +ℤ pos (length rest)
one_lower x xs rest b e =
    let n : length xs ≡ suc (length rest) =
      ap length e ∙ omega (arith, length-append rest (b ∷ [])) in
    omega int_laws

module _ (l : RequeueKeys) (pool : Text) (rest : List Blob) (b : Blob) (s : Store) where
  released_own :
      l.in_prog_queue ≢ l.job_queue
      → s.lists l.in_prog_queue ≡ rest ++ b ∷ []
      → Same l pool s (released l pool rest b s)
  released_own own e =
      let prog : (released l pool rest b s).lists l.in_prog_queue ≡ rest = ground arith in
      let queue : (released l pool rest b s).lists l.job_queue ≡ b ∷ s.lists l.job_queue =
        ground arith in
      record {
        jobs = ground (arith, append_assoc rest (b ∷ []) (s.lists l.job_queue));
        locks =
            ground
              (arith, one_lower (or_0 (s.counters l.lock_key)) (s.lists l.in_prog_queue) rest b e);
        infos = ground (
          arith,
          one_lower (or_0 (s.tallies l.lock_info_key pool)) (s.lists l.in_prog_queue) rest b e,
        );
      }

  released_other : (k : RequeueKeys) → Apart k l → Same l pool s (released k pool rest b s)
  released_other k a = record { jobs = ground arith; locks = ground arith; infos = ground arith }

-- How the script comes out: some job moved back, or every in-progress queue is empty.
abbrev pub Moved : List RequeueKeys → Text → Store → Option Requeued × Store → Type 0
Moved ks pool s r =
    ((pre : List RequeueKeys) × (k : RequeueKeys) × (post : List RequeueKeys) × (rest : List Blob)
      × (b : Blob) × (ks ≡ pre ++ k ∷ post)
      × (s.lists k.in_prog_queue ≡ rest ++ b ∷ [])
      × (r ≡ (
        some (record { res = b; in_prog_queue = k.in_prog_queue; job_queue = k.job_queue }),
        released k pool rest b s,
      )))
    ⊎ (All (λ k. s.lists k.in_prog_queue ≡ []) ks × (r ≡ (none, s)))

pass :
    (k : RequeueKeys) (ks : List RequeueKeys) (pool : Text) (s : Store)
    (r : Option Requeued × Store)
    → s.lists k.in_prog_queue ≡ []
    → Moved ks pool s r
    → Moved (k ∷ ks) pool s r
pass k ks pool s r h (inl (pre, j, post, rest, b, e, f, g)) =
    inl (k ∷ pre, j, post, rest, b, ap (λ l. k ∷ l) e, f, g)
pass k ks pool s r h (inr (stays, e)) = inr ((h, stays), e)

module _ (before : Blob → Blob → Bool) (cjson : Option Args → Option Args) where
  rpoplpush_empty :
      (k j : Key) (s : Store)
      → s.lists k ≡ []
      → (documented before cjson).rpoplpush k j s ≡ (none, s)
  unfolding documented
  rpoplpush_empty k j s e = rw e

  rpoplpush_last :
      (k j : Key) (s : Store) (rest : List Blob) (b : Blob)
      → pop_last (s.lists k) ≡ some (rest, b)
      → (documented before cjson).rpoplpush k j s ≡ (
        some b,
        record s { lists = update (update s.lists k rest) j (b ∷ update s.lists k rest j) },
      )
  unfolding documented
  rpoplpush_last k j s rest b e = rw e

  head_stays :
      (k : RequeueKeys) (ks : List RequeueKeys) (pool : Text) (s : Store)
      → s.lists k.in_prog_queue ≡ []
      → reenqueue_job (documented before cjson) (k ∷ ks) pool s
        ≡ reenqueue_job (documented before cjson) ks pool s
  unfolding reenqueue_job
  head_stays k ks pool s e = rw (rpoplpush_empty k.in_prog_queue k.job_queue s e, reenqueue_job)

  head_moves :
      (k : RequeueKeys) (ks : List RequeueKeys) (pool : Text) (s : Store) (q : List Blob)
      → s.lists k.in_prog_queue ≡ q
      → Moved ks pool s (reenqueue_job (documented before cjson) ks pool s)
      → Moved (k ∷ ks) pool s (reenqueue_job (documented before cjson) (k ∷ ks) pool s)
  unfolding reenqueue_job documented
  head_moves k ks pool s [] e later =
      let same = head_stays k ks pool s e in
      subst (Moved (k ∷ ks) pool s) (sym same) (pass k ks pool s _ e later)
  head_moves k ks pool s (x ∷ xs) e later =
      let (rest, b, p) = pop_last-cons x xs in
      inl (
        [],
        k,
        ks,
        rest,
        b,
        refl,
        e ∙ pop_last-some (x ∷ xs) p,
        rw (rpoplpush_last k.in_prog_queue k.job_queue s rest b (ap pop_last e ∙ p), reenqueue_job),
      )

  pub script_moves :
      (ks : List RequeueKeys) (pool : Text) (s : Store)
      → Moved ks pool s (reenqueue_job (documented before cjson) ks pool s)
  unfolding reenqueue_job
  script_moves [] pool s = inr (tt, refl)
  script_moves (k ∷ ks) pool s = head_moves k ks pool s _ refl (script_moves ks pool s)

pub Same-refl : (l : RequeueKeys) (pool : Text) (s : Store) → Same l pool s s
Same-refl l pool s = record { jobs = refl; locks = refl; infos = refl }

balance_trans : (x y z a b c : ℤ) → y +ℤ a ≡ x +ℤ b → z +ℤ b ≡ y +ℤ c → z +ℤ a ≡ x +ℤ c
balance_trans x y z a b c p q =
    let pp = ap pos_part p in
    let pn = ap neg_part p in let qp = ap pos_part q in let qn = ap neg_part q in omega int_laws

pub Same-trans :
    (l : RequeueKeys) (pool : Text) (s t u : Store)
    → Same l pool s t
    → Same l pool t u
    → Same l pool s u
Same-trans l pool s t u a b = record {
  jobs = b.jobs ∙ a.jobs;
  locks = balance_trans _ _ _ _ _ _ a.locks b.locks;
  infos = balance_trans _ _ _ _ _ _ a.infos b.infos;
}

-- A run of the script keeps the backlog of each job type, and its spare locks.
pub Moved-Same :
    (l : RequeueKeys) (ks : List RequeueKeys) (pool : Text) (s : Store)
    (r : Option Requeued × Store)
    → Alone l ks
    → Moved ks pool s r
    → Same l pool s r.1
Moved-Same l ks pool s r a (inr (stays, e)) = rw e (Same-refl l pool s)
Moved-Same l ks pool s r a (inl (pre, k, post, rest, b, e, f, g)) = rw g (
    by (
      All-middle (λ j. (j ≡ l) ⊎ Apart j l) pre k post
        (subst (All (λ j. (j ≡ l) ⊎ Apart j l)) e a.others)))
  where
    by : (k ≡ l) ⊎ Apart k l → Same l pool s (released k pool rest b s)
    by (inl same) = rw same (released_own l pool rest b s a.own (rw same at f))
    by (inr apart) = released_other l pool rest b s k apart

-- ===== src/Scripts/Fetch/Choice.antt =====
-- Which job the fetch script takes.
use work.Prelude.{
  ◌+◌, ◌<◌, ◌≡◌, ◌≢◌, ◌⊎◌, inl, inr, refl, Bool, true, false, List, [], ◌∷◌, ◌++◌, Option, none,
  some, arith, All, Bool-cases, ◌∙◌, ap,
}
use work.Prelude.Int.{ℤ, pos, pos_part, neg_part, ◌+ℤ◌}
use work.Text.{Text}
use work.Job.{Args, Blob}
use work.Redis.{Redis, Store, documented, update, or_0, IsDocumented, of_documented}
use work.Redis.Lists.{pop_last-some, pop_last-cons}
use work.Scripts.Fetch.{FetchKeys, Fetched, can_run, may_run, take_job, fetch_job}

-- No limit, a limit of 0, no lock yet, or a lock below the limit.
abbrev pub HasRoom : Option ℤ → Option ℤ → Type 0
HasRoom active none = Unit
HasRoom none (some m) = Unit
HasRoom (some a) (some m) = (m ≡ pos 0) ⊎ (pos_part a + neg_part m < pos_part m + neg_part a)

pub record IsRunnable (s : Store) (k : FetchKeys) : Type 0 where
  pub waiting : s.lists k.job_queue ≢ []
  pub unpaused : s.strings k.pause_key ≡ none
  pub room : HasRoom (s.counters k.lock_key) (s.counters k.concurrency_key)

can_run_sound : (a m : Option ℤ) → can_run a m ≡ true → HasRoom a m
unfolding can_run
can_run_sound a none h = tt
can_run_sound none (some m) h = tt
can_run_sound (some a) (some m) h = ground arith

can_run_complete : (a m : Option ℤ) → HasRoom a m → can_run a m ≡ true
unfolding can_run
can_run_complete a none h = refl
can_run_complete none (some m) h = ground arith
can_run_complete (some a) (some m) h = ground arith

module _ (before : Blob → Blob → Bool) (cjson : Option Args → Option Args) where
  may_run_sound :
      (k : FetchKeys) (s : Store) → may_run (documented before cjson) k s ≡ true → IsRunnable s k
  unfolding may_run documented
  may_run_sound k s h = record {
    waiting = ground arith;
    unpaused = ground arith;
    room = can_run_sound _ _ (ground arith);
  }

  pub may_run_complete :
      (k : FetchKeys) (s : Store) → IsRunnable s k → may_run (documented before cjson) k s ≡ true
  unfolding may_run documented
  may_run_complete k s h =
      ground (arith, can_run_complete (s.counters k.lock_key) (s.counters k.concurrency_key) h.room)

  may_run_refused :
      (k : FetchKeys) (s : Store) → may_run (documented before cjson) k s ≡ false → ¬ IsRunnable s k
  may_run_refused k s e h = let f = may_run_complete k s h in cc

-- The effect on the store of taking the job b, with `rest` left in the queue.
abbrev pub taken : FetchKeys → Text → List Blob → Blob → Store → Store
taken k pool rest b s =
    let popped = update s.lists k.job_queue rest in
    record s {
      counters = update s.counters k.lock_key (some (or_0 (s.counters k.lock_key) +ℤ pos 1));
      tallies = update s.tallies k.lock_info_key (
          update (s.tallies k.lock_info_key) pool
            (some (or_0 (s.tallies k.lock_info_key pool) +ℤ pos 1)));
      lists = update popped k.in_prog_queue (b ∷ popped k.in_prog_queue);
    }

-- The oldest job of k's queue is handed out, and all that changes is its lock and its two queues.
abbrev pub Takes : FetchKeys → Text → Store → Option Fetched × Store → Type 0
Takes k pool s r =
    (rest : List Blob) × (b : Blob) × (s.lists k.job_queue ≡ rest ++ b ∷ [])
    × (r ≡ (
      some (record { res = some b; job_queue = k.job_queue; in_prog_queue = k.in_prog_queue }),
      taken k pool rest b s,
    ))

-- The first key set that is runnable, and what becomes of it; or none is.
abbrev pub Choice : List FetchKeys → Text → Store → Option Fetched × Store → Type 0
Choice ks pool s r =
    ((pre : List FetchKeys) × (k : FetchKeys) × (post : List FetchKeys) × (ks ≡ pre ++ k ∷ post)
      × All (λ j. ¬ IsRunnable s j) pre
      × IsRunnable s k
      × Takes k pool s r)
    ⊎ (All (λ j. ¬ IsRunnable s j) ks × (r ≡ (none, s)))

skip :
    (k : FetchKeys) (ks : List FetchKeys) (pool : Text) (s : Store) (r : Option Fetched × Store)
    → ¬ IsRunnable s k
    → Choice ks pool s r
    → Choice (k ∷ ks) pool s r
skip k ks pool s r h (inl (pre, j, post, e, stays, runs, takes)) =
    inl (k ∷ pre, j, post, ap (λ l. k ∷ l) e, (h, stays), runs, takes)
skip k ks pool s r h (inr (stays, e)) = inr ((h, stays), e)

module _ (before : Blob → Blob → Bool) (cjson : Option Args → Option Args) where
  take_job-Takes :
      (k : FetchKeys) (pool : Text) (s : Store) (q : List Blob)
      → s.lists k.job_queue ≡ q
      → q ≢ []
      → Takes k pool s (take_job (documented before cjson) k pool s)
  unfolding take_job documented
  take_job-Takes k pool s [] e h = absurd (h refl)
  take_job-Takes k pool s (x ∷ xs) e h =
      let (rest, b, p) = pop_last-cons x xs in (rest, b, e ∙ pop_last-some (x ∷ xs) p, rw (e, p))

  fetch_job-Choice :
      (ks : List FetchKeys) (pool : Text) (s : Store)
      → Choice ks pool s (fetch_job (documented before cjson) ks pool s)
  unfolding fetch_job
  fetch_job-Choice [] pool s = inr (tt, refl)
  fetch_job-Choice (k ∷ ks) pool s = elim (Bool-cases (may_run (documented before cjson) k s)) [
    | inl e ↦
        let runs = may_run_sound before cjson k s e in
        inl ([], k, ks, refl, tt, runs, rw e (take_job-Takes k pool s _ refl runs.waiting))
    | inr e ↦
        rw e (skip k ks pool s _ (may_run_refused before cjson k s e) (fetch_job-Choice ks pool s))
  ]

-- The script hands out the oldest job of the first job type that may run: one with jobs waiting,
-- with no pause key, and with no limit, no lock or a lock below the limit. It counts the job in
-- the lock and in the pool's lock info, moves it to the in-progress queue, and changes nothing
-- else. Where no job type may run it hands out nothing and changes nothing.
pub fetch_job_lem :
    (redis : Redis)
    → IsDocumented redis
    → (ks : List FetchKeys) (pool : Text) (s : Store) → Choice ks pool s (fetch_job redis ks pool s)
fetch_job_lem redis h ks pool s =
    of_documented (λ r. Choice ks pool s (fetch_job r ks pool s))
      (λ before cjson. fetch_job-Choice before cjson ks pool s) redis h

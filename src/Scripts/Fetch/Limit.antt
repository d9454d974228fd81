-- ===== src/Scripts/Fetch/Limit.antt =====
-- The lock and the limit of a job type, over a fetch.
use work.Prelude.{
  ℕ, suc, ◌≡◌, ◌≢◌, inl, inr, List, Option, none, some, arith, All, All-middle, if_pos, if_neg,
  subst, ap, ◌∙◌,
}
use work.Prelude.Int.{ℤ, pos, ◌+ℤ◌, ◌≤ℤ◌, int_laws}
use work.Text.{Text, Text-discrete}
use work.Job.{Blob}
use work.Redis.{Redis, Store, Key, or_0, IsDocumented}
use work.Scripts.Fetch.{FetchKeys, Fetched, fetch_job}
use work.Scripts.Fetch.Choice.{HasRoom, Choice, taken, fetch_job_lem}

-- The lock key belongs to the limit key, in each job type that uses either.
abbrev pub Guards : Key → Key → FetchKeys → Type 0
Guards lock limit k = (k.lock_key ≡ lock → k.concurrency_key ≡ limit) × (k.lock_key ≢ limit)

-- A limit that is set to a positive number is not below the lock.
abbrev pub Within : Key → Key → Store → Type 0
Within lock limit s =
    (m : ℕ) → s.counters limit ≡ some (pos (suc m)) → or_0 (s.counters lock) ≤ℤ pos (suc m)

taken-Within :
    (lock limit : Key) (k : FetchKeys) (pool : Text) (rest : List Blob) (b : Blob) (s : Store)
    → Guards lock limit k
    → HasRoom (s.counters k.lock_key) (s.counters k.concurrency_key)
    → Within lock limit s
    → Within lock limit (taken k pool rest b s)
taken-Within lock limit k pool rest b s g room w m e =
    let e' : s.counters limit ≡ some (pos (suc m)) =
      rw (if_neg (Text-discrete k.lock_key limit) g.1) at e in
    elim (Text-discrete k.lock_key lock) [
      | yes same ↦ rw (if_pos _ same) (
          raised (s.counters k.lock_key) m
            (subst (HasRoom (s.counters k.lock_key)) (ap s.counters (g.0 same) ∙ e') room))
      | no other ↦ rw (if_neg _ other) (w m e')
    ]
  where
    raised :
        (a : Option ℤ) (m : ℕ) → HasRoom a (some (pos (suc m))) → or_0 a +ℤ pos 1 ≤ℤ pos (suc m)
    raised none m h = omega int_laws
    raised (some a) m (inl z) = ground arith
    raised (some a) m (inr h) = omega int_laws

-- Where the lock key stands only with its own limit key, and no lock key is a limit key, a fetch
-- keeps every lock at or below its positive limit, whatever it hands out.
pub fetch_job-Within :
    (redis : Redis)
    → IsDocumented redis
    → (lock limit : Key) (ks : List FetchKeys) (pool : Text) (s : Store)
    → All (Guards lock limit) ks
    → Within lock limit s
    → Within lock limit (fetch_job redis ks pool s).1
fetch_job-Within redis h lock limit ks pool s g w =
    by_choice (fetch_job redis ks pool s) (fetch_job_lem redis h ks pool s)
  where
    by_choice : (r : Option Fetched × Store) → Choice ks pool s r → Within lock limit r.1
    by_choice r (inl (pre, k, post, e, stays, runs, (rest, b, popped, done))) = rw done (
        taken-Within lock limit k pool rest b s
          (All-middle _ pre k post (subst (All (Guards lock limit)) e g)) runs.room w)
    by_choice r (inr (stays, e)) = rw e w

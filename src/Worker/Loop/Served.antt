-- ===== src/Worker/Loop/Served.antt =====
-- The queues that a worker serves, and the jobs that wait there.
use mathlib.Core.List.{Mem}
use mathlib.Core.List.{mem-cons_self, mem-cons_of_mem}
use work.Prelude.{◌<◌, ◌≡◌, ◌≢◌, sym, subst, inl, inr, List, [], ◌∷◌, ◌++◌, All, map}
use work.Text.{Text}
use work.Job.{Blob}
use work.Redis.{Store, Key}
use work.Scripts.Fetch.{FetchKeys}
use work.Scripts.Fetch.Choice.{taken}
use work.Sampler.{SampleItem}
use work.Worker.Loop.Quiet.{waiting, Among, waiting-lt, taken-Shorter, taken-lt}

pub All-same : (P : Key → Type 0) (qs : List Key) → ((q : Key) → P q) → All P qs
All-same P [] f = tt
All-same P (q ∷ qs) f = (f q, All-same P qs f)

All-map : (P Q : Key → Type 0) (qs : List Key) → ((q : Key) → P q → Q q) → All P qs → All Q qs
All-map P Q [] f h = tt
All-map P Q (q ∷ qs) f h = (f q h.0, All-map P Q qs f h.1)

All-Among : (P : Key → Type 0) (q : Key) (qs : List Key) → Among q qs → All P qs → P q
All-Among P q [] among h = absurd (among)
All-Among P q (r ∷ qs) (inl e) h = subst P (sym e) h.0
All-Among P q (r ∷ qs) (inr among) h = All-Among P q qs among h.1

pub payload-middle :
    (xs : List SampleItem) (pre : List FetchKeys) (k : FetchKeys) (post : List FetchKeys)
    → map (λ (x : SampleItem). x.payload) xs ≡ pre ++ k ∷ post
    → (x : SampleItem) × Mem x xs × (x.payload ≡ k)
payload-middle [] [] k post e = absurd (cc)
payload-middle [] (j ∷ pre) k post e = absurd (cc)
payload-middle (x ∷ xs) [] k post e = (x, mem-cons_self, cc)
payload-middle (x ∷ xs) (j ∷ pre) k post e =
    let (y, m, p) = payload-middle xs pre k post (tails e) in (y, mem-cons_of_mem x m, p)
  where
    tails : {a b : FetchKeys} {as' bs : List FetchKeys} → a ∷ as' ≡ b ∷ bs → as' ≡ bs
    tails h = cc

-- A job type's queue is one of `qs`, and its in-progress queue is none of them.
abbrev pub IsServed : List Key → FetchKeys → Type 0
IsServed qs k = Among k.job_queue qs × All (λ q. k.in_prog_queue ≢ q) qs

pub taken-fewer :
    (qs : List Key) (k : FetchKeys) (pool : Text) (rest : List Blob) (b : Blob) (s : Store)
    → s.lists k.job_queue ≡ rest ++ b ∷ []
    → IsServed qs k
    → waiting qs (taken k pool rest b s) < waiting qs s
taken-fewer qs k pool rest b s e (among, apart) =
    waiting-lt qs k.job_queue s (taken k pool rest b s)
      (All-map _ _ qs (λ q ne. taken-Shorter k pool rest b s e q ne) apart) among
      (taken-lt k pool rest b s e (All-Among _ k.job_queue qs among apart))

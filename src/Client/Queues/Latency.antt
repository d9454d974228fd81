-- ===== src/Client/Queues/Latency.antt =====
-- What Queues shows, and when it panics.
use work.Prelude.{
  ℕ, ltb, ◌≡◌, ◌⊎◌, inl, inr, refl, sym, subst, ap, ◌∙◌, true, false, Bool-cases, List, [], ◌∷◌,
  Option, none, some, Option-cases, if◌then◌else◌, if_true, if_false,
}
use work.Prelude.Int.{ℤ, pos, ◌-ℤ◌}
use work.Text.{Text}
use work.Text.Names.{sort_strings}
use work.Job.{Blob, Job, new_job}
use work.Keys
use work.Redis.{Redis, Store, Key, or_0}
use work.Conn.{World, ok, M, call, bind_result, exchange, pure}
use work.Client.Queues.{
  Queue, parsed_latency, with_latency, with_rest, with_latencies, queue_of, counts_of, last_entries,
  queues,
}

module _ (redis : Redis) (ns : Text) (last_entry : Key → Store → Option Blob) where
  -- What is shown of one job type.
  abbrev pub entry_of : Text → Store → Queue × Option Blob
  entry_of name s =
      let q = queue_of redis ns last_entry name s in
      (q, (if ltb 0 q.count then last_entry (Keys.jobs ns name) s else none))

  abbrev pub shown_all : ℕ → List Text → Store → Option (List Queue)
  shown_all now [] s = some []
  shown_all now (name ∷ names) s =
      with_rest (with_latency now (entry_of name s)) (shown_all now names s)

  shown_all-entries :
      (now : ℕ) (names : List Text) (s : Store)
      → with_latencies now
          (last_entries redis ns last_entry (counts_of redis ns last_entry names s) s)
        ≡ shown_all now names s
  unfolding with_latencies last_entries counts_of queue_of
  shown_all-entries now [] s = refl
  shown_all-entries now (name ∷ names) s =
      ap (with_rest (with_latency now (entry_of name s))) (shown_all-entries now names s)

  queues-calm :
      (smembers : Key → Store → List Text) (now : ℕ) (w : World)
      → w.faults ≡ []
      → (queues redis ns last_entry smembers now w).0
        ≡ ok (shown_all now (sort_strings (smembers (Keys.known_jobs ns) w.store)) w.store)
  unfolding queues
  queues-calm smembers now w calm =
      let names = smembers (Keys.known_jobs ns) in
      let count : List Text → M (List Queue) =
        λ l. call (λ s. (counts_of redis ns last_entry (sort_strings l) s, s)) in
      let look : List Queue → M (List (Queue × Option Blob)) =
        λ qs. call (λ s. (last_entries redis ns last_entry qs s, s)) in
      ap
        (λ fs.
          (bind_result (bind_result (bind_result (exchange fs (λ s. (names s, s)) w) count) look)
            (λ xs. pure (with_latencies now xs))).0)
        calm
      ∙ ap ok (shown_all-entries now (sort_strings (names w.store)) w.store)

  -- The queue has jobs, and its last entry is no job.
  abbrev pub IsBroken : Store → Text → Type 0
  IsBroken s name =
      (b : Blob) × (ltb 0 (queue_of redis ns last_entry name s).count ≡ true)
      × (last_entry (Keys.jobs ns name) s ≡ some b)
      × (new_job b [] [] ≡ none)

  abbrev pub Broken : Store → List Text → Type 0
  Broken s [] = ⊥
  Broken s (name ∷ names) = IsBroken s name ⊎ Broken s names

  -- The latency: that of the job at the queue's end, or 0 where there was none to read.
  abbrev pub HasLatency : ℕ → Store → Text → ℤ → Type 0
  HasLatency now s name latency =
      ((latency ≡ pos 0)
        × ((ltb 0 (queue_of redis ns last_entry name s).count ≡ false)
            ⊎ (last_entry (Keys.jobs ns name) s ≡ none)))
      ⊎ ((b : Blob) × (job : Job) × (last_entry (Keys.jobs ns name) s ≡ some b)
          × (new_job b [] [] ≡ some job)
          × (latency ≡ pos now -ℤ pos job.enqueued_at))

  pub record IsShown (now : ℕ) (s : Store) (name : Text) (q : Queue) : Type 0 where
    pub named : q.job_name ≡ name
    pub counted : q.count ≡ redis.llen (Keys.jobs ns name) s
    pub limited : q.max_concurrency ≡ or_0 (redis.get_int (Keys.jobs_concurrency ns name) s)
    pub locked : q.lock_count ≡ or_0 (redis.get_int (Keys.jobs_lock ns name) s)
    pub late : HasLatency now s name q.latency

  abbrev pub AllShown : ℕ → Store → List Text → List Queue → Type 0
  AllShown now s [] [] = Unit
  AllShown now s [] (q ∷ qs) = ⊥
  AllShown now s (name ∷ names) [] = ⊥
  AllShown now s (name ∷ names) (q ∷ qs) = IsShown now s name q × AllShown now s names qs

  IsShown-latency :
      (now : ℕ) (s : Store) (name : Text) (latency : ℤ)
      → HasLatency now s name latency
      → IsShown now s name (record (queue_of redis ns last_entry name s) { latency = latency })
  unfolding queue_of
  IsShown-latency now s name latency h = record {
    named = refl;
    counted = refl;
    limited = refl;
    locked = refl;
    late = h;
  }

  abbrev One : ℕ → Store → Text → Option Queue → Type 0
  One now s name o =
      ((o ≡ none) × IsBroken s name) ⊎ ((q : Queue) × (o ≡ some q) × IsShown now s name q)

  parsed-One :
      (now : ℕ) (s : Store) (name : Text) (b : Blob)
      → ltb 0 (queue_of redis ns last_entry name s).count ≡ true
      → last_entry (Keys.jobs ns name) s ≡ some b
      → One now s name (with_latency now (queue_of redis ns last_entry name s, some b))
  unfolding with_latency
  parsed-One now s name b some_jobs last = elim (Option-cases (new_job b [] [])) [
    | inl e ↦
        inl
          (ap (parsed_latency now (queue_of redis ns last_entry name s)) e, (b, some_jobs, last, e))
    | inr (job, e) ↦
        inr (_, ap (parsed_latency now (queue_of redis ns last_entry name s)) e, shown job e)
  ]
    where
      shown :
          (job : Job)
          → new_job b [] [] ≡ some job
          → IsShown now s name (record (queue_of redis ns last_entry name s) {
            latency = pos now -ℤ pos job.enqueued_at;
          })
      shown job e = IsShown-latency now s name _ (inr (b, job, last, e, refl))

  missing-One :
      (now : ℕ) (s : Store) (name : Text)
      → (ltb 0 (queue_of redis ns last_entry name s).count ≡ false)
        ⊎ (last_entry (Keys.jobs ns name) s ≡ none)
      → One now s name (with_latency now (queue_of redis ns last_entry name s, none))
  unfolding with_latency queue_of
  missing-One now s name why = inr (_, refl, IsShown-latency now s name (pos 0) (inl (refl, why)))

  entry-One :
      (now : ℕ) (s : Store) (name : Text) → One now s name (with_latency now (entry_of name s))
  entry-One now s name = elim (Bool-cases (ltb 0 (queue_of redis ns last_entry name s).count)) [
    | inr empty ↦
        subst (λ o. One now s name (with_latency now (queue_of redis ns last_entry name s, o)))
          (sym (if_false _ _ empty)) (missing-One now s name (inl empty))
    | inl some_jobs ↦
        subst (λ o. One now s name (with_latency now (queue_of redis ns last_entry name s, o)))
          (sym (if_true _ _ some_jobs))
          (asked some_jobs (Option-cases (last_entry (Keys.jobs ns name) s)))
  ]
    where
      asked :
          ltb 0 (queue_of redis ns last_entry name s).count ≡ true
          → (last_entry (Keys.jobs ns name) s ≡ none)
            ⊎ ((b : Blob) × (last_entry (Keys.jobs ns name) s ≡ some b))
          → One now s name (
              with_latency now
                (queue_of redis ns last_entry name s, last_entry (Keys.jobs ns name) s))
      asked some_jobs (inl e) =
          subst (λ o. One now s name (with_latency now (queue_of redis ns last_entry name s, o)))
            (sym e) (missing-One now s name (inr e))
      asked some_jobs (inr (b, e)) =
          subst (λ o. One now s name (with_latency now (queue_of redis ns last_entry name s, o)))
            (sym e) (parsed-One now s name b some_jobs e)

  abbrev pub Verdict : ℕ → Store → List Text → Option (List Queue) → Type 0
  Verdict now s names o =
      ((o ≡ none) × Broken s names) ⊎ ((qs : List Queue) × (o ≡ some qs) × AllShown now s names qs)

  with_rest-Verdict :
      (now : ℕ) (s : Store) (name : Text) (names : List Text) (o : Option Queue)
      (rest : Option (List Queue))
      → One now s name o
      → Verdict now s names rest
      → Verdict now s (name ∷ names) (with_rest o rest)
  with_rest-Verdict now s name names none rest (inl (e, broken)) v = inl (refl, inl broken)
  with_rest-Verdict now s name names none rest (inr (q, e, shown)) v = absurd (cc)
  with_rest-Verdict now s name names (some q) rest (inl (e, broken)) v = absurd (cc)
  with_rest-Verdict now s name names (some q) none one (inl (e, broken)) = inl (refl, inr broken)
  with_rest-Verdict now s name names (some q) none one (inr (qs, e, all)) = absurd (cc)
  with_rest-Verdict now s name names (some q) (some qs) one (inl (e, broken)) = absurd (cc)
  with_rest-Verdict now s name names (some q) (some qs) (inr (p, e, shown)) (inr (ps, f, all)) =
      inr (
        q ∷ qs,
        refl,
        (subst (IsShown now s name) same_queue shown, subst (AllShown now s names) same_queues all),
      )
    where
      same_queue : p ≡ q
      same_queue = cc

      same_queues : ps ≡ qs
      same_queues = cc

  shown_all-Verdict :
      (now : ℕ) (names : List Text) (s : Store) → Verdict now s names (shown_all now names s)
  shown_all-Verdict now [] s = inr ([], refl, tt)
  shown_all-Verdict now (name ∷ names) s =
      with_rest-Verdict now s name names _ _ (entry-One now s name) (shown_all-Verdict now names s)

-- While Redis answers, Queues either panics, and then the last entry of some known job type's list
-- with jobs is no job, or it returns, for each known job type in the order of their names, the
-- length of its list, its limit and its lock (0 where there is none), and as latency the time since
-- the job at the end of its list was enqueued, or 0 where no entry was there to read.
pub queues-Verdict :
    (redis : Redis) (ns : Text) (last_entry : Key → Store → Option Blob)
    (smembers : Key → Store → List Text) (now : ℕ) (w : World)
    → w.faults ≡ []
    → (o : Option (List Queue)) × ((queues redis ns last_entry smembers now w).0 ≡ ok o)
      × Verdict redis ns last_entry now w.store
          (sort_strings (smembers (Keys.known_jobs ns) w.store))
          o
queues-Verdict redis ns last_entry smembers now w calm = (
  _,
  queues-calm redis ns last_entry smembers now w calm,
  shown_all-Verdict redis ns last_entry now (sort_strings (smembers (Keys.known_jobs ns) w.store))
      w.store,
)

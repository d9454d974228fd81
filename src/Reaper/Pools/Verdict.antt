-- ===== src/Reaper/Pools/Verdict.antt =====
-- Which pools the reaper finds dead.
use work.Prelude.{
  ℕ, ◌≡◌, ◌≢◌, ◌⊎◌, inl, inr, refl, sym, subst, ◌∙◌, arith, Bool, true, false, List, [], ◌∷◌,
  Option, none, some, Bool-cases,
}
use work.Prelude.Int.{ℤ, pos, ◌+ℤ◌, ◌≤ℤ◌, ltb_ℤ}
use work.Text.{Text, text}
use work.Text.Decimal.{parse_int}
use work.Text.Names.{split}
use work.Job.{Blob, Args}
use work.Keys
use work.Redis.{Redis, Store, Key, documented, IsDocumented, of_documented, field_of}
use work.Conn.{World, ok}
use work.Conn.Reads.{Reads, Reads-call, Reads-pure, Reads-fail, Reads-bind}
use work.Reaper.Pools.{
  DeadPools, listed, names_in, read_names, by_age, since_beat, check_pool, check_pools,
  find_dead_pools,
}

-- A field of a pool's heartbeat.
abbrev pub beat_field : Text → Text → Text → Store → Option Text
beat_field ns id field s = field_of field (s.hashes (Keys.heartbeat ns id))

-- No heartbeat is left, and the job types are not known; or the last one is at least `dead_time` old,
-- and names them.
abbrev pub IsDead : Text → ℕ → ℕ → Text → List Text → Store → Type 0
IsDead ns dead_time now id names s =
    ((beat_field ns id (text "heartbeat_at") s ≡ none) × (names ≡ []))
    ⊎ ((at : Text) × (beat : ℤ) × (joined : Text) × (beat_field ns id (text "heartbeat_at") s
          ≡ some at)
        × (parse_int at ≡ some beat)
        × (beat +ℤ pos dead_time ≤ℤ pos now)
        × (beat_field ns id (text "job_names") s ≡ some joined)
        × (names ≡ split joined))

-- What is listed is dead, and what is not listed is not.
abbrev pub Verdict : Text → ℕ → ℕ → Text → Option (List Text) → Store → Type 0
Verdict ns dead_time now id none s = (names : List Text) → ¬ IsDead ns dead_time now id names s
Verdict ns dead_time now id (some names) s = IsDead ns dead_time now id names s

-- The dead pools among the ids, in their order, each with its job types.
pub data Sifted (ns : Text) (dead_time now : ℕ) (s : Store) : List Text → DeadPools → Type 0 where
  done : Sifted ns dead_time now s [] []
  dead :
      {id : Text} {names : List Text} {ids : List Text} {pools : DeadPools}
      → IsDead ns dead_time now id names s
      → Sifted ns dead_time now s ids pools
      → Sifted ns dead_time now s (id ∷ ids) ((id, names) ∷ pools)
  alive :
      {id : Text} {ids : List Text} {pools : DeadPools}
      → ((names : List Text) → ¬ IsDead ns dead_time now id names s)
      → Sifted ns dead_time now s ids pools
      → Sifted ns dead_time now s (id ∷ ids) pools

none-ne-some : {a : Text} → none ≢ some a
none-ne-some e = cc

module _ (ns : Text) (dead_time now : ℕ) (id at : Text) (s : Store)
    (e : beat_field ns id (text "heartbeat_at") s ≡ some at) where
  nameless-Verdict :
      beat_field ns id (text "job_names") s ≡ none → Verdict ns dead_time now id none s
  nameless-Verdict n names (inl (missing, _)) = absurd (none-ne-some (sym missing ∙ e))
  nameless-Verdict n names (inr (at', beat, joined, _, _, _, named, _)) =
      absurd (none-ne-some (sym n ∙ named))

  young-Verdict :
      (beat : ℤ)
      → parse_int at ≡ some beat
      → ltb_ℤ (pos now) (beat +ℤ pos dead_time) ≡ true
      → Verdict ns dead_time now id none s
  young-Verdict beat p young names (inl (missing, _)) = absurd (none-ne-some (sym missing ∙ e))
  young-Verdict beat p young names (inr (at', beat', joined, e', p', old, _, _)) =
      let same : at ≡ at' = cc in
      let same_beat : beat ≡ beat' = cc in
      absurd (older (subst (λ b. b +ℤ pos dead_time ≤ℤ pos now) (sym same_beat) old))
    where
      older : ¬ (beat +ℤ pos dead_time ≤ℤ pos now)
      older o = absurd (ground (arith, young, o))

  names-Verdict :
      (beat : ℤ)
      → parse_int at ≡ some beat
      → ltb_ℤ (pos now) (beat +ℤ pos dead_time) ≡ false
      → (joined : Option Text) → joined ≡ beat_field ns id (text "job_names") s
      → Verdict ns dead_time now id (names_in joined) s
  names-Verdict beat p old none n = nameless-Verdict (sym n)
  names-Verdict beat p old (some joined) n =
      inr (at, beat, joined, e, p, ground (arith, old), sym n, refl)

module _ (before : Blob → Blob → Bool) (cjson : Option Args → Option Args) (ns : Text)
    (dead_time now : ℕ) where
  -- The beat was at the time `at`, and the pool is judged by it.
  abbrev Judged : Text → Text → Store → Option (List Text) → Type 0
  Judged id at s v =
      beat_field ns id (text "heartbeat_at") s ≡ some at → Verdict ns dead_time now id v s

  read_names-Verdict :
      (id at : Text) (beat : ℤ)
      → parse_int at ≡ some beat
      → ltb_ℤ (pos now) (beat +ℤ pos dead_time) ≡ false
      → Reads (Judged id at) (read_names (documented before cjson) ns id)
  unfolding read_names documented
  read_names-Verdict id at beat p old = Reads-bind _ _ _ _ (Reads-call _) (λ joined.
      Reads-pure _ _ (λ s n e. names-Verdict ns dead_time now id at s e beat p old joined n))

  by_age-Verdict :
      (id at : Text) (parsed : Option ℤ)
      → parse_int at ≡ parsed
      → Reads (Judged id at) (by_age (documented before cjson) ns dead_time now id parsed)
  unfolding by_age
  by_age-Verdict id at none p = Reads-fail _ _
  by_age-Verdict id at (some beat) p = elim (Bool-cases (ltb_ℤ (pos now) (beat +ℤ pos dead_time))) [
    | inl young ↦ rw young (
        Reads-pure (Judged id at) none
          (λ s e. young-Verdict ns dead_time now id at s e beat p young))
    | inr old ↦ rw old (read_names-Verdict id at beat p old)
  ]

  since_beat-Verdict :
      (id : Text) (at : Option Text)
      → Reads
          (λ s v. at ≡ beat_field ns id (text "heartbeat_at") s → Verdict ns dead_time now id v s)
          (since_beat (documented before cjson) ns dead_time now id at)
  unfolding since_beat
  since_beat-Verdict id none = Reads-pure _ _ (λ s e. inl (sym e, refl))
  since_beat-Verdict id (some at) = λ w.
      let judged = by_age-Verdict id at (parse_int at) refl w in
      record { stays = judged.stays; holds = λ v done e. judged.holds v done (sym e) }

  check_pool-Verdict :
      (id : Text)
      → Reads
          (λ s v. Verdict ns dead_time now id v s)
          (check_pool (documented before cjson) ns dead_time now id)
  unfolding check_pool documented
  check_pool-Verdict id = Reads-bind _ _ _ _ (Reads-call _) (since_beat-Verdict id)

  check_pools-Sifted :
      (ids : List Text)
      → Reads
          (λ s. Sifted ns dead_time now s ids)
          (check_pools (documented before cjson) ns dead_time now ids)
  unfolding check_pools
  check_pools-Sifted [] = Reads-pure _ _ (λ s. done)
  check_pools-Sifted (id ∷ ids) = Reads-bind _ _ _ _ (check_pool-Verdict id) (λ names.
      Reads-bind _ _ _ _ (check_pools-Sifted ids)
        (λ pools. Reads-pure _ _ (λ s rest v. cons names pools s v rest)))
    where
      cons :
          (names : Option (List Text)) (pools : DeadPools) (s : Store)
          → Verdict ns dead_time now id names s
          → Sifted ns dead_time now s ids pools
          → Sifted ns dead_time now s (id ∷ ids) (listed id names pools)
      cons none pools s v rest = alive v rest
      cons (some names) pools s v rest = dead v rest

  on_documented :
      (smembers : Key → Store → List Text)
      → Reads
          (λ s. Sifted ns dead_time now s (smembers (Keys.worker_pools ns) s))
          (find_dead_pools (documented before cjson) ns smembers dead_time now)
  unfolding find_dead_pools
  on_documented smembers = Reads-bind _ _ _ _ (Reads-call _) (λ ids w.
      let r = check_pools-Sifted ids w in
      record {
        stays = r.stays;
        holds = λ pools e same.
            subst (λ l. Sifted ns dead_time now w.store l pools) same (r.holds pools e);
      })

-- Whatever becomes of the exchanges, and in whatever order Redis gives the pools: if findDeadPools
-- returns pools, they are exactly those of the set that are dead, in that order, each with the job
-- types of its last heartbeat (none, if no heartbeat is left), and the store is as it was.
pub find_dead_pools_lem :
    (redis : Redis)
    → IsDocumented redis
    → (ns : Text) (smembers : Key → Store → List Text) (dead_time now : ℕ) (w : World)
      (pools : DeadPools)
    → (find_dead_pools redis ns smembers dead_time now w).0 ≡ ok pools
    → Sifted ns dead_time now w.store (smembers (Keys.worker_pools ns) w.store) pools
      × ((find_dead_pools redis ns smembers dead_time now w).1.store ≡ w.store)
find_dead_pools_lem redis h ns smembers dead_time now w pools e =
    let r =
      of_documented
        (λ r.
          Reads (λ s. Sifted ns dead_time now s (smembers (Keys.worker_pools ns) s))
            (find_dead_pools r ns smembers dead_time now))
        (λ before cjson. on_documented before cjson ns dead_time now smembers) redis h w in
    (r.holds pools e, r.stays)

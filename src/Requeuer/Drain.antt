-- ===== src/Requeuer/Drain.antt =====
-- The end of the requeuer's loop.
use work.Prelude.{
  ℕ, zero, suc, ◌<◌, ◌≡◌, ◌≢◌, ◌⊎◌, inl, inr, refl, ap, subst, ◌∙◌, Bool, true, false, List, [],
  ◌∷◌, ◌++◌, map, Option, some, arith, length, All, if_pos, if_neg,
}
use work.Text.{Text}
use work.Job.{Args, Blob, Doc, doc, raw, Blob-discrete}
use work.Keys
use work.Redis.{Redis, Store, Key, ZSet, documented, z_remove, z_range, IsDocumented, of_documented}
use work.Conn.{World, ok, Fault, delivered, request_lost, reply_lost, exchange}
use work.Scripts.Requeue.{Reply, zrem_lpush, requeue_first, place}
use work.Requeuer.{Requeuer, moved, run_script, process, process_all}

-- A member is one of the entries.
abbrev HasMember : Blob → ZSet → Type 0
HasMember b [] = ⊥
HasMember b ((s, x) ∷ z) = (x ≡ b) ⊎ HasMember b z

range_member :
    (lo hi score : ℕ) (b : Blob) (z rest : ZSet)
    → z_range lo hi z ≡ (score, b) ∷ rest
    → HasMember b z
unfolding z_range
range_member lo hi score b [] rest e = cc
range_member lo hi score b ((s, x) ∷ z) rest e = ground (arith, range_member lo hi score b z rest)

length-z_remove : (b : Blob) (z : ZSet) → HasMember b z → length (z_remove b z) < length z
unfolding z_remove
length-z_remove b [] h = absurd h
length-z_remove b ((s, x) ∷ z) (inl e) = ground arith
length-z_remove b ((s, x) ∷ z) (inr h) = ground (arith, length-z_remove b z h)

-- Every entry is a job with a name.
abbrev pub IsNamed : Blob → Type 0
IsNamed (raw t) = ⊥
IsNamed (doc d) = (name : Text) × (d.name ≡ some name)

abbrev pub Named : ZSet → Type 0
Named z = All (λ (x : ℕ × Blob). IsNamed x.1) z

Named-z_remove : (b : Blob) (z : ZSet) → Named z → Named (z_remove b z)
unfolding z_remove
Named-z_remove b [] h = tt
Named-z_remove b ((s, x) ∷ z) (h, rest) = elim (Blob-discrete x b) [
  | yes e ↦ rw (if_pos _ e) rest
  | no e ↦ rw (if_neg _ e) (h, Named-z_remove b z rest)
]

Named-member : (b : Blob) (z : ZSet) → Named z → HasMember b z → IsNamed b
Named-member b [] h m = absurd m
Named-member b ((s, x) ∷ z) h (inl e) = subst IsNamed e h.0
Named-member b ((s, x) ∷ z) h (inr m) = Named-member b z h.1 m

-- One run of the script on such a set: it moves a job, and the set shrinks and is still such a set;
-- or no job is due, and nothing changes.
abbrev Ran : Key → ℕ → Store → Reply × Store → Type 0
Ran key now s r =
    (((r.0 ≡ Reply.ok) ⊎ (r.0 ≡ Reply.dead))
      × (length (r.1.zsets key) < length (s.zsets key))
      × Named (r.1.zsets key))
    ⊎ ((r.0 ≡ Reply.nil) × (z_range 0 now (s.zsets key) ≡ []) × (r.1 ≡ s))

module _ (before : Blob → Blob → Bool) (cjson : Option Args → Option Args) where
  place-Ran :
      (key dead_key queue : Key) (keys : List Key) (now : ℕ) (d : Doc) (t : Store)
      → key ≢ dead_key
      → let r = place (documented before cjson) keys dead_key queue now d t in
        ((r.0 ≡ Reply.ok) ⊎ (r.0 ≡ Reply.dead)) × (r.1.zsets key ≡ t.zsets key)
  unfolding place documented
  place-Ran key dead_key queue keys now d t apart = (ground arith, ground arith)

  zrem-at :
      (key : Key) (b : Blob) (s : Store)
      → ((documented before cjson).zrem key b s).zsets key ≡ z_remove b (s.zsets key)
  unfolding documented
  zrem-at key b s = ground arith

  first-Ran :
      (key dead_key : Key) (queues : List Key) (prefix : Text) (now : ℕ) (z : ZSet) (s : Store)
      → key ≢ dead_key
      → Named (s.zsets key)
      → z_range 0 now (s.zsets key) ≡ z
      → Ran key now s (requeue_first (documented before cjson) key dead_key queues prefix now z s)
  unfolding requeue_first
  first-Ran key dead_key queues prefix now [] s apart named e = inr (refl, e, refl)
  first-Ran key dead_key queues prefix now ((score, raw t) ∷ z) s apart named e =
      absurd (Named-member (raw t) _ named (range_member 0 now score (raw t) _ z e))
  first-Ran key dead_key queues prefix now ((score, doc d) ∷ z) s apart named e =
      let m = range_member 0 now score (doc d) _ z e in
      let (name, n) = Named-member (doc d) _ named m in
      let t = (documented before cjson).zrem key (doc d) s in
      let (reply, at) =
        place-Ran key dead_key (prefix ++ name) (key ∷ dead_key ∷ queues) now d t apart in
      let left = at ∙ zrem-at key (doc d) s in
      inl (
        rw (n, requeue_first) reply,
        rw (n, requeue_first) (rw left (length-z_remove (doc d) _ m)),
        rw (n, requeue_first) (rw left (Named-z_remove (doc d) _ named)),
      )

  script-Ran :
      (r : Requeuer) (now : ℕ) (s : Store)
      → r.requeue_key ≢ Keys.dead r.namespace
      → Named (s.zsets r.requeue_key)
      → Ran r.requeue_key now s (run_script (documented before cjson) r now s)
  unfolding run_script zrem_lpush documented
  script-Ran r now s apart named =
      first-Ran r.requeue_key (Keys.dead r.namespace) (map (Keys.jobs r.namespace) r.job_names)
        (Keys.jobs_prefix r.namespace) now _ s apart named refl

module _ (redis : Redis) (r : Requeuer) (clock : ℕ → ℕ) where
  -- From a world with some fuel, calls of process that moved a job, up to a last one, at the time
  -- clock i, that did not, and left the world v.
  pub data Calls (v : World) (i : ℕ) : ℕ → World → Type 0 where
    last : {w : World} → process redis r (clock i) w ≡ (false, v) → Calls v i (suc i) w
    more :
        {n : ℕ} {w u : World}
        → process redis r (clock n) w ≡ (true, u)
        → Calls v i n u
        → Calls v i (suc n) w

  -- How the loop ends: within its fuel, with the world that its last call left, and with nothing due at
  -- the time of that call, if no exchange failed.
  abbrev pub Drained : ℕ → World → List Fault → Option World → Type 0
  Drained fuel w fs o =
      (v : World) × (i : ℕ) × (o ≡ some v)
      × Calls v i fuel w
      × (fs ≡ [] → z_range 0 (clock i) (v.store.zsets r.requeue_key) ≡ [])

  -- The loop behind one exchange.
  go_on : ℕ → Bool × World → Option World
  go_on i (true, v) = process_all redis r clock i v
  go_on i (false, v) = some v

  process_all-step :
      (i : ℕ) (w : World)
      → process_all redis r clock (suc i) w ≡ go_on i (process redis r (clock i) w)
  unfolding process_all go_on
  process_all-step i w = ground arith

-- A call: it moves a job, and the set shrinks; or it does not, and nothing is due if it did not fail.
abbrev Called : Key → ℕ → List Fault → Store → Bool × World → Type 0
Called key now fs s p =
    ((p.0 ≡ true)
      × (length (p.1.store.zsets key) < length (s.zsets key))
      × Named (p.1.store.zsets key)
      × (fs ≡ [] → p.1.faults ≡ []))
    ⊎ ((p.0 ≡ false) × (fs ≡ [] → z_range 0 now (p.1.store.zsets key) ≡ []))

after_run :
    (key : Key) (now : ℕ) (fs : List Fault) (s : Store) (v : World) (q : Reply × Store)
    → Ran key now s q
    → v.store ≡ q.1
    → (fs ≡ [] → v.faults ≡ [])
    → Called key now fs s (moved (ok q.0, v))
unfolding moved
after_run key now fs s v q (inl (inl e, less, named)) at quiet =
    rw e (inl (refl, rw at less, rw at named, quiet))
after_run key now fs s v q (inl (inr e, less, named)) at quiet =
    rw e (inl (refl, rw at less, rw at named, quiet))
after_run key now fs s v q (inr (e, none_due, same)) at quiet =
    rw e (inr (refl, λ h. rw (at, same) none_due))

module _ (before : Blob → Blob → Bool) (cjson : Option Args → Option Args) (r : Requeuer)
    (clock : ℕ → ℕ) (apart : r.requeue_key ≢ Keys.dead r.namespace) where
  on_faults :
      (now : ℕ) (fs : List Fault) (w : World)
      → Named (w.store.zsets r.requeue_key)
      → Called r.requeue_key now fs w.store
          (moved (exchange fs (run_script (documented before cjson) r now) w))
  unfolding moved
  on_faults now [] w named =
      after_run r.requeue_key now [] w.store _ _ (script-Ran before cjson r now w.store apart named)
        refl (λ _. refl)
  on_faults now (delivered ∷ fs) w named =
      after_run r.requeue_key now (delivered ∷ fs) w.store _ _
        (script-Ran before cjson r now w.store apart named) refl (λ h. cc)
  on_faults now (request_lost ∷ fs) w named = inr (refl, λ h. cc)
  on_faults now (reply_lost ∷ fs) w named = inr (refl, λ h. cc)

  process-Called :
      (now : ℕ) (w : World)
      → Named (w.store.zsets r.requeue_key)
      → Called r.requeue_key now w.faults w.store (process (documented before cjson) r now w)
  unfolding process
  process-Called now w named = on_faults now w.faults w named

  loop_on :
      (fuel : ℕ) (w : World)
      → length (w.store.zsets r.requeue_key) < fuel
      → Named (w.store.zsets r.requeue_key)
      → Drained
          (documented before cjson)
          r
          clock
          fuel
          w
          w.faults
          (process_all (documented before cjson) r clock fuel w)
  unfolding go_on
  loop_on zero w h named = absurd (omega arith)
  loop_on (suc i) w h named =
      let d = documented before cjson in
      let p = process d r (clock i) w in
      let step = process_all-step d r clock i w in
      elim (process-Called (clock i) w named) [
        | inl (e, less, still, quiet) ↦
            let (v, j, done, calls, end) = loop_on i p.1 (omega (arith, less, h)) still in
            (
              v,
              j,
              step ∙ ap (λ b. go_on d r clock i (b, p.1)) e ∙ done,
              more (ap (λ b. (b, p.1)) e) calls,
              λ c. end (quiet c),
            )
        | inr (e, end) ↦ (
          p.1,
          i,
          step ∙ ap (λ b. go_on d r clock i (b, p.1)) e,
          last (ap (λ b. (b, p.1)) e),
          end,
        )
      ]

-- With fuel above the size of its set, the loop `for r.process() {}` ends, whatever the clock does and
-- whatever becomes of its exchanges: its calls of process each move a job, up to a last one that moves
-- none. If no exchange fails, no job of the set is due at the time of that last call. The set is not
-- the dead set, and holds jobs that have a name.
pub process_all_lem :
    (redis : Redis)
    → IsDocumented redis
    → (r : Requeuer) (clock : ℕ → ℕ) (fuel : ℕ) (w : World) → r.requeue_key ≢ Keys.dead r.namespace
    → length (w.store.zsets r.requeue_key) < fuel
    → Named (w.store.zsets r.requeue_key)
    → Drained redis r clock fuel w w.faults (process_all redis r clock fuel w)
process_all_lem redis h r clock fuel w apart enough named =
    of_documented (λ d. Drained d r clock fuel w w.faults (process_all d r clock fuel w))
      (λ before cjson. loop_on before cjson r clock apart fuel w enough named) redis h

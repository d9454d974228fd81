-- ===== src/Client/Unscheduled.antt =====
-- What DeleteScheduledJob makes of a unique job and of its key.
use work.Prelude.{
  ℕ, ltb, ◌≡◌, ◌≢◌, refl, sym, subst, ap, ◌∙◌, Bool, true, [], ◌∷◌, Option, none, some, arith,
  if_pos, if_neg,
}
use work.Prelude.Int.{pos}
use work.Text.{Text, Text-discrete}
use work.Job.{Args, Blob, Job, serialize, new_job}
use work.Job.RoundTrip.{read_back, new_job-serialize}
use work.Keys
use work.Keys.Apart.{append_left_cancel}
use work.Redis.{Redis, Store, Key, documented, z_range, z_remove, IsDocumented, of_documented}
use work.Conn.{World, Result, ok, M, bind_result, exchange, pure, fail, script_failed}
use work.Scripts.Delete.{id_is, delete_loop, delete_single}
use work.Client.{
  delete_scored, delete_zset_job, delete_unique_key, delete_key_of, deleted, delete_scheduled_job,
}

heads : {c d : ℕ} {s t : Text} → c ∷ s ≡ d ∷ t → c ≡ d
heads e = cc

u-ne-s : ◌≢◌ {A = ℕ} b'u' b's'
u-ne-s e = omega arith

unique-ne-scheduled :
    (encode : Args → Text) (ns name : Text) (args : Option Args)
    → Keys.unique_job encode ns name args ≢ Keys.scheduled ns
unfolding Keys.unique_job Keys.scheduled
unique-ne-scheduled encode ns name none e =
    u-ne-s (heads (append_left_cancel (Keys.namespace_prefix ns) _ _ e))
unique-ne-scheduled encode ns name (some args) e =
    u-ne-s (heads (append_left_cancel (Keys.namespace_prefix ns) _ _ e))

-- The job is gone, and so is what stood at the key that its arguments give; at no other key does a
-- string change.
pub record Unscheduled (key : Key) (computed : Key) (j : Job) (s t : Store) : Type 0 where
  pub removed : t.zsets key ≡ z_remove (serialize j) (s.zsets key)
  pub freed : t.strings computed ≡ none
  pub kept : (k : Key) → k ≢ computed → t.strings k ≡ s.strings k

module _ (encode : Args → Text) (before : Blob → Blob → Bool) (cjson : Option Args → Option Args)
    (ns : Text) where
  abbrev d : Redis
  d = documented before cjson

  delete_one :
      (key : Key) (at : ℕ) (j : Job) (s : Store)
      → z_range at at (s.zsets key) ≡ (at, serialize j) ∷ []
      → delete_scored d key (pos at) j.id s
        ≡ (some (1, some (serialize j)), d.zrem key (serialize j) s)
  unfolding delete_scored delete_single delete_loop documented serialize
  delete_one key at j s due =
      let same : id_is j.id (some j.id) ≡ true = ground arith in
      rw (due, delete_loop) (rw same refl)

  delete_key_of-unique :
      (job : Job) (w : World)
      → job.unique ≡ true
      → w.faults ≡ []
      → delete_key_of d encode ns (some job) w ≡ (
        ok tt,
        record w {
          store = d.del (Keys.unique_job encode ns job.name job.args) w.store;
          faults = [];
        },
      )
  unfolding delete_key_of
  delete_key_of-unique job w unique calm = rw unique (rw calm refl)

  -- The unique key of a job that is read back.
  delete_unique_key-unique :
      (b : Blob) (job : Job) (w : World)
      → new_job b [] [] ≡ some job
      → job.unique ≡ true
      → w.faults ≡ []
      → delete_unique_key d encode ns (some b) w ≡ (
        ok tt,
        record w {
          store = d.del (Keys.unique_job encode ns job.name job.args) w.store;
          faults = [];
        },
      )
  unfolding delete_unique_key
  delete_unique_key-unique b job w parsed unique calm =
      ap (λ o. delete_key_of d encode ns o w) parsed ∙ delete_key_of-unique job w unique calm

  run_on :
      (at : ℕ) (j : Job) (w : World)
      → z_range at at (w.store.zsets (Keys.scheduled ns)) ≡ (at, serialize j) ∷ []
      → j.unique ≡ true
      → w.faults ≡ []
      → delete_scheduled_job d encode ns (pos at) j.id w ≡ (
        ok tt,
        record w {
          store =
              d.del
                (Keys.unique_job encode ns j.name (read_back j).args)
                (d.zrem (Keys.scheduled ns) (serialize j) w.store);
          faults = [];
        },
      )
  unfolding delete_scheduled_job delete_zset_job deleted
  run_on at j w due unique calm =
      let key = Keys.scheduled ns in
      let gone = d.zrem key (serialize j) w.store in
      let w' : World = record w { store = gone; faults = [] } in
      let job : Job = record (read_back j) {
        raw_json = serialize j;
        dequeued_from = [];
        in_prog_queue = [];
      } in
      let erased =
        delete_unique_key-unique (serialize j) job w' (new_job-serialize j [] []) unique refl in
      ap
        (λ fs.
          bind_result (bind_result (exchange fs (delete_scored d key (pos at) j.id) w) reply) after)
        calm
      ∙ ap
          (λ (r : Option (ℕ × Option Blob) × Store).
            bind_result (reply r.0 (record w { store = r.1; faults = [] })) after)
          (delete_one key at j w.store due)
      ∙ ap (λ r. bind_result r (λ _. deleted d true)) erased
    where
      reply : Option (ℕ × Option Blob) → M (Bool × Option Blob)
      reply r = elim r [
        | none ↦ fail script_failed
        | some (count, bytes) ↦ pure (ltb 0 count, bytes)
      ]

      bind_after : Option Blob → Bool → M (Unit {0})
      bind_after o b w = bind_result (delete_unique_key d encode ns o w) (λ _. deleted d b)

      after : Bool × Option Blob → M (Unit {0})
      after r = bind_after r.1 r.0

  Unscheduled-on :
      (j : Job) (s : Store)
      → let computed = Keys.unique_job encode ns j.name (read_back j).args in
        Unscheduled
          (Keys.scheduled ns)
          computed
          j
          s
          (d.del computed (d.zrem (Keys.scheduled ns) (serialize j) s))
  unfolding documented
  Unscheduled-on j s =
      let computed = Keys.unique_job encode ns j.name (read_back j).args in
      let key = Keys.scheduled ns in
      record {
        removed =
            if_neg (Text-discrete computed key)
              (unique-ne-scheduled encode ns j.name (read_back j).args) _ _
            ∙ if_pos (Text-discrete key key) refl _ _;
        freed = if_pos (Text-discrete computed computed) refl _ _;
        kept = λ k apart. if_neg (Text-discrete computed k) (λ e. apart (sym e)) _ _;
      }

-- DeleteScheduledJob of a unique job that is the only one of its time takes it from the scheduled set
-- and returns no error, while Redis answers. It frees the unique key that the job's arguments give
-- as they are read back, and no other: a job that was enqueued under the key of a key map leaves that key held.
pub delete_scheduled_job-Unscheduled :
    (encode : Args → Text) (redis : Redis)
    → IsDocumented redis
    → (ns : Text) (at : ℕ) (j : Job) (w : World)
    → z_range at at (w.store.zsets (Keys.scheduled ns)) ≡ (at, serialize j) ∷ []
    → j.unique ≡ true
    → w.faults ≡ []
    → let r = delete_scheduled_job redis encode ns (pos at) j.id w in
      (r.0 ≡ ok tt)
      × Unscheduled
          (Keys.scheduled ns)
          (Keys.unique_job encode ns j.name (read_back j).args)
          j
          w.store
          r.1.store
delete_scheduled_job-Unscheduled encode redis documents ns at j w due unique calm =
    let computed = Keys.unique_job encode ns j.name (read_back j).args in
    of_documented
      (λ d.
        let r = delete_scheduled_job d encode ns (pos at) j.id w in
        (r.0 ≡ ok tt) × Unscheduled (Keys.scheduled ns) computed j w.store r.1.store)
      (λ before cjson.
        subst
          (λ (r : Result (Unit {0}) × World).
            (r.0 ≡ ok tt) × Unscheduled (Keys.scheduled ns) computed j w.store r.1.store)
          (sym (run_on encode before cjson ns at j w due unique calm))
          (refl, Unscheduled-on encode before cjson ns j w.store))
      redis documents

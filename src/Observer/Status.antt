-- ===== src/Observer/Status.antt =====
-- The observer's hash: what a write of the status leaves in it.
use work.Prelude.{
  ℕ, ◌*◌, ◌≡◌, refl, ap, ◌∙◌, Bool, true, false, List, [], ◌∷◌, Option, none, some, if_pos,
  if◌then◌else◌,
}
use work.Text.{Text, text, Text-discrete}
use work.Text.Decimal.{format}
use work.Job.{Args, Blob}
use work.Redis.{
  Redis, Key, documented, put_fields, expire_hash, update, Store, IsDocumented, of_documented,
}
use work.Conn.{World}
use work.Observer.{
  Observation, has_checkin, checkin_fields, args_json, status_fields, write_encoded, write_status,
}

-- A check-in, as it is written.
abbrev pub Checkin : Type 0
Checkin = Text × ℕ

abbrev pub checkin_part : Option Checkin → List (Text × Text)
checkin_part none = []
checkin_part (some (t, at)) = (text "checkin", t) ∷ (text "checkin_at", format at) ∷ []

-- What the hash of a worker holds: nothing, or a job with its arguments' text and a check-in.
pub record Status : Type 0 where
  pub job : Observation
  pub args : Text
  pub last : Option Checkin

abbrev pub hash_of : Option Status → List (Text × Text)
hash_of none = []
hash_of (some s) =
    (text "job_name", s.job.job_name)
    ∷ (text "job_id", s.job.job_id)
    ∷ (text "started_at", format s.job.started_at)
    ∷ (text "args", s.args)
    ∷ checkin_part s.last

abbrev pub last_of : Option Status → Option Checkin
last_of none = none
last_of (some s) = s.last

-- The check-in behind a write of the job: its own, or the one that the hash held.
unfoldable pub kept_checkin : Observation → Option Checkin → Option Checkin
kept_checkin o last = if has_checkin o then some (o.checkin, o.checkin_at) else last

-- The fields of a status, and of one that is written with a check-in or without.
abbrev four : Text → Text → Text → Text → List (Text × Text) → List (Text × Text)
four name id start args rest =
    (text "job_name", name)
    ∷ (text "job_id", id)
    ∷ (text "started_at", start)
    ∷ (text "args", args)
    ∷ rest

abbrev own_part : Bool → Text → ℕ → List (Text × Text)
own_part b t at = if b then (text "checkin", t) ∷ (text "checkin_at", format at) ∷ [] else []

put_four :
    (n i s a m j r d t : Text) (at : ℕ) (b : Bool) (last : Option Checkin)
    → put_fields (four n i s a (own_part b t at)) (four m j r d (checkin_part last))
      ≡ four n i s a (checkin_part (if b then some (t, at) else last))
unfolding Text-discrete
put_four n i s a m j r d t at true none = refl
put_four n i s a m j r d t at true (some c) = refl
put_four n i s a m j r d t at false none = refl
put_four n i s a m j r d t at false (some c) = refl

put_new :
    (n i s a t : Text) (at : ℕ) (b : Bool)
    → put_fields (four n i s a (own_part b t at)) []
      ≡ four n i s a (checkin_part (if b then some (t, at) else none))
unfolding Text-discrete
put_new n i s a t at true = refl
put_new n i s a t at false = refl

put_fields-status :
    (o : Observation) (json : Text) (held : Option Status)
    → put_fields (status_fields o json) (hash_of held)
      ≡ hash_of (some (record { job = o; args = json; last = kept_checkin o (last_of held) }))
unfolding status_fields checkin_fields kept_checkin
put_fields-status o json none =
    put_new o.job_name o.job_id (format o.started_at) json o.checkin o.checkin_at (has_checkin o)
put_fields-status o json (some s) =
    put_four o.job_name o.job_id (format o.started_at) json s.job.job_name s.job.job_id
      (format s.job.started_at) s.args o.checkin o.checkin_at (has_checkin o) s.last

-- What a write of the current job makes of what the hash held.
unfoldable pub written : Text → Option Observation → Option Status → Option Status
written json none held = none
written json (some o) held =
    some (record { job = o; args = json; last = kept_checkin o (last_of held) })

abbrev pub at_key : Key → World → List (Text × Text)
at_key key w = w.store.hashes key

-- A write that reaches Redis, with no fault ahead.
abbrev pub Wrote : Key → List (Text × Text) → World → Type 0
Wrote key hash v = (at_key key v ≡ hash) × (v.faults ≡ [])

module _ (marshal : Args → Option Text) (before : Blob → Blob → Bool)
    (cjson : Option Args → Option Args) (key : Key) where
  expired :
      (secs : ℕ) (hash : List (Text × Text)) (s : Store)
      → (expire_hash key secs s hash).hashes ≡ s.hashes
  expired secs [] s = refl
  expired secs (f ∷ fs) s = refl

  hmset-expire :
      (secs : ℕ) (fs : List (Text × Text)) (s : Store)
      → let d = documented before cjson in
        (d.expire key secs (d.hmset key fs s)).hashes key ≡ put_fields fs (s.hashes key)
  unfolding documented
  hmset-expire secs fs s =
      let set = update s.hashes key (put_fields fs (s.hashes key)) in
      ap (λ (h : Key → List (Text × Text)). h key)
        (expired secs (set key) (record s { hashes = set }))
      ∙ if_pos (Text-discrete key key) refl _ _

  encoded :
      (o : Observation) (json : Text) (w : World)
      → w.faults ≡ []
      → Wrote key
          (put_fields (status_fields o json) (at_key key w))
          (write_encoded marshal (documented before cjson) key o (some json) w).1
  unfolding write_encoded
  encoded o json w calm =
      (rw calm (hmset-expire (60 * 60 * 24) (status_fields o json) w.store), rw calm refl)

  deleted :
      (w : World)
      → w.faults ≡ []
      → Wrote key [] (write_status marshal (documented before cjson) key none w).1
  unfolding write_status documented
  deleted w calm = (rw calm (if_pos (Text-discrete key key) refl _ _), rw calm refl)

  status_on :
      (o : Observation) (json : Text) (held : Option Status) (w : World)
      → args_json marshal o.arguments ≡ some json
      → at_key key w ≡ hash_of held
      → w.faults ≡ []
      → Wrote key
          (hash_of (written json (some o) held))
          (write_status marshal (documented before cjson) key (some o) w).1
  unfolding write_status written
  status_on o json held w e at calm =
      let (hash, quiet) = encoded o json w calm in
      rw e (hash ∙ ap (put_fields (status_fields o json)) at ∙ put_fields-status o json held, quiet)

-- The current job's arguments have a text.
abbrev pub IsEncoded : (Args → Option Text) → Text → Option Observation → Type 0
IsEncoded marshal json none = Unit
IsEncoded marshal json (some o) = args_json marshal o.arguments ≡ some json

-- A write that reaches Redis leaves the job in the hash, with its own check-in or with the last one.
pub write_status-Wrote :
    (marshal : Args → Option Text) (redis : Redis)
    → IsDocumented redis
    → (key : Key) (c : Option Observation) (json : Text) (held : Option Status) (w : World)
    → IsEncoded marshal json c
    → at_key key w ≡ hash_of held
    → w.faults ≡ []
    → Wrote key (hash_of (written json c held)) (write_status marshal redis key c w).1
unfolding written
write_status-Wrote marshal redis d key none json held w e at calm =
    of_documented (λ r. Wrote key [] (write_status marshal r key none w).1)
      (λ before cjson. deleted marshal before cjson key w calm) redis d
write_status-Wrote marshal redis d key (some o) json held w e at calm =
    of_documented
      (λ r.
        Wrote key (hash_of (written json (some o) held)) (write_status marshal r key (some o) w).1)
      (λ before cjson. status_on marshal before cjson key o json held w e at calm) redis d

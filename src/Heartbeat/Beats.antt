-- ===== src/Heartbeat/Beats.antt =====
-- What a beat leaves in the pool's hash.
use work.Prelude.{ℕ, Bool, ◌≡◌, refl, ap, ◌∙◌, arith, List, [], ◌∷◌, Option, some, ite, if_pos}
use work.Text.{Text, text, Text-discrete}
use work.Text.Decimal.{format}
use work.Job.{Blob, Args}
use work.Keys
use work.Redis.{Redis, documented, IsDocumented, of_documented, put_field, put_fields, field_of}
use work.Conn.{World}
use work.Heartbeat.{WorkerPoolHeartbeater, beat_fields, heartbeat}

-- The value that a list of writes leaves in a field, over the one from before.
abbrev pub written : Text → List (Text × Text) → Option Text → Option Text
written f [] old = old
written f ((g, v) ∷ fs) old = written f fs (ite (Text-discrete g f) (some v) old)

field_of-put_field :
    (f g v : Text) (h : List (Text × Text))
    → field_of f (put_field g v h) ≡ ite (Text-discrete g f) (some v) (field_of f h)
field_of-put_field f g v [] = refl
field_of-put_field f g v ((k, w) ∷ h) = ground (arith, field_of-put_field f g v h)

field_of-put_fields :
    (f : Text) (fs h : List (Text × Text))
    → field_of f (put_fields fs h) ≡ written f fs (field_of f h)
field_of-put_fields f [] h = refl
field_of-put_fields f ((g, v) ∷ fs) h =
    field_of-put_fields f fs (put_field g v h) ∙ ap (written f fs) (field_of-put_field f g v h)

module _ (h : WorkerPoolHeartbeater) (now : ℕ) (old : List (Text × Text)) where
  at_written :
      written (text "heartbeat_at") (beat_fields h now) (field_of (text "heartbeat_at") old)
      ≡ some (format now)
  unfolding beat_fields Text-discrete
  at_written = refl

  names_written :
      written (text "job_names") (beat_fields h now) (field_of (text "job_names") old)
      ≡ some h.job_names
  unfolding beat_fields Text-discrete
  names_written = refl

  -- The time and the job names of the last beat are in the hash, whatever it held before.
  pub beat_time :
      field_of (text "heartbeat_at") (put_fields (beat_fields h now) old) ≡ some (format now)
  beat_time = field_of-put_fields _ (beat_fields h now) old ∙ at_written

  pub beat_names :
      field_of (text "job_names") (put_fields (beat_fields h now) old) ≡ some h.job_names
  beat_names = field_of-put_fields _ (beat_fields h now) old ∙ names_written

-- A beat replaces all that an earlier one wrote.
pub put_fields-empty :
    (h : WorkerPoolHeartbeater) (now : ℕ) → put_fields (beat_fields h now) [] ≡ beat_fields h now
unfolding beat_fields Text-discrete
put_fields-empty h now = refl

pub put_fields-beat :
    (h : WorkerPoolHeartbeater) (old now : ℕ)
    → put_fields (beat_fields h now) (beat_fields h old) ≡ beat_fields h now
unfolding beat_fields Text-discrete
put_fields-beat h old now = refl

hash_on :
    (before : Blob → Blob → Bool) (cjson : Option Args → Option Args) (h : WorkerPoolHeartbeater)
    (now : ℕ) (w : World)
    → w.faults ≡ []
    → let key = Keys.heartbeat h.namespace h.worker_pool_id in
      (heartbeat (documented before cjson) h now w).store.hashes key
      ≡ put_fields (beat_fields h now) (w.store.hashes key)
unfolding heartbeat documented
hash_on before cjson h now w calm =
    let key = Keys.heartbeat h.namespace h.worker_pool_id in
    rw calm (if_pos (Text-discrete key key) refl _ _)

-- The hash behind a beat that reaches Redis.
pub heartbeat-hash :
    (redis : Redis)
    → IsDocumented redis
    → (h : WorkerPoolHeartbeater) (now : ℕ) (w : World) → w.faults ≡ []
    → let key = Keys.heartbeat h.namespace h.worker_pool_id in
      (heartbeat redis h now w).store.hashes key
      ≡ put_fields (beat_fields h now) (w.store.hashes key)
heartbeat-hash redis d h now w calm =
    let key = Keys.heartbeat h.namespace h.worker_pool_id in
    of_documented
      (λ r.
        (heartbeat r h now w).store.hashes key
        ≡ put_fields (beat_fields h now) (w.store.hashes key))
      (λ before cjson. hash_on before cjson h now w calm) redis d

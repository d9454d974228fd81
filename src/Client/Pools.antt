-- ===== src/Client/Pools.antt =====
-- client.go, WorkerPoolHeartbeats and WorkerObservations: what the web UI shows of the pools and of
-- their workers. SMEMBERS, whose order Redis leaves open, is a parameter. The replies of a pipeline of
-- reads come as a whole or not at all.
pub mod Shown
use work.Prelude.{ℕ, Bool, true, false, List, [], ◌∷◌, ◌++◌, Option, none, some, if◌then◌else◌}
use work.Prelude.Int.{ℤ, pos}
use work.Text.{Text, text, same_text}
use work.Text.Decimal.{parse_int, parse_uint}
use work.Text.Names.{split, sort_strings}
use work.Keys
use work.Redis.{Redis, Store, Key}
use work.Conn.{malformed, M, ◌>>=◌, pure, fail, call}

pub record WorkerPoolHeartbeat : Type 0 where
  pub worker_pool_id : Text
  pub started_at : ℤ
  pub heartbeat_at : ℤ
  pub job_names : List Text
  pub concurrency : ℕ
  pub host : Text
  pub pid : ℤ
  pub worker_ids : List Text

abbrev pub no_heartbeat : Text → WorkerPoolHeartbeat
no_heartbeat id = record {
  worker_pool_id = id;
  started_at = pos 0;
  heartbeat_at = pos 0;
  job_names = [];
  concurrency = 0;
  host = [];
  pid = pos 0;
  worker_ids = [];
}

-- A field whose value may be no number.
abbrev pub parsed : {A B : Type 0} → Option A → (A → B) → Option B
parsed none f = none
parsed (some a) f = some (f a)

unfoldable pub read_beat_field : Text → Text → WorkerPoolHeartbeat → Option WorkerPoolHeartbeat
unfolding parse_int parse_uint split sort_strings
read_beat_field key value h =
    if same_text key (text "heartbeat_at")
    then parsed (parse_int value) (λ n. record h { heartbeat_at = n })
    else if same_text key (text "started_at")
    then parsed (parse_int value) (λ n. record h { started_at = n })
    else if same_text key (text "job_names")
    then some (record h { job_names = sort_strings (split value) })
    else if same_text key (text "concurrency")
    then parsed (parse_uint value) (λ n. record h { concurrency = n })
    else if same_text key (text "host")
    then some (record h { host = value })
    else if same_text key (text "pid")
    then parsed (parse_int value) (λ n. record h { pid = n })
    else if same_text key (text "worker_ids")
    then some (record h { worker_ids = sort_strings (split value) })
    else some h

abbrev pub then_read : {A : Type 0} → Option A → (A → Option A) → Option A
then_read none f = none
then_read (some a) f = f a

unfoldable pub read_beat : List (Text × Text) → WorkerPoolHeartbeat → Option WorkerPoolHeartbeat
unfolding read_beat_field
read_beat [] h = some h
read_beat ((key, value) ∷ fs) h = then_read (read_beat_field key value h) (read_beat fs)

pub record WorkerObservation : Type 0 where
  pub worker_id : Text
  pub is_busy : Bool
  pub job_name : Text
  pub job_id : Text
  pub started_at : ℤ
  pub args_json : Text
  pub checkin : Text
  pub checkin_at : ℤ

abbrev pub idle_worker : Text → WorkerObservation
idle_worker id = record {
  worker_id = id;
  is_busy = false;
  job_name = [];
  job_id = [];
  started_at = pos 0;
  args_json = [];
  checkin = [];
  checkin_at = pos 0;
}

unfoldable pub read_observed_field : Text → Text → WorkerObservation → Option WorkerObservation
unfolding parse_int
read_observed_field key value ob =
    if same_text key (text "job_name")
    then some (record ob { job_name = value })
    else if same_text key (text "job_id")
    then some (record ob { job_id = value })
    else if same_text key (text "started_at")
    then parsed (parse_int value) (λ n. record ob { started_at = n })
    else if same_text key (text "args")
    then some (record ob { args_json = value })
    else if same_text key (text "checkin")
    then some (record ob { checkin = value })
    else if same_text key (text "checkin_at")
    then parsed (parse_int value) (λ n. record ob { checkin_at = n })
    else some ob

-- Any field makes the worker busy.
unfoldable pub read_observed : List (Text × Text) → WorkerObservation → Option WorkerObservation
unfolding read_observed_field
read_observed [] ob = some ob
read_observed ((key, value) ∷ fs) ob =
    then_read (read_observed_field key value (record ob { is_busy = true })) (read_observed fs)

-- One entry for each id, or the first error.
abbrev pub and_then : {A : Type 0} → Option A → Option (List A) → Option (List A)
and_then none rest = none
and_then (some a) none = none
and_then (some a) (some rest) = some (a ∷ rest)

unfoldable pub read_beats : List (Text × List (Text × Text)) → Option (List WorkerPoolHeartbeat)
unfolding read_beat
read_beats [] = some []
read_beats ((id, fs) ∷ rest) = and_then (read_beat fs (no_heartbeat id)) (read_beats rest)

unfoldable pub read_observations :
    List (Text × List (Text × Text)) → Option (List WorkerObservation)
unfolding read_observed
read_observations [] = some []
read_observations ((id, fs) ∷ rest) =
    and_then (read_observed fs (idle_worker id)) (read_observations rest)

abbrev pub or_malformed : {A : Type 0} → Option A → M A
or_malformed none = fail malformed
or_malformed (some a) = pure a

abbrev pub all_worker_ids : List WorkerPoolHeartbeat → List Text
all_worker_ids [] = []
all_worker_ids (h ∷ hs) = h.worker_ids ++ all_worker_ids hs

module _ (redis : Redis) (ns : Text) where
  open redis use {hgetall}

  -- HGETALL for each id, in one pipeline.
  abbrev pub hashes_at : (Text → Key) → List Text → Store → List (Text × List (Text × Text))
  hashes_at key_of [] s = []
  hashes_at key_of (id ∷ ids) s = (id, hgetall (key_of id) s) ∷ hashes_at key_of ids s

  unfoldable pub worker_pool_heartbeats : (Key → Store → List Text) → M (List WorkerPoolHeartbeat)
  unfolding read_beats sort_strings
  worker_pool_heartbeats smembers =
      call (λ s. (smembers (Keys.worker_pools ns) s, s))
      >>= (λ ids. call (λ s. (hashes_at (Keys.heartbeat ns) (sort_strings ids) s, s)))
      >>= (λ hashes. or_malformed (read_beats hashes))

  unfoldable pub worker_observations : (Key → Store → List Text) → M (List WorkerObservation)
  unfolding worker_pool_heartbeats read_observations
  worker_observations smembers =
      worker_pool_heartbeats smembers
      >>= (λ hbs. call (λ s. (hashes_at (Keys.worker_observation ns) (all_worker_ids hbs) s, s)))
      >>= (λ hashes. or_malformed (read_observations hashes))

-- ===== src/Observer.antt =====
-- observer.go: what a worker's observer writes to Redis about the job that the worker runs. The
-- channels are the order in which observations, ticks and drains are handled. The text that
-- encoding/json makes of the arguments is a parameter. What the two commands of a pipeline do is one
-- exchange.
pub mod Status
pub mod Current
pub mod Shown
use work.Prelude.{
  ℕ, suc, ltb, ◌==◌, ◌*◌, Bool, true, false, not, ◌&&◌, List, [], ◌∷◌, ◌++◌, Option, none, some,
  ite, if◌then◌else◌,
}
use work.Text.{Text, text, Text-discrete}
use work.Text.Decimal.{format}
use work.Job.{Args, Job}
use work.Keys
use work.Redis.{Redis}
use work.Conn.{World, Result, malformed, M, fail, command}

pub data Kind : Type 0 where
  started done checked_in : Kind

-- `err` is never read.
pub record Observation : Type 0 where
  pub kind : Kind
  pub job_name : Text
  pub job_id : Text
  pub started_at : ℕ
  pub arguments : Args
  pub checkin : Text
  pub checkin_at : ℕ

pub record Observer : Type 0 where
  pub namespace : Text
  pub worker_id : Text
  pub current : Option Observation
  pub version : ℕ
  pub last_written_version : ℕ

unfoldable pub new_observer : Text → Text → Observer
new_observer namespace worker_id = record {
  namespace = namespace;
  worker_id = worker_id;
  current = none;
  version = 0;
  last_written_version = 0;
}

-- What the worker and the job's handler send; `now` is nowEpochSeconds.
unfoldable pub observe_started : Text → Text → Args → ℕ → Observation
observe_started name id arguments now = record {
  kind = started;
  job_name = name;
  job_id = id;
  started_at = now;
  arguments = arguments;
  checkin = [];
  checkin_at = 0;
}

unfoldable pub observe_done : Text → Text → Observation
observe_done name id = record {
  kind = done;
  job_name = name;
  job_id = id;
  started_at = 0;
  arguments = [];
  checkin = [];
  checkin_at = 0;
}

unfoldable pub observe_checkin : Text → Text → Text → ℕ → Observation
observe_checkin name id checkin now = record {
  kind = checked_in;
  job_name = name;
  job_id = id;
  started_at = 0;
  arguments = [];
  checkin = checkin;
  checkin_at = now;
}

-- Job.Checkin: nothing is sent for a job that no observer observes.
unfoldable pub checkin_of : Bool → Job → Text → ℕ → Option Observation
unfolding observe_checkin
checkin_of false j msg now = none
checkin_of true j msg now = some (observe_checkin j.name j.id msg now)

abbrev is_empty : Text → Bool
is_empty [] = true
is_empty (c ∷ t) = false

unfoldable pub has_checkin : Observation → Bool
has_checkin o = not (is_empty o.checkin) && ltb 0 o.checkin_at

-- The fields of the check-in, if there is one.
unfoldable pub checkin_fields : Observation → List (Text × Text)
unfolding has_checkin
checkin_fields o =
    if has_checkin o
    then (text "checkin", o.checkin) ∷ (text "checkin_at", format o.checkin_at) ∷ []
    else []

-- The arguments' JSON; `none` is an error of json.Marshal.
unfoldable pub args_json : (Args → Option Text) → Args → Option Text
args_json marshal [] = some []
args_json marshal (a ∷ rest) = marshal (a ∷ rest)

unfoldable pub status_fields : Observation → Text → List (Text × Text)
unfolding checkin_fields
status_fields o json =
    (text "job_name", o.job_name)
    ∷ (text "job_id", o.job_id)
    ∷ (text "started_at", format o.started_at)
    ∷ (text "args", json)
    ∷ checkin_fields o

-- A check-in of the current job goes into its observation; another one is only logged.
unfoldable pub check_in : Observation → Option Observation → Option Observation
check_in obv none = none
check_in obv (some o) =
    ite (Text-discrete obv.job_id o.job_id)
      (some (record o { checkin = obv.checkin; checkin_at = obv.checkin_at })) (some o)

unfoldable pub observed : Kind → Observation → Option Observation → Option Observation
unfolding check_in
observed started obv current = some obv
observed done obv current = none
observed checked_in obv current = check_in obv current

-- An error is only logged.
abbrev regardless : Result (Unit {0}) × World → World
regardless r = r.1

module _ (marshal : Args → Option Text) (redis : Redis) where
  open redis use {hmset, del, expire}

  -- HMSET and an EXPIRE of a day, once the arguments are encoded.
  unfoldable pub write_encoded : Text → Observation → Option Text → M (Unit {0})
  unfolding status_fields
  write_encoded key o none = fail malformed
  write_encoded key o (some json) =
      command (λ s. expire key (60 * 60 * 24) (hmset key (status_fields o json) s))

  unfoldable pub write_status : Text → Option Observation → M (Unit {0})
  unfolding write_encoded args_json
  write_status key none = command (del key)
  write_status key (some o) = write_encoded key o (args_json marshal o.arguments)

  unfoldable pub write_current : Observer → World → World
  unfolding write_status
  write_current o w =
      regardless (write_status (Keys.worker_observation o.namespace o.worker_id) o.current w)

  -- The write that marks the version as written, whether it failed or not.
  unfoldable pub flush : Observer → World → Observer × World
  unfolding write_current
  flush o w = (record o { last_written_version = o.version }, write_current o w)

  -- The first observation is written at once.
  unfoldable pub process : Observation → Observer → World → Observer × World
  unfolding observed flush
  process obv o w =
      let p : Observer = record o {
        current = observed obv.kind obv o.current;
        version = suc o.version;
      } in
      if p.version == 1 then flush p w else (p, w)

  unfoldable pub tick : Observer → World → Observer × World
  unfolding flush
  tick o w = if o.last_written_version == o.version then (o, w) else flush o w

  -- A drain processes what is buffered, writes the status, and leaves the written version as it is.
  unfoldable pub drain : List Observation → Observer → World → Observer × World
  unfolding process write_current
  drain [] o w = (o, write_current o w)
  drain (obv ∷ obvs) o w = let (p, v) = process obv o w in drain obvs p v

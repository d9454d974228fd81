-- ===== src/Tests.antt =====
-- The data that the examples share, and the examples of the theorems, by component.
pub mod Fetching
pub mod Jobs
pub mod Sets
pub mod Sampling
pub mod Pools
pub mod Reading
pub mod Chains
pub mod Beats
pub mod Bulks
pub mod Loops
pub mod Periodics
pub mod Showing
pub mod Ending
pub mod Observing
pub mod Handshakes
pub mod Requests
pub mod Ordering
pub mod Arrivals
use work.Prelude.{ℕ, Bool, true, false, List, [], ◌∷◌, Option, none, some, ◌≡◌, refl}
use work.Text.{Text, text}
use work.Job.{Args, Blob, Job, Any, serialize}
use work.Keys
use work.Redis.{Redis, Store, Key, ZSet, IsDocumented, documented}
use work.Conn.{World}
use work.Enqueuer.{Enqueuer, new_enqueuer, new_job_of}
use work.Scripts.Fetch.{FetchKeys}

abbrev pub redis : Redis
redis = documented (λ a b. true) (λ args. args)

pub redis-IsDocumented : IsDocumented redis
unfolding documented
redis-IsDocumented = refl

abbrev pub encode : Args → Text
encode args = text "{}"

abbrev pub empty_store : Store
empty_store = record {
  counters = λ k. none;
  strings = λ k. none;
  ttl = λ k. none;
  lists = λ k. [];
  tallies = λ k f. none;
  sets = λ k f. false;
  zsets = λ k. [];
  hashes = λ k. [];
}

abbrev pub mail : Job
mail = record {
  name = text "m";
  id = text "1";
  enqueued_at = 7;
  args = some ((text "to", Any.string (text "a")) ∷ []);
  unique = false;
  unique_key = [];
  fails = 0;
  last_err = [];
  failed_at = 0;
  raw_json = Blob.raw [];
  dequeued_from = [];
  in_prog_queue = [];
}

abbrev pub sends : Enqueuer
sends = record { namespace = text "n"; min_wait_replicas = 1; queue_prefix = text "n:jobs:" }

abbrev pub world_on : Store → World
world_on s = record { store = s; faults = []; acks = 1 ∷ []; known_jobs = λ name. none }

-- One key of a store holds this list, or this set.
abbrev pub with_list : Key → List Blob → Store
with_list k xs = record empty_store { lists = work.Redis.update empty_store.lists k xs }

abbrev pub with_zset : Key → ZSet → Store
with_zset k z = record empty_store { zsets = work.Redis.update empty_store.zsets k z }

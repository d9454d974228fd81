-- ===== src/Keys.antt =====
-- redis.go: the names of the keys.
pub mod Apart
use work.Prelude.{◌==◌, Bool, false, [], ◌∷◌, ◌++◌, Option, none, some, if◌then◌else◌}
use work.Text.{Text, text}
use work.Job.{Args}

-- Whether the last byte of a namespace that is not empty is a colon.
ends_with_colon : Text → Bool
ends_with_colon [] = false
ends_with_colon (c ∷ []) = c == b':'
ends_with_colon (c ∷ d ∷ r) = ends_with_colon (d ∷ r)

unfoldable pub namespace_prefix : Text → Text
unfolding ends_with_colon
namespace_prefix [] = []
namespace_prefix (c ∷ r) = if ends_with_colon (c ∷ r) then c ∷ r else (c ∷ r) ++ text ":"

unfoldable pub known_jobs : Text → Text
known_jobs ns = namespace_prefix ns ++ text "known_jobs"

unfoldable pub jobs_prefix : Text → Text
jobs_prefix ns = namespace_prefix ns ++ text "jobs:"

unfoldable pub jobs : Text → Text → Text
jobs ns name = jobs_prefix ns ++ name

unfoldable pub jobs_in_progress : Text → Text → Text → Text
jobs_in_progress ns pool name = jobs ns name ++ (text ":" ++ (pool ++ text ":inprogress"))

unfoldable pub retry : Text → Text
retry ns = namespace_prefix ns ++ text "retry"

unfoldable pub dead : Text → Text
dead ns = namespace_prefix ns ++ text "dead"

unfoldable pub scheduled : Text → Text
scheduled ns = namespace_prefix ns ++ text "scheduled"

unfoldable pub worker_observation : Text → Text → Text
worker_observation ns worker = namespace_prefix ns ++ (text "worker:" ++ worker)

unfoldable pub worker_pools : Text → Text
worker_pools ns = namespace_prefix ns ++ text "worker_pools"

unfoldable pub heartbeat : Text → Text → Text
heartbeat ns pool = namespace_prefix ns ++ (text "worker_pools:" ++ pool)

unfoldable pub jobs_paused : Text → Text → Text
jobs_paused ns name = jobs ns name ++ text ":paused"

unfoldable pub jobs_lock : Text → Text → Text
jobs_lock ns name = jobs ns name ++ text ":lock"

unfoldable pub jobs_lock_info : Text → Text → Text
jobs_lock_info ns name = jobs ns name ++ text ":lock_info"

unfoldable pub jobs_concurrency : Text → Text → Text
jobs_concurrency ns name = jobs ns name ++ text ":max_concurrency"

unfoldable pub last_periodic_enqueue : Text → Text
last_periodic_enqueue ns = namespace_prefix ns ++ text "last_periodic_enqueue"

-- `encode` is the text that encoding/json writes for the arguments.
unfoldable pub unique_job : (Args → Text) → Text → Text → Option Args → Text
unique_job encode ns name none = namespace_prefix ns ++ (text "unique:" ++ (name ++ text ":"))
unique_job encode ns name (some args) =
    namespace_prefix ns ++ (text "unique:" ++ (name ++ (text ":" ++ encode args)))

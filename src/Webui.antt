-- ===== src/Webui.antt =====
-- webui/webui.go and webui/handler.go: the requests of the web UI, as calls of the client. A response
-- is the value that is printed as JSON, or an error with its status of 500; a handler that panics
-- gives none. The commands that the client's calls take as parameters, and the clock, are parameters
-- here too. The mux, the assets and the server are left out: a request is given with its parameters.
pub mod Requests
pub mod Retries
use work.Prelude.{ℕ, List, [], ◌∷◌, Option, none, some, if◌then◌else◌}
use work.Prelude.Int.{ℤ}
use work.Text.{Text, text}
use work.Text.Decimal.{parse_int, parse_uint}
use work.Redis.{Redis, Store, Key, ZSet}
use work.Job.{Blob}
use work.Conn.{World, Result, ok, err, Error, malformed, M, fail}
use work.Enqueuer.{ScheduledJob}
use work.Client.{delete_dead_job, delete_all_dead_jobs}
use work.Client.Retries.{retry_dead_job, retry_all_dead_jobs}
use work.Client.Pools.{
  WorkerPoolHeartbeat, WorkerObservation, worker_pool_heartbeats, worker_observations,
}
use work.Client.Queues.{Queue, queues}
use work.Client.Listings.{RetryJob, DeadJob}
use work.Client.Listings

pub data Body : Type 0 where
  pong status_ok : Body
  queue_list : List Queue → Body
  pool_list : List WorkerPoolHeartbeat → Body
  busy_list : List WorkerObservation → Body
  retry_page : ℕ → List RetryJob → Body
  scheduled_page : ℕ → List ScheduledJob → Body
  dead_page : ℕ → List DeadJob → Body

pub data Response : Type 0 where
  json : Body → Response
  error_500 : Error → Response

-- render and renderError.
abbrev pub render : {A : Type 0} → (A → Body) → Result A × World → Option Response × World
render f (ok a, w) = (some (json (f a)), w)
render f (err e, w) = (some (error_500 e), w)

-- A call of the client that may panic.
abbrev pub render_or_panic :
    {A : Type 0} → (A → Body) → Result (Option A) × World → Option Response × World
render_or_panic f (ok none, w) = (none, w)
render_or_panic f (ok (some a), w) = (some (json (f a)), w)
render_or_panic f (err e, w) = (some (error_500 e), w)

-- The path's time of death.
abbrev pub timed : {A : Type 0} → Option ℤ → (ℤ → M A) → M A
timed none f = fail malformed
timed (some died_at) f = f died_at

-- The form's page, which is the first without one.
unfoldable pub parse_page : Text → Option ℕ
unfolding parse_uint
parse_page [] = parse_uint (text "1")
parse_page (c ∷ t) = parse_uint (c ∷ t)

abbrev pub paged : {A : Type 0} → Option ℕ → (ℕ → M A) → M A
paged none f = fail malformed
paged (some page) f = f page

unfoldable pub busy_of : List WorkerObservation → List WorkerObservation
busy_of [] = []
busy_of (ob ∷ obs) = let rest = busy_of obs in if ob.is_busy then ob ∷ rest else rest

abbrev pub page_body : {A : Type 0} → (ℕ → List A → Body) → List A × ℕ → Body
page_body f (jobs, count) = f count jobs

module _ (redis : Redis) (ns : Text) where
  abbrev pub ping : World → Option Response × World
  ping w = (some (json pong), w)

  unfoldable pub show_queues :
      (Key → Store → Option Blob) → (Key → Store → List Text) → ℕ → World → Option Response × World
  unfolding queues
  show_queues last_entry smembers now w =
      render_or_panic queue_list (queues redis ns last_entry smembers now w)

  unfoldable pub worker_pools : (Key → Store → List Text) → World → Option Response × World
  unfolding worker_pool_heartbeats
  worker_pools smembers w = render pool_list (worker_pool_heartbeats redis ns smembers w)

  unfoldable pub busy_workers : (Key → Store → List Text) → World → Option Response × World
  unfolding worker_observations busy_of
  busy_workers smembers w =
      render (λ obs. busy_list (busy_of obs)) (worker_observations redis ns smembers w)

  module _ (entries : Key → Store → ZSet) where
    unfoldable pub retry_jobs : Text → World → Option Response × World
    unfolding Listings.retry_jobs parse_page
    retry_jobs page w =
        render (page_body retry_page)
          (paged (parse_page page) (Listings.retry_jobs redis ns entries) w)

    unfoldable pub scheduled_jobs : Text → World → Option Response × World
    unfolding Listings.scheduled_jobs parse_page
    scheduled_jobs page w =
        render (page_body scheduled_page)
          (paged (parse_page page) (Listings.scheduled_jobs redis ns entries) w)

    unfoldable pub dead_jobs : Text → World → Option Response × World
    unfolding Listings.dead_jobs parse_page
    dead_jobs page w =
        render (page_body dead_page)
          (paged (parse_page page) (Listings.dead_jobs redis ns entries) w)

  unfoldable pub delete_dead : Text → Text → World → Option Response × World
  unfolding delete_dead_job parse_int
  delete_dead died_at id w =
      render (λ u. status_ok) (timed (parse_int died_at) (λ at. delete_dead_job redis ns at id) w)

  unfoldable pub delete_all_dead : World → Option Response × World
  unfolding delete_all_dead_jobs
  delete_all_dead w = render (λ u. status_ok) (delete_all_dead_jobs redis ns w)

  module _ (last_entry : Key → Store → Option Blob) (smembers : Key → Store → List Text)
      (asked now : ℕ) where
    unfoldable pub retry_dead : Text → Text → World → Option Response × World
    unfolding retry_dead_job parse_int
    retry_dead died_at id w =
        render_or_panic (λ u. status_ok)
          (timed (parse_int died_at)
            (λ at. retry_dead_job redis ns last_entry smembers asked now at id) w)

    unfoldable pub retry_all_dead : World → Option Response × World
    unfolding retry_all_dead_jobs
    retry_all_dead w =
        render_or_panic (λ u. status_ok)
          (retry_all_dead_jobs redis ns last_entry smembers asked now w)

-- The routes of the API; a page or a time of death is the text in the request.
pub data Request : Type 0 where
  get_ping get_queues get_worker_pools get_busy_workers : Request
  get_retry_jobs get_scheduled_jobs get_dead_jobs : Text → Request
  post_delete_dead_job post_retry_dead_job : Text → Text → Request
  post_delete_all_dead_jobs post_retry_all_dead_jobs : Request

module _ (redis : Redis) (ns : Text) (entries : Key → Store → ZSet)
    (last_entry : Key → Store → Option Blob) (smembers : Key → Store → List Text)
    (asked now : ℕ) where
  unfoldable pub handle : Request → World → Option Response × World
  unfolding show_queues worker_pools busy_workers retry_jobs scheduled_jobs dead_jobs delete_dead
      retry_dead delete_all_dead retry_all_dead
  handle get_ping w = ping redis ns w
  handle get_queues w = show_queues redis ns last_entry smembers asked w
  handle get_worker_pools w = worker_pools redis ns smembers w
  handle get_busy_workers w = busy_workers redis ns smembers w
  handle (get_retry_jobs page) w = retry_jobs redis ns entries page w
  handle (get_scheduled_jobs page) w = scheduled_jobs redis ns entries page w
  handle (get_dead_jobs page) w = dead_jobs redis ns entries page w
  handle (post_delete_dead_job died_at id) w = delete_dead redis ns died_at id w
  handle (post_retry_dead_job died_at id) w =
      retry_dead redis ns last_entry smembers asked now died_at id w
  handle post_delete_all_dead_jobs w = delete_all_dead redis ns w
  handle post_retry_all_dead_jobs w = retry_all_dead redis ns last_entry smembers asked now w

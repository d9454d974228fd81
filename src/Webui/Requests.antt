-- ===== src/Webui/Requests.antt =====
-- What the requests that only show something, and those that are wrong, leave of the store.
use work.Prelude.{ℕ, ◌≡◌, refl, Bool, true, false, List, Option, none, some}
use work.Text.{Text}
use work.Text.Decimal.{parse_int}
use work.Job.{Blob}
use work.Redis.{Redis, Store, Key, ZSet}
use work.Conn.{World, Result, ok, err, malformed, M}
use work.Conn.Reads.{Kept, Keeps, Keeps-fail}
use work.Client.Listings.{counted}
use work.Client.Listings
use work.Client.ReadOnly.{
  page-Keeps, queues-Keeps, worker_pool_heartbeats-Keeps, worker_observations-Keeps,
}
use work.Webui.{
  Body, error_500, render, render_or_panic, paged, parse_page, Request, get_ping, get_queues,
  get_worker_pools, get_busy_workers, get_retry_jobs, get_scheduled_jobs, get_dead_jobs,
  post_delete_dead_job, post_retry_dead_job, post_delete_all_dead_jobs, post_retry_all_dead_jobs,
  handle, retry_jobs, scheduled_jobs, dead_jobs, delete_dead, retry_dead, show_queues, worker_pools,
  busy_workers,
}

paged-Keeps :
    {A : Type 0} (o : Option ℕ) (f : ℕ → M A) → ((n : ℕ) → Keeps (f n)) → Keeps (paged o f)
paged-Keeps none f h = Keeps-fail malformed
paged-Keeps (some n) f h = h n

render-store :
    {A : Type 0} (f : A → Body) (s : Store) (r : Result A × World)
    → Kept s r
    → (render f r).1.store ≡ s
render-store f s (ok a, w) h = h.stays
render-store f s (err e, w) h = h.stays

render_or_panic-store :
    {A : Type 0} (f : A → Body) (s : Store) (r : Result (Option A) × World)
    → Kept s r
    → (render_or_panic f r).1.store ≡ s
render_or_panic-store f s (ok none, w) h = h.stays
render_or_panic-store f s (ok (some a), w) h = h.stays
render_or_panic-store f s (err e, w) h = h.stays

abbrev pub is_none : {A : Type 0} → Option A → Bool
is_none none = true
is_none (some a) = false

-- The requests that show something.
unfoldable pub is_get : Request → Bool
is_get (post_delete_dead_job died_at id) = false
is_get (post_retry_dead_job died_at id) = false
is_get post_delete_all_dead_jobs = false
is_get post_retry_all_dead_jobs = false
is_get _ = true

-- Whatever becomes of its exchanges with Redis, a GET request leaves the store as it is.
pub handle-get :
    (redis : Redis) (ns : Text) (entries : Key → Store → ZSet)
    (last_entry : Key → Store → Option Blob) (smembers : Key → Store → List Text) (asked now : ℕ)
    (r : Request) (w : World)
    → is_get r ≡ true
    → (handle redis ns entries last_entry smembers asked now r w).1.store ≡ w.store
unfolding handle is_get show_queues worker_pools busy_workers retry_jobs scheduled_jobs dead_jobs
    Listings.scheduled_jobs Listings.retry_jobs Listings.dead_jobs
handle-get redis ns entries last_entry smembers asked now get_ping w h = refl
handle-get redis ns entries last_entry smembers asked now get_queues w h =
    render_or_panic-store _ _ _ (queues-Keeps redis ns smembers last_entry asked w)
handle-get redis ns entries last_entry smembers asked now get_worker_pools w h =
    render-store _ _ _ (worker_pool_heartbeats-Keeps redis ns smembers w)
handle-get redis ns entries last_entry smembers asked now get_busy_workers w h =
    render-store _ _ _ (worker_observations-Keeps redis ns smembers w)
handle-get redis ns entries last_entry smembers asked now (get_retry_jobs page) w h =
    render-store _ _ _ (paged-Keeps (parse_page page) _ (page-Keeps redis entries _ _) w)
handle-get redis ns entries last_entry smembers asked now (get_scheduled_jobs page) w h =
    render-store _ _ _ (paged-Keeps (parse_page page) _ (page-Keeps redis entries _ _) w)
handle-get redis ns entries last_entry smembers asked now (get_dead_jobs page) w h =
    render-store _ _ _ (paged-Keeps (parse_page page) _ (page-Keeps redis entries _ _) w)
handle-get redis ns entries last_entry smembers asked now (post_delete_dead_job at id) w h =
    absurd (cc)
handle-get redis ns entries last_entry smembers asked now (post_retry_dead_job at id) w h =
    absurd (cc)
handle-get redis ns entries last_entry smembers asked now post_delete_all_dead_jobs w h =
    absurd (cc)
handle-get redis ns entries last_entry smembers asked now post_retry_all_dead_jobs w h = absurd (cc)

-- The page or the time of death that is no number.
unfoldable pub is_malformed : Request → Bool
is_malformed (get_retry_jobs page) = is_none (parse_page page)
is_malformed (get_scheduled_jobs page) = is_none (parse_page page)
is_malformed (get_dead_jobs page) = is_none (parse_page page)
is_malformed (post_delete_dead_job died_at id) = is_none (parse_int died_at)
is_malformed (post_retry_dead_job died_at id) = is_none (parse_int died_at)
is_malformed _ = false

none_by : {A : Type 0} (o : Option A) → is_none o ≡ true → o ≡ none
none_by none h = refl
none_by (some a) h = absurd (cc)

-- A request whose page or time of death is no number is answered by an error, with no exchange with
-- Redis.
handle-malformed :
    (redis : Redis) (ns : Text) (entries : Key → Store → ZSet)
    (last_entry : Key → Store → Option Blob) (smembers : Key → Store → List Text) (asked now : ℕ)
    (r : Request) (w : World)
    → is_malformed r ≡ true
    → handle redis ns entries last_entry smembers asked now r w ≡ (some (error_500 malformed), w)
unfolding handle is_malformed retry_jobs scheduled_jobs dead_jobs delete_dead retry_dead
handle-malformed redis ns entries last_entry smembers asked now (get_retry_jobs page) w h =
    rw (none_by (parse_page page) h) refl
handle-malformed redis ns entries last_entry smembers asked now (get_scheduled_jobs page) w h =
    rw (none_by (parse_page page) h) refl
handle-malformed redis ns entries last_entry smembers asked now (get_dead_jobs page) w h =
    rw (none_by (parse_page page) h) refl
handle-malformed redis ns entries last_entry smembers asked now (post_delete_dead_job at id) w h =
    rw (none_by (parse_int at) h) refl
handle-malformed redis ns entries last_entry smembers asked now (post_retry_dead_job at id) w h =
    rw (none_by (parse_int at) h) refl
handle-malformed redis ns entries last_entry smembers asked now get_ping w h = absurd (cc)
handle-malformed redis ns entries last_entry smembers asked now get_queues w h = absurd (cc)
handle-malformed redis ns entries last_entry smembers asked now get_worker_pools w h = absurd (cc)
handle-malformed redis ns entries last_entry smembers asked now get_busy_workers w h = absurd (cc)
handle-malformed redis ns entries last_entry smembers asked now post_delete_all_dead_jobs w h =
    absurd (cc)
handle-malformed redis ns entries last_entry smembers asked now post_retry_all_dead_jobs w h =
    absurd (cc)

-- ===== src/Client/ReadOnly.antt =====
-- The calls of the client that only show something leave the store as it is.
use work.Prelude.{ℕ, List, Option, none, some}
use work.Text.{Text}
use work.Job.{Blob}
use work.Redis.{Redis, Store, Key, ZSet}
use work.Conn.{malformed, ◌>>=◌}
use work.Conn.Reads.{Keeps, Keeps-call, Keeps-pure, Keeps-fail, Keeps-bind}
use work.Client.{get_zset_page, with_count, JobScore, parse_all}
use work.Client.Listings.{counted}
use work.Client.Pools.{or_malformed, worker_pool_heartbeats, worker_observations}
use work.Client.Queues.{queues}

or_malformed-Keeps : {A : Type 0} (o : Option A) → Keeps (or_malformed o)
or_malformed-Keeps none = Keeps-fail malformed
or_malformed-Keeps (some a) = Keeps-pure a

with_count-Keeps :
    (redis : Redis) (entries : Key → Store → ZSet) (key : Key) (o : Option (List JobScore))
    → Keeps (with_count redis entries key o)
unfolding with_count
with_count-Keeps redis entries key none = Keeps-fail malformed
with_count-Keeps redis entries key (some js) = Keeps-bind _ _ (Keeps-call _) (λ n. Keeps-pure _)

get_zset_page-Keeps :
    (redis : Redis) (entries : Key → Store → ZSet) (key : Key) (page : ℕ)
    → Keeps (get_zset_page redis entries key page)
unfolding get_zset_page
get_zset_page-Keeps redis entries key page =
    Keeps-bind _ _ (Keeps-call _) (λ z. with_count-Keeps redis entries key (parse_all z))

pub page-Keeps :
    {J : Type 0} (redis : Redis) (entries : Key → Store → ZSet) (key : Key) (f : JobScore → J)
    (page : ℕ)
    → Keeps (get_zset_page redis entries key page >>= counted f)
page-Keeps redis entries key f page =
    Keeps-bind _ _ (get_zset_page-Keeps redis entries key page) (λ r. Keeps-pure _)

module _ (redis : Redis) (ns : Text) (smembers : Key → Store → List Text) where
  pub queues-Keeps :
      (last_entry : Key → Store → Option Blob) (now : ℕ)
      → Keeps (queues redis ns last_entry smembers now)
  unfolding queues
  queues-Keeps last_entry now =
      Keeps-bind _ _
        (Keeps-bind _ _ (Keeps-bind _ _ (Keeps-call _) (λ names. Keeps-call _))
          (λ qs. Keeps-call _))
        (λ xs. Keeps-pure _)

  pub worker_pool_heartbeats-Keeps : Keeps (worker_pool_heartbeats redis ns smembers)
  unfolding worker_pool_heartbeats
  worker_pool_heartbeats-Keeps =
      Keeps-bind _ _ (Keeps-bind _ _ (Keeps-call _) (λ ids. Keeps-call _))
        (λ hashes. or_malformed-Keeps _)

  pub worker_observations-Keeps : Keeps (worker_observations redis ns smembers)
  unfolding worker_observations
  worker_observations-Keeps =
      Keeps-bind _ _ (Keeps-bind _ _ worker_pool_heartbeats-Keeps (λ hbs. Keeps-call _))
        (λ hashes. or_malformed-Keeps _)

-- ===== src/Client.antt =====
-- client.go: the operations of the web UI on the sorted sets. Scores are natural numbers, so that no
-- job has a negative one. What RetryDeadJob and RetryAllDeadJobs do with the names of the known jobs
-- is here, and Retries has the whole of them.
pub mod Pages
pub mod Pools
pub mod Queues
pub mod Listings
pub mod Retries
pub mod ReadOnly
pub mod Unscheduled
use work.Prelude.{
  ℕ, zero, suc, ◌*◌, ◌-◌, ltb, ◌==◌, Bool, true, false, List, [], ◌∷◌, map, Option, none, some,
  take, drop, length, if◌then◌else◌,
}
use work.Prelude.Int.{ℤ, pos, negsuc}
use work.Text.{Text}
use work.Job.{Args, Blob, Job, new_job}
use work.Keys
use work.Redis.{Redis, Store, Key, ZSet}
use work.Conn.{
  World, malformed, script_failed, not_deleted, not_retried, M, ◌>>=◌, pure, fail, call, command,
}
use work.Scripts.Delete.{delete_single}
use work.Scripts.Retry.{requeue_single_dead, requeue_all_dead}

-- A job of a sorted set, with its score.
pub record JobScore : Type 0 where
  pub score : ℕ
  pub job : Job

-- Every member parsed, or an error.
unfoldable pub parse_all : ZSet → Option (List JobScore)
parse_all [] = some []
parse_all ((s, b) ∷ z) = elim (new_job b [] []) [
  | none ↦ none
  | some j ↦ elim (parse_all z) [
    | none ↦ none
    | some js ↦ some (record { score = s; job = j } ∷ js)
  ]
]

abbrev pub page_size : ℕ
page_size = 20

unfoldable pub page_number : ℕ → ℕ
page_number page = if page == 0 then 1 else page

-- ZRANGEBYSCORE with LIMIT (page-1)*20, 20, over the whole set.
unfoldable pub page_of : ℕ → ZSet → ZSet
unfolding page_number
page_of page z = take page_size (drop ((page_number page - 1) * page_size) z)

module _ (redis : Redis) where
  open redis use {del}

  -- The page with the length of the set, which is read after it.
  unfoldable pub with_count :
      (Key → Store → ZSet) → Key → Option (List JobScore) → M (List JobScore × ℕ)
  with_count entries key none = fail malformed
  with_count entries key (some js) = call (λ s. (length (entries key s), s)) >>= (λ n. pure (js, n))

  -- ZRANGEBYSCORE -inf +inf is read off the store, as ZCARD is; `entries` is that command.
  unfoldable pub get_zset_page : (Key → Store → ZSet) → Key → ℕ → M (List JobScore × ℕ)
  unfolding parse_all page_of with_count
  get_zset_page entries key page =
      call (λ s. (page_of page (entries key s), s)) >>= (λ z. with_count entries key (parse_all z))

  unfoldable pub delete_scored : Key → ℤ → Text → Store → Option (ℕ × Option Blob) × Store
  delete_scored key (pos score) id s = delete_single redis key score id s
  delete_scored key (negsuc n) id s = (some (0, none), s)

  -- Whether a job was deleted, and the bytes of the last one.
  unfoldable pub delete_zset_job : Key → ℤ → Text → M (Bool × Option Blob)
  unfolding delete_scored
  delete_zset_job key score id = call (delete_scored key score id) >>= (λ r. elim r [
    | none ↦ fail script_failed
    | some (count, bytes) ↦ pure (ltb 0 count, bytes)
  ])

  unfoldable pub deleted : Bool → M (Unit {0})
  deleted true = pure tt
  deleted false = fail not_deleted

  unfoldable pub delete_dead_job : Text → ℤ → Text → M (Unit {0})
  unfolding delete_zset_job deleted
  delete_dead_job ns died_at id = delete_zset_job (Keys.dead ns) died_at id >>= (λ r. deleted r.0)

  unfoldable pub delete_retry_job : Text → ℤ → Text → M (Unit {0})
  unfolding delete_zset_job deleted
  delete_retry_job ns retry_at id =
      delete_zset_job (Keys.retry ns) retry_at id >>= (λ r. deleted r.0)

  -- The unique key of a deleted job goes too: the key that its arguments give.
  unfoldable pub delete_key_of : (Args → Text) → Text → Option Job → M (Unit {0})
  delete_key_of encode ns none = fail malformed
  delete_key_of encode ns (some j) =
      if j.unique then command (del (Keys.unique_job encode ns j.name j.args)) else pure tt

  unfoldable pub delete_unique_key : (Args → Text) → Text → Option Blob → M (Unit {0})
  unfolding delete_key_of
  delete_unique_key encode ns none = pure tt
  delete_unique_key encode ns (some b) = delete_key_of encode ns (new_job b [] [])

  unfoldable pub delete_scheduled_job : (Args → Text) → Text → ℤ → Text → M (Unit {0})
  unfolding delete_zset_job delete_unique_key deleted
  delete_scheduled_job encode ns scheduled_for id =
      delete_zset_job (Keys.scheduled ns) scheduled_for id
      >>= (λ r. delete_unique_key encode ns r.1 >>= (λ _. deleted r.0))

  unfoldable pub delete_all_dead_jobs : Text → M (Unit {0})
  delete_all_dead_jobs ns = command (del (Keys.dead ns))

  unfoldable pub requeue_scored : Text → List Text → ℕ → ℤ → Text → Store → Option ℕ × Store
  requeue_scored ns names now (pos died_at) id s =
      requeue_single_dead redis (Keys.dead ns) (map (Keys.jobs ns) names) (Keys.jobs_prefix ns) now
        died_at id s
  requeue_scored ns names now (negsuc n) id s = (some 0, s)

  unfoldable pub retry_dead_named : Text → List Text → ℕ → ℤ → Text → M (Unit {0})
  unfolding requeue_scored
  retry_dead_named ns names now died_at id = call (requeue_scored ns names now died_at id) >>= (λ r.
      elim r [
        | none ↦ fail script_failed
        | some count ↦ if count == 0 then fail not_retried else pure tt
      ])

  -- The loop of RetryAllDeadJobs, with the rounds left.
  unfoldable pub retry_rounds : ℕ → Text → List Text → ℕ → M (Unit {0})
  retry_rounds zero ns names now = pure tt
  retry_rounds (suc rounds) ns names now =
      let again = retry_rounds rounds ns names now in
      call (
        requeue_all_dead redis (Keys.dead ns) (map (Keys.jobs ns) names) (Keys.jobs_prefix ns) now
          1000)
      >>= (λ r. elim r [
        | none ↦ fail script_failed
        | some count ↦ elim (count == 0) [ true ↦ pure tt | false ↦ again ]
      ])

  unfoldable pub retry_all_named : Text → List Text → ℕ → M (Unit {0})
  unfolding retry_rounds
  retry_all_named ns names now = retry_rounds 1000 ns names now

-- ===== src/Tests/Requests.antt =====
-- Examples of the web UI's requests.
use work.Prelude.{◌≡◌, refl, arith, inl, inr, List, [], ◌∷◌, Option, none, some}
use work.Text.{Text, text}
use work.Text.Decimal.{format}
use work.Text.Names.{sort_strings}
use work.Job.{Blob, serialize}
use work.Keys
use work.Redis.{Store, Key, ZSet, z_range}
use work.Conn.{World, request_lost}
use work.Scripts.Requeue.{has_key}
use work.Scripts.Retry.Fresh.{Revived}
use work.Client.Queues.Latency.{Broken}
use work.Webui.{json, status_ok, handle, get_dead_jobs, post_retry_dead_job}
use work.Webui.Requests.{handle-get, is_get}
use work.Webui.Retries.{retry_dead-Revived}
use work.Tests.{redis, redis-IsDocumented, mail, with_zset, world_on}

abbrev entries : Key → Store → ZSet
entries k s = s.zsets k

abbrev members : Key → Store → List Text
members k s = text "a" ∷ text "m" ∷ []

abbrev no_entry : Key → Store → Option Blob
no_entry k s = none

-- A dead job, which died at 5.
abbrev one_dead : World
one_dead = world_on (with_zset (Keys.dead (text "n")) ((5, serialize mail) ∷ []))

abbrev cut : World
cut = record one_dead { faults = request_lost ∷ [] }

handle-get_example :
    (handle redis (text "n") entries no_entry members 8 9 (get_dead_jobs (text "1")) cut).1.store
    ≡ cut.store
unfolding is_get
handle-get_example =
    handle-get redis (text "n") entries no_entry members 8 9 (get_dead_jobs (text "1")) cut refl

sound : ¬ Broken redis (text "n") no_entry one_dead.store (sort_strings (text "a" ∷ text "m" ∷ []))
unfolding sort_strings
sound (inl (b, jobs, last, e)) = absurd (cc)
sound (inr (inl (b, jobs, last, e))) = absurd (cc)
sound (inr (inr h)) = h

retry_dead-Revived_example :
    let r =
      handle redis
        (text "n")
        entries
        no_entry
        members
        8
        9
        (post_retry_dead_job (format 5) mail.id)
        one_dead in
    (r.0 ≡ some (json status_ok))
    × Revived redis
        (Keys.dead (text "n"))
        (Keys.jobs (text "n") mail.name)
        9
        mail
        one_dead.store
        r.1.store
unfolding z_range has_key
retry_dead-Revived_example =
    retry_dead-Revived redis redis-IsDocumented (text "n") entries no_entry members 8 9 5 mail
      one_dead refl (omega arith) (ground arith) (ground arith) (ground arith) sound

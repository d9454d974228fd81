-- ===== src/Tests/Periodics.antt =====
-- Examples of the periodic enqueuer.
use work.Prelude.{◌+◌}
use work.Text.{text}
use work.Keys
use work.Conn.{World}
use work.Periodic.{PeriodicJob}
use work.Tests.{empty_store, world_on}

abbrev each_minute : PeriodicJob
each_minute = record { job_name = text "m"; spec = text "@every 1m"; schedule = λ t. t + 60 }

abbrev start : World
start = world_on empty_store

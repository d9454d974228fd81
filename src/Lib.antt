-- ===== src/Lib.antt =====
-- A model of gojek/work, background jobs for Go on Redis, and theorems about it.
--
-- The program: an Enqueuer (enqueue.go) puts jobs (job.go) on lists of Redis, one list per job type,
-- or into the sorted set of scheduled jobs. The workers of a pool (worker.go) each take a job with a
-- Lua script (redis.go) whose keys are ordered by the priority sampler (priority_sampler.go), keep
-- it on an in-progress list while its handler runs, and then remove it, retry it later, or bury it
-- in the set of dead jobs. Requeuers (requeuer.go) move the jobs that are due, scheduled or to be
-- retried, to their lists. The reaper (dead_pool_reaper.go) gives back the jobs that a dead pool had
-- in progress. The client (client.go) reads and edits the sorted sets for the web UI.
--
-- The files:
--   Prelude        numbers, lists, Boolean tests and the lemmas that the components share
--   Text, Job      byte strings; Job, newJob, serialize, setArg, failed and the readers of arguments
--                  of job.go; Job/Arguments/Errors has the texts of their errors
--                  Text has also the standard library's functions on decimal numbers and lists of names
--   Keys           the redisKey functions of redis.go; Apart says when keys differ
--   Identifiers    makeIdentifier of identifier.go, the clock of time.go with its mock, and the line that
--                  log.go prints; elsewhere ids and times are arguments
--   Redis          the store and the commands. Redis is not part of the repository: its commands are
--                  a parameter, the record Redis, and a theorem that needs their meaning has the
--                  hypothesis IsDocumented, that they do what Redis documents. Ranges is about ranges of
--                  scores in a sorted set
--   Scripts        the Lua scripts of redis.go, one file each, as functions on the store
--   Sampler        prioritySampler: its sums are 64-bit and wrap, the random numbers are a parameter
--   Conn           a connection: state passing over the store, with faults before and after a command
--                  as a list that is used up, so that every error path of the callers is reached.
--                  Reads and Returns are what holds of the calls that only read, with the Keeps
--                  lemmas on what leaves the store alone, and of those that return whenever
--                  Redis answers
--   Enqueuer       Enqueue, EnqueueIn, EnqueueAt, EnqueueUniqueByKey, EnqueueUniqueAtByKey and
--                  what they call; WAIT's acknowledgements come from a list. Bulk is BulkEnqueue,
--                  whose replies say for each job whether Redis had its script. Unique has
--                  EnqueueUnique, EnqueueUniqueAt, EnqueueUniqueIn and EnqueueUniqueInByKey
--   Heartbeat      the hash that a pool writes as it lives (heartbeater.go)
--   Worker         fetchJob, processJob, jobFate, getAndDeleteUniqueJob, removeJobFromInProgress; Loop
--                  has newWorker's sleep backoffs and loop, a turn for each message or tick; Handshake
--                  is a step relation for the channels between the loop and callers of stop and
--                  drain; Setup is newWorker, Observed what processJob tells the observer. InOrder and
--                  Uniqueness follow jobs from the Enqueuer through a worker
--   Periodic       the periodic enqueuer, over schedules as parameters
--   Requeuer       newRequeuer, process and the loop that calls it. Due and Arrival follow jobs from
--                  EnqueueAt, or from a failed run, through the sorted set to their queue
--   Reaper         requeueInProgressJobs and cleanStaleLockInfo; Pools has findDeadPools and reap,
--                  Timer the turns of the reaper's loop, at the ticks of its timer
--   Client         pages, deletions and retries; Pools has WorkerPoolHeartbeats and
--                  WorkerObservations, Queues has Queues, Listings the three listings, Retries
--                  RetryDeadJob and RetryAllDeadJobs with the names that they read from Queues.
--                  ReadOnly is about the calls that only read, Unscheduled about the deletion of
--                  a scheduled job
--   Webui          the handlers of webui/webui.go, as calls of the client, and the routes to them of
--                  webui/handler.go; Requests and Retries are about whole requests
--   Observer       the observations and the turns of the observer's loop (observer.go), and the hash that
--                  it writes; Status is that hash, Shown what the client reads from it
--   Pool           what a pool accepts as handlers, middleware and options (worker_pool.go), the job
--                  types it registers, and what it writes when it starts; Lifecycle has the
--                  registrations on a pool, Start and Stop, Requeuers what it starts beside the
--                  workers, Messages the text of the panic over a function it refuses
--   Run            runJob of run.go: the chain of middleware around a handler, which are parameters.
--                  The depth of its nested calls is the number of middleware: each call takes one.
--                  Worker takes the outcome of a run as a parameter
--   Tests          examples: each applies a theorem at a concrete input
--
-- State and bounds: a script runs atomically, as Redis runs it, so it is a function of the store. The
-- three loops that Go leaves open run on fuel: requeue_loop is given more fuel than there are jobs in
-- progress, process_all more than there are entries in the set: each round moves one of them.
-- enqueue_occurrences is given more fuel than the horizon has seconds: each occurrence is later than
-- the one before it. retry_rounds has the source's own bound of 1000. Times are natural numbers, in
-- seconds; a negative score of a retry, after an overflow, is kept as 0.
--
-- Not modelled: timers, channels and goroutines (the bodies of the loops are modelled, and the channels
-- of the worker's loop as steps in any order), reflection, the matching of paths by the web UI's mux,
-- its assets and server, the command-line tools and the benchmarks, and where errors are logged (an
-- error that is only logged is dropped). JSON is not modelled as text: a stored blob is the object that
-- the text stands for, or other bytes. A number in it has no Go type: it is read as a float64. The text
-- that encoding/json makes of a map and the table that cjson makes of arguments are parameters.
pub mod Prelude
pub mod Text
pub mod Job
pub mod Keys
pub mod Identifiers
pub mod Redis
pub mod Scripts
pub mod Sampler
pub mod Conn
pub mod Enqueuer
pub mod Heartbeat
pub mod Reaper
pub mod Periodic
pub mod Worker
pub mod Requeuer
pub mod Client
pub mod Webui
pub mod Observer
pub mod Pool
pub mod Run
pub mod Tests

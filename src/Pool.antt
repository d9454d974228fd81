-- ===== src/Pool.antt =====
-- worker_pool.go: the handlers and options that a pool accepts, and what it writes to Redis when it
-- starts. What package reflect tells of a function's type is a record.
pub mod Handlers
pub mod Weights
pub mod Lifecycle
pub mod Requeuers
pub mod Messages
use work.Prelude.{
  ℕ, ltb, ◌==◌, Bool, true, false, not, ◌&&◌, List, [], ◌∷◌, Option, none, some, ite, if◌then◌else◌,
}
use work.Prelude.Int.{pos}
use work.Text.{Text, Text-discrete}
use work.Keys
use work.Redis.{Redis, Store}
use work.Conn.{Result, World, M, command}
use work.Worker.{JobType}

-- reflect.Type: error, *Job, NextMiddlewareFunc, a pointer to a named type, or another one.
pub data Ty : Type 0 where
  error_type job_pointer next_type : Ty
  pointer_to other : Text → Ty

abbrev same : Ty → Ty → Bool
same error_type error_type = true
same job_pointer job_pointer = true
same next_type next_type = true
same (pointer_to s) (pointer_to t) = ite (Text-discrete s t) true false
same (other s) (other t) = ite (Text-discrete s t) true false
same _ _ = false

pub record FnType : Type 0 where
  pub is_func : Bool
  pub ins : List Ty
  pub outs : List Ty

unfoldable pub returns_error : List Ty → Bool
returns_error (t ∷ []) = same t error_type
returns_error _ = false

unfoldable pub takes_job : Text → List Ty → Bool
takes_job ctx (a ∷ []) = same a job_pointer
takes_job ctx (a ∷ b ∷ []) = same a (pointer_to ctx) && same b job_pointer
takes_job ctx _ = false

unfoldable pub takes_job_and_next : Text → List Ty → Bool
takes_job_and_next ctx (a ∷ b ∷ []) = same a job_pointer && same b next_type
takes_job_and_next ctx (a ∷ b ∷ c ∷ []) =
    same a (pointer_to ctx) && (same b job_pointer && same c next_type)
takes_job_and_next ctx _ = false

unfoldable pub is_valid_handler_type : Text → FnType → Bool
unfolding returns_error takes_job
is_valid_handler_type ctx f = f.is_func && (returns_error f.outs && takes_job ctx f.ins)

unfoldable pub is_valid_middleware_type : Text → FnType → Bool
unfolding returns_error takes_job_and_next
is_valid_middleware_type ctx f = f.is_func && (returns_error f.outs && takes_job_and_next ctx f.ins)

-- The options are those of the job type; `none` is the panic.
unfoldable pub apply_defaults_and_validate : JobType → Option JobType
apply_defaults_and_validate jt =
    let priority = if jt.priority == 0 then 1 else jt.priority in
    let max_fails = if jt.max_fails == 0 then 4 else jt.max_fails in
    if ltb 100000 priority
    then none
    else some (record jt { priority = priority; max_fails = max_fails })

-- wp.jobTypes[name] = jt
unfoldable pub put_type : JobType → List JobType → List JobType
put_type jt [] = jt ∷ []
put_type jt (k ∷ jts) =
    let rest = put_type jt jts in ite (Text-discrete k.name jt.name) (jt ∷ jts) (k ∷ rest)

-- JobWithOptions; `none` is the panic over the options or the handler.
unfoldable pub job_with_options : Text → JobType → FnType → List JobType → Option (List JobType)
unfolding apply_defaults_and_validate is_valid_handler_type put_type
job_with_options ctx opts fn jts = elim (apply_defaults_and_validate opts) [
  | none ↦ none
  | some jt ↦ if is_valid_handler_type ctx fn then some (put_type jt jts) else none
]

-- An error is only logged.
abbrev and_then : Result (Unit {0}) × World → (World → World) → World
and_then r k = k r.1

module _ (redis : Redis) (ns : Text) where
  open redis use {sadd, set_int}

  -- One SADD with all the names.
  unfoldable pub add_names : List JobType → Store → Store
  add_names [] s = s
  add_names (jt ∷ jts) s = add_names jts (sadd (Keys.known_jobs ns) jt.name s)

  unfoldable pub write_known_jobs : List JobType → World → World
  unfolding add_names
  write_known_jobs [] w = w
  write_known_jobs (jt ∷ jts) w = and_then (command (add_names (jt ∷ jts)) w) (λ v. v)

  unfoldable pub write_concurrency_controls : List JobType → World → World
  write_concurrency_controls [] w = w
  write_concurrency_controls (jt ∷ jts) w =
      and_then (command (set_int (Keys.jobs_concurrency ns jt.name) (pos jt.max_concurrency)) w)
        (write_concurrency_controls jts)

-- ===== src/Tests/Pools.antt =====
-- Examples of the pool's registrations.
use work.Prelude.{arith, true, false, [], ◌∷◌, none}
use work.Text.{text}
use work.Sampler.{empty}
use work.Sampler.Rounds.{IsValid}
use work.Worker.{JobType, sampler_of}
use work.Pool.{
  FnType, error_type, job_pointer, is_valid_handler_type, apply_defaults_and_validate, put_type,
  job_with_options,
}
use work.Pool.Weights.{registered-IsValid}

abbrev handler : FnType
handler = record { is_func = true; ins = job_pointer ∷ []; outs = error_type ∷ [] }

abbrev options : JobType
options = record {
  name = text "m";
  priority = 0;
  max_fails = 0;
  skip_dead = false;
  max_concurrency = 0;
  backoff = none;
}

abbrev type_m : JobType
type_m = record options { priority = 1; max_fails = 4 }

registered-IsValid_example : IsValid (sampler_of (text "n") (text "w") (type_m ∷ []) empty)
unfolding job_with_options put_type apply_defaults_and_validate is_valid_handler_type
registered-IsValid_example =
    registered-IsValid (text "c") (text "n") (text "w") ((options, handler) ∷ []) (type_m ∷ [])
      (ground arith) (omega arith)

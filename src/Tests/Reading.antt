-- ===== src/Tests/Reading.antt =====
-- Examples of reading the arguments of a job.
use work.Prelude.{ℕ, false, [], ◌∷◌, Option, none, some}
use work.Prelude.Int.{ℤ, pos}
use work.Text.{Text-discrete, text}
use work.Job.{Any, float, Job}
use work.Job.Arguments.{
  t_string, t_int64, t_float64, t_bool, ArgError, arg_of, arg_string, arg_int64, arg_float64,
  arg_bool,
}
use work.Job.Arguments.Readers.{StringOf, Int64Of, Float64Of, BoolOf, ReadsRight, args_read}
use work.Tests.{mail}

-- Five, as it is read from JSON.
abbrev five : Any
five = float (pos 5) 0

abbrev counting : Job
counting = record mail { args = some ((text "n", five) ∷ []) }

abbrev exact : ℤ → ℤ × ℕ
exact i = (i, 0)

abbrev no_error : Option ArgError
no_error = none

args_read_example :
    ReadsRight StringOf t_string
      (text "n")
      []
      (some five)
      no_error
      (arg_string (text "n") counting no_error)
    × ReadsRight Int64Of t_int64
        (text "n")
        (pos 0)
        (some five)
        no_error
        (arg_int64 (text "n") counting no_error)
    × ReadsRight
        (Float64Of exact)
        t_float64
        (text "n")
        (pos 0, 0)
        (some five)
        no_error
        (arg_float64 exact (text "n") counting no_error)
    × ReadsRight BoolOf t_bool
        (text "n")
        false
        (some five)
        no_error
        (arg_bool (text "n") counting no_error)
unfolding arg_of Text-discrete
args_read_example = args_read exact (text "n") counting no_error

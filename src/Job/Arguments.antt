-- ===== src/Job/Arguments.antt =====
-- ArgString, ArgInt64, ArgFloat64, ArgBool and ArgError of job.go: reading the arguments of a job.
pub mod Readers
pub mod Errors
use work.Prelude.{
  ℕ, ◌+◌, ◌-◌, ◌*◌, ◌^◌, ◌%◌, ◌/◌, leb, ◌==◌, Bool, true, false, ◌&&◌, List, [], ◌∷◌, Option, none,
  some, ite, if_pos, if_neg, if◌then◌else◌, ◌≡◌, ◌≢◌, refl, arith, ◌↔◌,
}
use work.Prelude.Int.{ℤ, pos, negsuc}
use work.Text.{Text, Text-discrete}
use work.Job.{Any, null, bool, string, int, uint, float, composite, Args, Job, put_arg, set_arg}

pub data ArgType : Type 0 where
  t_string t_int64 t_float64 t_bool : ArgType

-- The job's argError.
pub data ArgError : Type 0 where
  missing_key : ArgType → Text → ArgError
  typecast : ArgType → Text → Any → ArgError

unfoldable pub find_arg : Text → Args → Option Any
find_arg key [] = none
find_arg key ((k, v) ∷ args) =
    let rest = find_arg key args in ite (Text-discrete k key) (some v) rest

-- j.Args[key]; a nil map has no keys.
unfoldable pub arg_of : Text → Option Args → Option Any
unfolding find_arg
arg_of key none = none
arg_of key (some args) = find_arg key args

abbrev max_int64 : ℕ
max_int64 = 9223372036854775807

abbrev max_safe : ℕ
max_safe = 9007199254740892

-- The integer m / 2 ^ k, if it is one within the bound.
unfoldable pub int_of_float : ℤ → ℕ → Option ℤ
int_of_float (pos m) k =
    if (m % 2 ^ k == 0) && leb (m / 2 ^ k) max_safe then some (pos (m / 2 ^ k)) else none
int_of_float (negsuc m) k =
    if ((m + 1) % 2 ^ k == 0) && leb ((m + 1) / 2 ^ k) max_safe
    then some (negsuc ((m + 1) / 2 ^ k - 1))
    else none

-- What a reader makes of a value of the right type.
unfoldable pub as_string : Any → Option Text
as_string (string t) = some t
as_string _ = none

unfoldable pub as_bool : Any → Option Bool
as_bool (bool b) = some b
as_bool _ = none

unfoldable pub as_int64 : Any → Option ℤ
unfolding int_of_float
as_int64 (int i) = some i
as_int64 (uint n) = if leb n max_int64 then some (pos n) else none
as_int64 (float m k) = int_of_float m k
as_int64 _ = none

-- `round` is the conversion of an integer to float64.
unfoldable pub as_float64 : (ℤ → ℤ × ℕ) → Any → Option (ℤ × ℕ)
as_float64 round (int i) = some (round i)
as_float64 round (uint n) = some (round (pos n))
as_float64 round (float m k) = some (m, k)
as_float64 round _ = none

-- A reader: the value, or its default with the error set. An error from before stays if all is well.
unfoldable pub read_value :
    {A : Type 0} → ArgType → Text → Any → A → Option A → Option ArgError → A × Option ArgError
read_value t key v default none e = (default, some (typecast t key v))
read_value t key v default (some a) e = (a, e)

unfoldable pub read :
    {A : Type 0}
    → ArgType
    → (Any → Option A)
    → A
    → Text
    → Option Any
    → Option ArgError
    → A × Option ArgError
unfolding read_value
read t typed default key none e = (default, some (missing_key t key))
read t typed default key (some v) e = read_value t key v default (typed v) e

unfoldable pub arg_string : Text → Job → Option ArgError → Text × Option ArgError
unfolding arg_of as_string read
arg_string key j e = read t_string as_string [] key (arg_of key j.args) e

unfoldable pub arg_int64 : Text → Job → Option ArgError → ℤ × Option ArgError
unfolding arg_of as_int64 read
arg_int64 key j e = read t_int64 as_int64 (pos 0) key (arg_of key j.args) e

unfoldable pub arg_float64 : (ℤ → ℤ × ℕ) → Text → Job → Option ArgError → (ℤ × ℕ) × Option ArgError
unfolding arg_of as_float64 read
arg_float64 round key j e = read t_float64 (as_float64 round) (pos 0, 0) key (arg_of key j.args) e

unfoldable pub arg_bool : Text → Job → Option ArgError → Bool × Option ArgError
unfolding arg_of as_bool read
arg_bool key j e = read t_bool as_bool false key (arg_of key j.args) e

-- ===== src/Job/Arguments/Errors.antt =====
-- job.go, missingKeyError, typecastError and ArgError: the texts of the errors. The name of a value's
-- type, and the value's own text, are those of packages reflect and fmt.
use work.Prelude.{◌++◌, Option, none, some}
use work.Text.{Text, text}
use work.Job.{Any}
use work.Job.Arguments.{
  ArgType, t_string, t_int64, t_float64, t_bool, ArgError, missing_key, typecast,
}

unfoldable pub json_type : ArgType → Text
json_type t_string = text "string"
json_type t_int64 = text "int64"
json_type t_float64 = text "float64"
json_type t_bool = text "bool"

unfoldable pub missing_key_error : Text → Text → Text
missing_key_error type key =
    text "looking for a "
    ++ (type ++ (text " in job.Arg[" ++ (key ++ text "] but key wasn't found")))

module _ (type_of show : Any → Text) where
  unfoldable pub typecast_error : Text → Text → Any → Text
  typecast_error type key v =
      text "looking for a "
      ++ (type
          ++ (text " in job.Arg["
              ++ (key
                  ++ (text "] but value wasn't right type: "
                      ++ (type_of v ++ (text "(" ++ (show v ++ text ")")))))))

  unfoldable pub arg_error : Option ArgError → Option Text
  unfolding json_type missing_key_error typecast_error
  arg_error none = none
  arg_error (some (missing_key t key)) = some (missing_key_error (json_type t) key)
  arg_error (some (typecast t key v)) = some (typecast_error (json_type t) key v)

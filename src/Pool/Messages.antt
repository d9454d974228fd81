-- ===== src/Pool/Messages.antt =====
-- worker_pool.go, validateHandlerType, validateMiddlewareType and instructiveMessage: the text of the
-- panic over a function that is no handler, or no middleware. The names that package reflect gives to
-- the context's type and to the function's are arguments.
use work.Prelude.{ℕ, ◌==◌, List, [], ◌∷◌, ◌++◌, Option, none, some, replicate, if◌then◌else◌}
use work.Text.{Text, text}
use work.Pool.{FnType, is_valid_handler_type, is_valid_middleware_type}

-- The parts of a name between its dots.
abbrev onto_part : ℕ → List Text → List Text
onto_part c [] = (c ∷ []) ∷ []
onto_part c (x ∷ xs) = (c ∷ x) ∷ xs

unfoldable pub split_dots : Text → List Text
split_dots [] = [] ∷ []
split_dots (c ∷ t) = let rest = split_dots t in if c == b'.' then [] ∷ rest else onto_part c rest

-- The type's name without its package.
unfoldable pub context_name : List Text → Text
context_name [] = []
context_name (x ∷ []) = x
context_name (x ∷ y ∷ xs) = y

abbrev concat : List Text → Text
concat [] = []
concat (t ∷ ts) = t ++ concat ts

abbrev new_line : Text
new_line = b'\n' ∷ []

abbrev rule : Text
rule = replicate 120 b'*' ++ new_line

-- A line of the message, from its parts.
abbrev line : List Text → Text
line ts = text "* " ++ (concat ts ++ new_line)

abbrev blank : Text
blank = text "*" ++ new_line

unfoldable pub instructive_message : Text → Text → Text → Text → Text → Text
unfolding split_dots context_name
instructive_message fn_string adding_type your_type args ctx_string =
    let ctx = context_name (split_dots ctx_string) in
    let adding =
      text "You are adding "
      ∷ adding_type
      ∷ text " to a worker pool with context type '"
      ∷ ctx
      ∷ text "'"
      ∷ [] in
    let yours =
      text "Your " ∷ your_type ∷ text " function can have one of these signatures:" ∷ [] in
    let plain = text "func YourFunctionName(" ∷ args ∷ text ") error" ∷ [] in
    let wanted = text "// If you want your " ∷ your_type ∷ text " to accept a context:" ∷ [] in
    let method =
      text "func (c *" ∷ ctx ∷ text ") YourFunctionName(" ∷ args ∷ text ") error  // or," ∷ [] in
    let function =
      text "func YourFunctionName(c *" ∷ ctx ∷ text ", " ∷ args ∷ text ") error" ∷ [] in
    let actual = text "Unfortunately, your function has this signature: " ∷ fn_string ∷ [] in
    concat (
      new_line
      ∷ rule
      ∷ line adding
      ∷ blank
      ∷ blank
      ∷ line yours
      ∷ blank
      ∷ line (text "// If you don't need context:" ∷ [])
      ∷ line plain
      ∷ blank
      ∷ line wanted
      ∷ line method
      ∷ line function
      ∷ blank
      ∷ line actual
      ∷ blank
      ∷ rule
      ∷ [])

-- The panic's text, if the function is refused; `ctx` is the context's type.
unfoldable pub validate_handler_type : Text → Text → FnType → Option Text
unfolding is_valid_handler_type instructive_message
validate_handler_type ctx fn_string f =
    if is_valid_handler_type ctx f
    then none
    else some (
        instructive_message fn_string (text "a handler") (text "handler") (text "job *work.Job")
          ctx)

unfoldable pub validate_middleware_type : Text → Text → FnType → Option Text
unfolding is_valid_middleware_type instructive_message
validate_middleware_type ctx fn_string f =
    if is_valid_middleware_type ctx f
    then none
    else some (
        instructive_message fn_string (text "middleware") (text "middleware")
          (text "job *work.Job, next NextMiddlewareFunc") ctx)

-- ===== src/Run.antt =====
-- run.go: a job's chain of middleware with the handler at its end. A middleware and a handler are not
-- code of the program: each is any program that acts on a state (the context and the world) and may
-- call `next`. `next` shares one position in the chain, which each call moves on.
pub mod Chain
use work.Prelude.{ℕ, suc, zero, List, [], ◌∷◌, Option, none, some, length}
use work.Text.{Text, text}

-- How a Go function ends: with its error or nil, or by a panic.
pub data Exit : Type 0 where
  returned : Option Text → Exit
  panicked : Text → Exit

-- What a middleware does. After a call of `next` that returned it goes on. A panic in that call unwinds
-- it: only its deferred functions run, which may recover.
pub data Program (S : Type 0) : Type 0 where
  finish : Exit → Program S
  act : (S → S) → Program S → Program S
  call_next : (Option Text → Program S) → (Text → Program S) → Program S

-- What a call in the chain gives: its end, the middleware that is left, and the state.
abbrev pub Called : Type 0 → Type 0
Called S = Exit × (List (Program S) × S)

abbrev pub on_end : {A : Type 0} → (Option Text → A) → (Text → A) → Exit → A
on_end go_on deferred (returned e) = go_on e
on_end go_on deferred (panicked m) = deferred m

unfoldable pub run_program :
    {S : Type 0} → (List (Program S) → S → Called S) → Program S → List (Program S) → S → Called S
run_program next (finish e) ms s = (e, (ms, s))
run_program next (act f p) ms s = run_program next p ms (f s)
run_program next (call_next go_on deferred) ms s =
    let r = next ms s in
    on_end (λ e. run_program next (go_on e) r.1.0 r.1.1)
      (λ m. run_program next (deferred m) r.1.0 r.1.1) r.0

-- `next`, with the middleware that is left; calls nest at most `depth` deep.
unfoldable pub next : {S : Type 0} → (S → Exit × S) → ℕ → List (Program S) → S → Called S
unfolding run_program
next handler depth [] s = let r = handler s in (r.0, ([], r.1))
next handler zero (m ∷ ms) s = (panicked (text "depth"), (m ∷ ms, s))
next handler (suc depth) (m ∷ ms) s = run_program (next handler depth) m ms s

-- A panic that no middleware recovers is the job's error.
unfoldable pub error_of : Exit → Option Text
error_of (returned e) = e
error_of (panicked m) = some m

unfoldable pub run_job : {S : Type 0} → (S → Exit × S) → List (Program S) → S → Option Text × S
unfolding next error_of
run_job handler middleware s =
    let r = next handler (length middleware) middleware s in (error_of r.0, r.1.1)

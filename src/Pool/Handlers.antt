-- ===== src/Pool/Handlers.antt =====
-- The types of functions that a pool takes as handlers and as middleware.
use work.Prelude.{◌≡◌, ◌⊎◌, ◌↔◌, arith, true, [], ◌∷◌}
use work.Text.{Text}
use work.Pool.{
  FnType, error_type, job_pointer, next_type, pointer_to, is_valid_handler_type,
  is_valid_middleware_type, returns_error, takes_job, takes_job_and_next,
}

-- A handler is accepted exactly if it is a function that returns an error and takes a *Job, alone
-- or behind a pointer to the pool's context.
is_valid_handler_type_lem :
    (ctx : Text) (f : FnType)
    → (is_valid_handler_type ctx f ≡ true) ↔ (
        (f.is_func ≡ true)
        × (f.outs ≡ error_type ∷ [])
        × ((f.ins ≡ job_pointer ∷ []) ⊎ (f.ins ≡ pointer_to ctx ∷ job_pointer ∷ [])))
unfolding is_valid_handler_type returns_error takes_job
is_valid_handler_type_lem ctx f = ground arith

-- Middleware is accepted exactly if it is a function that returns an error and takes a *Job and a
-- NextMiddlewareFunc, alone or behind a pointer to the pool's context.
is_valid_middleware_type_lem :
    (ctx : Text) (f : FnType)
    → (is_valid_middleware_type ctx f ≡ true) ↔ (
        (f.is_func ≡ true)
        × (f.outs ≡ error_type ∷ [])
        × ((f.ins ≡ job_pointer ∷ next_type ∷ [])
            ⊎ (f.ins ≡ pointer_to ctx ∷ job_pointer ∷ next_type ∷ [])))
unfolding is_valid_middleware_type returns_error takes_job_and_next
is_valid_middleware_type_lem ctx f = ground arith

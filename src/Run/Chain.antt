-- ===== src/Run/Chain.antt =====
-- The order in which a chain runs, and how deep its calls of next go.
use work.Prelude.{
  ℕ, suc, zero, ◌≤◌, ◌≡◌, refl, ap, ◌∙◌, arith, List, [], ◌∷◌, map, length, length-map,
}
use work.Run.{
  Exit, returned, panicked, on_end, Program, finish, act, call_next, Called, run_program, next,
  run_job, error_of,
}

-- What a middleware does before and after the rest of the chain, and in a deferred function.
pub record Layer (S : Type 0) : Type 0 where
  pub before : S → S
  pub after : S → S
  pub deferred : S → S

-- The middleware with these acts, which passes on how the rest ended.
abbrev pub around : {S : Type 0} → Layer S → Program S
around l = act l.before (
    call_next (λ e. act l.after (act l.deferred (finish (returned e))))
      (λ m. act l.deferred (finish (panicked m))))

-- How a layer ends: what is behind its call of next is left out when that call panicked.
abbrev pub unwound : {S : Type 0} → Layer S → Exit × S → Exit × S
unwound l (returned e, s) = (returned e, l.deferred (l.after s))
unwound l (panicked m, s) = (panicked m, l.deferred s)

-- The layers around the handler, the first one outermost.
unfoldable pub onion : {S : Type 0} → (S → Exit × S) → List (Layer S) → S → Exit × S
onion handler [] s = handler s
onion handler (l ∷ ls) s = unwound l (onion handler ls (l.before s))

module _ {S : Type 0} (handler : S → Exit × S) where
  abbrev layer_end : Layer S → Called S → Called S
  layer_end l r =
      on_end (λ e. (returned e, (r.1.0, l.deferred (l.after r.1.1))))
        (λ m. (panicked m, (r.1.0, l.deferred r.1.1))) r.0

  layer_end-unwound :
      (l : Layer S) (o : Exit × S)
      → layer_end l (o.0, ([], o.1)) ≡ ((unwound l o).0, ([], (unwound l o).1))
  layer_end-unwound l (returned e, s) = refl
  layer_end-unwound l (panicked m, s) = refl

  next-onion :
      (ls : List (Layer S)) (s : S)
      → let r = onion handler ls s in next handler (length ls) (map around ls) s ≡ (r.0, ([], r.1))
  unfolding next run_program onion
  next-onion [] s = refl
  next-onion (l ∷ ls) s =
      ap (layer_end l) (next-onion ls (l.before s))
      ∙ layer_end-unwound l (onion handler ls (l.before s))

  -- Middleware that acts before and after it calls next, and in a deferred function, runs in the order
  -- of the list: the first one is outermost, each sees the state that the ones before it made, and the
  -- handler runs once, innermost. A panic of the handler skips what the middleware does after next, but
  -- not what it deferred. The handler's error, or the text of its panic, is the job's.
  pub run_job-onion :
      (ls : List (Layer S)) (s : S)
      → run_job handler (map around ls) s
        ≡ (error_of (onion handler ls s).0, (onion handler ls s).1)
  unfolding run_job
  run_job-onion ls s =
      ap (λ n. let r = next handler n (map around ls) s in (error_of r.0, r.1.1))
        (length-map ls around)
      ∙ ap (λ (r : Called S). (error_of r.0, r.1.1)) (next-onion ls s)

  -- The chain that is left is never longer than before.
  Shrinks : (List (Program S) → S → Called S) → Type 0
  Shrinks nx = (ms : List (Program S)) (s : S) → length (nx ms s).1.0 ≤ length ms

  run_program-Shrinks :
      (nx : List (Program S) → S → Called S)
      → Shrinks nx
      → (p : Program S) (ms : List (Program S)) (s : S)
      → length (run_program nx p ms s).1.0 ≤ length ms
  unfolding run_program Shrinks
  run_program-Shrinks nx h (finish e) ms s = omega arith
  run_program-Shrinks nx h (act f p) ms s = run_program-Shrinks nx h p ms (f s)
  run_program-Shrinks nx h (call_next k d) ms s =
      let r = nx ms s in
      elim r.0
        as (λ x.
          length
            (on_end (λ e. run_program nx (k e) r.1.0 r.1.1) (λ m. run_program nx (d m) r.1.0 r.1.1)
              x).1.0
          ≤ length ms) [
            | returned e ↦ omega (arith, h ms s, run_program-Shrinks nx h (k e) r.1.0 r.1.1)
            | panicked m ↦ omega (arith, h ms s, run_program-Shrinks nx h (d m) r.1.0 r.1.1)
          ]

  next-Shrinks : (depth : ℕ) → Shrinks (next handler depth)
  unfolding next Shrinks
  next-Shrinks depth [] s = omega arith
  next-Shrinks zero (m ∷ ms) s = omega arith
  next-Shrinks (suc depth) (m ∷ ms) s =
      omega (arith, run_program-Shrinks (next handler depth) (next-Shrinks depth) m ms s)

  run_program-deep :
      (d d' : ℕ)
      → ((ms : List (Program S)) (s : S)
          → length ms ≤ d
          → next handler d ms s ≡ next handler d' ms s)
      → (p : Program S) (ms : List (Program S)) (s : S) → length ms ≤ d
      → run_program (next handler d) p ms s ≡ run_program (next handler d') p ms s
  unfolding run_program Shrinks
  run_program-deep d d' h (finish e) ms s n = refl
  run_program-deep d d' h (act f p) ms s n = run_program-deep d d' h p ms (f s) n
  run_program-deep d d' h (call_next k c) ms s n =
      let r = next handler d ms s in
      let rest : ℕ → Program S → Called S = λ n p. run_program (next handler n) p r.1.0 r.1.1 in
      let short = next-Shrinks d ms s in
      elim r.0
        as (λ x.
          on_end (λ e. rest d (k e)) (λ m. rest d (c m)) x
          ≡ on_end (λ e. rest d' (k e)) (λ m. rest d' (c m)) x) [
            | returned e ↦ run_program-deep d d' h (k e) r.1.0 r.1.1 (omega (arith, n, short))
            | panicked m ↦ run_program-deep d d' h (c m) r.1.0 r.1.1 (omega (arith, n, short))
          ]
      ∙ ap
          (λ (q : Called S).
            on_end (λ e. run_program (next handler d') (k e) q.1.0 q.1.1)
              (λ m. run_program (next handler d') (c m) q.1.0 q.1.1) q.0)
          (h ms s n)

  -- More depth than there is middleware changes nothing, so the depth is never used up, however
  -- often a middleware calls next.
  next-deep :
      (d d' : ℕ) (ms : List (Program S)) (s : S)
      → length ms ≤ d
      → d ≤ d'
      → next handler d ms s ≡ next handler d' ms s
  unfolding next
  next-deep d d' [] s n le = refl
  next-deep zero d' (m ∷ ms) s n le = absurd (omega (arith, n))
  next-deep (suc d) zero (m ∷ ms) s n le = absurd (omega (arith, le))
  next-deep (suc d) (suc d') (m ∷ ms) s n le =
      run_program-deep d d' (λ ns t k. next-deep d d' ns t k (omega (arith, le))) m ms s
        (omega (arith, n))

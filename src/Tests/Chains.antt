-- ===== src/Tests/Chains.antt =====
-- Examples of middleware chains.
use work.Prelude.{ℕ, ◌+◌, ◌*◌, ◌≡◌, List, [], ◌∷◌, map}
use work.Text.{text}
use work.Run.{Exit, panicked, run_job, error_of}
use work.Run.Chain.{Layer, around, onion, run_job-onion}

-- A handler that panics.
abbrev handler : ℕ → Exit × ℕ
handler n = (panicked (text "bad"), n + 1)

abbrev layers : List (Layer ℕ)
layers =
    record { before = λ n. n * 2; after = λ n. n + 3; deferred = λ n. n * 5 }
    ∷ record { before = λ n. n + 5; after = λ n. n * 7; deferred = λ n. n + 1 }
    ∷ []

run_job-onion_example :
    run_job handler (map around layers) 1
    ≡ (error_of (onion handler layers 1).0, (onion handler layers 1).1)
run_job-onion_example = run_job-onion handler layers 1

-- ===== src/Sampler.antt =====
-- priority_sampler.go: the job types in a random order that favours high priorities. The state is
-- the slice of samples with the sum of their priorities. A `uint` is a number below 2 ^ 64.
-- `rand` gives a number for each round, which rand.UintN reduces below its argument.
pub mod Slices
pub mod Scan
pub mod Rounds
use work.Prelude.{
  ℕ, suc, zero, ◌+◌, ◌-◌, ◌%◌, ltb, ◌==◌, Bool, true, false, List, [], ◌∷◌, ◌++◌, Option, none,
  some, length, get_elem?, set,
}
use work.Scripts.Fetch.{FetchKeys}

pub record SampleItem : Type 0 where
  pub priority : ℕ
  pub payload : FetchKeys

pub record PrioritySampler : Type 0 where
  pub sum : ℕ
  pub samples : List SampleItem

abbrev pub u64 : ℕ
u64 = 18446744073709551616

abbrev pub add_u64 : ℕ → ℕ → ℕ
add_u64 a b = (a + b) % u64

abbrev pub sub_u64 : ℕ → ℕ → ℕ
sub_u64 a b = (a + u64 - b) % u64

unfoldable pub empty : PrioritySampler
empty = record { sum = 0; samples = [] }

unfoldable pub add : ℕ → FetchKeys → PrioritySampler → PrioritySampler
add priority payload s = record {
  sum = add_u64 s.sum priority;
  samples = s.samples ++ record { priority = priority; payload = payload } ∷ [];
}

-- The inner loop over i = last + n - 1 down to last: the index at which the number fits.
pub scan : ℕ → ℕ → ℕ → ℕ → List SampleItem → Option ℕ
scan zero last rn prev xs = none
scan (suc n) last rn prev xs = elim (get_elem? xs (last + n)) [
  | none ↦ none
  | some sample ↦ elim (ltb rn (add_u64 sample.priority prev)) [
    | true ↦ some (last + n)
    | false ↦ scan n last rn (add_u64 prev sample.priority) xs
  ]
]

-- xs[i], xs[j] = xs[j], xs[i]
pub swap : ℕ → ℕ → List SampleItem → List SampleItem
swap i j xs = elim (get_elem? xs i) [
  | none ↦ xs
  | some a ↦ elim (get_elem? xs j) [ none ↦ xs | some b ↦ set (set xs i b) j a ]
]

abbrev pub priority_at : List SampleItem → ℕ → ℕ
priority_at [] i = 0
priority_at (x ∷ xs) zero = x.priority
priority_at (x ∷ xs) (suc i) = priority_at xs i

-- What the inner loop does to the slice and the sum that remains.
pub move_to_front : Option ℕ → ℕ → ℕ → List SampleItem → ℕ × List SampleItem
move_to_front none last sum xs = (sum, xs)
move_to_front (some i) last sum xs = (sub_u64 sum (priority_at xs i), swap i last xs)

-- The outer loop; `none` is the panic of rand.UintN(0).
pub sample_loop : (ℕ → ℕ) → ℕ → ℕ → ℕ → List SampleItem → Option (List SampleItem)
sample_loop rand zero last sum xs = some xs
sample_loop rand (suc rounds) last sum xs =
    let (sum', ys) =
      move_to_front (scan (length xs - last) last (rand last % sum) 0 xs) last sum xs in
    let rest = sample_loop rand rounds (suc last) sum' ys in
    elim (sum == 0) [ true ↦ none | false ↦ rest ]

unfoldable pub sample : (ℕ → ℕ) → PrioritySampler → Option PrioritySampler
unfolding sample_loop scan swap move_to_front
sample rand s = elim (sample_loop rand (length s.samples - 1) 0 s.sum s.samples) [
  | none ↦ none
  | some xs ↦ some (record s { samples = xs })
]

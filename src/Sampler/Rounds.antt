-- ===== src/Sampler/Rounds.antt =====
-- The outer loop of the sampler, and the sampler's invariant.
use mathlib.Core.List.{Perm}
use mathlib.Core.List.Perm
use native.Mathlib.Nat.{mod-lt}
use work.Prelude.{
  ℕ, suc, zero, ◌+◌, ◌-◌, ◌%◌, ◌<◌, ◌≤◌, ◌≡◌, refl, List, [], ◌∷◌, ◌++◌, some, length, get_elem?,
  set, arith, Option, Option-cases, inl, inr, length-set, ◌∙◌, sym, subst, ◌==◌, false,
}
use work.Sampler.{
  SampleItem, PrioritySampler, priority_at, u64, sub_u64, scan, swap, move_to_front, sample_loop,
  sample, add,
}
use work.Scripts.Fetch.{FetchKeys}
use work.Sampler.Slices.{
  sum_from, sum_from-le, sum_from-length, swap-perm, get_elem?-priority, sum_from-append, swap-cons,
}
use work.Sampler.Scan.{scan_from, Found}

-- Every priority is positive, as `applyDefaultsAndValidate` makes it.
abbrev pub Positive : List SampleItem → Type 0
Positive [] = Unit {0}
Positive (x ∷ xs) = (0 < x.priority) × Positive xs

-- The sum is kept up by `add`, and does not wrap.
pub record IsValid (s : PrioritySampler) : Type 0 where
  pub summed : s.sum ≡ sum_from 0 s.samples
  pub small : sum_from 0 s.samples < u64
  pub positive : Positive s.samples

pub sum_from_pos : (i : ℕ) (xs : List SampleItem) → Positive xs → i < length xs → 0 < sum_from i xs
sum_from_pos i [] p h = absurd (omega arith)
sum_from_pos zero (x ∷ xs) p h = omega arith
sum_from_pos (suc i) (x ∷ xs) p h = sum_from_pos i xs p.1 (omega arith)

-- Writing a value over the element at i.
sum_from-set :
    (xs : List SampleItem) (i : ℕ) (b : SampleItem)
    → i < length xs
    → sum_from 0 (set xs i b) + priority_at xs i ≡ sum_from 0 xs + b.priority
sum_from-set [] i b h = absurd (omega arith)
sum_from-set (x ∷ xs) zero b h = omega arith
sum_from-set (x ∷ xs) (suc i) b h = omega (arith, sum_from-set xs i b)

-- After the swap the samples behind the front one hold what the others held.
sum_from-swap :
    (last i : ℕ) (xs : List SampleItem)
    → last ≤ i
    → i < length xs
    → sum_from (suc last) (swap i last xs) + priority_at xs i ≡ sum_from last xs
unfolding swap
sum_from-swap last i [] h l = absurd (omega arith)
sum_from-swap zero zero (x ∷ xs) h l = omega arith
sum_from-swap zero (suc i) (x ∷ xs) h l =
    let (y, at, p) = get_elem?-priority i xs (omega arith) in
    rw (at, swap) (omega (arith, sum_from-set xs i x (omega arith)))
sum_from-swap (suc last) zero (x ∷ xs) h l = absurd (omega arith)
sum_from-swap (suc last) (suc i) (x ∷ xs) h l =
    rw (swap-cons x xs i last) (sum_from-swap last i xs (omega arith) (omega arith))

length-swap : (i j : ℕ) (xs : List SampleItem) → length (swap i j xs) ≡ length xs
unfolding swap
length-swap i j xs = elim (Option-cases (get_elem? xs i)) [
  | inl e ↦ rw (e, swap)
  | inr (a, e) ↦ elim (Option-cases (get_elem? xs j)) [
    | inl f ↦ rw (e, f, swap)
    | inr (b, f) ↦ rw (e, f, swap) (length-set (set xs i b) j a ∙ length-set xs i b)
  ]
]

Positive-set :
    (xs : List SampleItem) (i : ℕ) (b : SampleItem)
    → 0 < b.priority
    → Positive xs
    → Positive (set xs i b)
Positive-set [] i b h p = tt
Positive-set (x ∷ xs) zero b h p = (h, p.1)
Positive-set (x ∷ xs) (suc i) b h p = (p.0, Positive-set xs i b h p.1)

Positive-get :
    (xs : List SampleItem) (i : ℕ) (b : SampleItem)
    → get_elem? xs i ≡ some b
    → Positive xs
    → 0 < b.priority
Positive-get [] i b e p = cc
Positive-get (x ∷ xs) zero b e p = ground arith
Positive-get (x ∷ xs) (suc i) b e p = Positive-get xs i b e p.1

Positive-swap : (i j : ℕ) (xs : List SampleItem) → Positive xs → Positive (swap i j xs)
unfolding swap
Positive-swap i j xs p = elim (Option-cases (get_elem? xs i)) [
  | inl e ↦ rw (e, swap) p
  | inr (a, e) ↦ elim (Option-cases (get_elem? xs j)) [
    | inl f ↦ rw (e, f, swap) p
    | inr (b, f) ↦
        rw (e, f, swap)
          (Positive-set (set xs i b) j a (Positive-get xs i a e p)
            (Positive-set xs i b (Positive-get xs j b f p) p))
  ]
]

priority_at-get :
    (xs : List SampleItem) (i : ℕ) (b : SampleItem)
    → get_elem? xs i ≡ some b
    → priority_at xs i ≡ b.priority
priority_at-get [] i b e = cc
priority_at-get (x ∷ xs) zero b e = ground arith
priority_at-get (x ∷ xs) (suc i) b e = priority_at-get xs i b e

priority_at-set :
    (xs : List SampleItem) (i j : ℕ) (b : SampleItem)
    → get_elem? xs j ≡ some b
    → priority_at (set xs i b) j ≡ b.priority
priority_at-set [] i j b e = cc
priority_at-set (x ∷ xs) zero zero b e = refl
priority_at-set (x ∷ xs) zero (suc j) b e = priority_at-get xs j b e
priority_at-set (x ∷ xs) (suc i) zero b e = ground arith
priority_at-set (x ∷ xs) (suc i) (suc j) b e = priority_at-set xs i j b e

get_elem?-lt :
    (xs : List SampleItem) (i : ℕ) (b : SampleItem) → get_elem? xs i ≡ some b → i < length xs
get_elem?-lt [] i b e = cc
get_elem?-lt (x ∷ xs) zero b e = omega arith
get_elem?-lt (x ∷ xs) (suc i) b e = omega (arith, get_elem?-lt xs i b e)

total-swap : (i j : ℕ) (xs : List SampleItem) → sum_from 0 (swap i j xs) ≡ sum_from 0 xs
unfolding swap
total-swap i j xs = elim (Option-cases (get_elem? xs i)) [
  | inl e ↦ rw (e, swap)
  | inr (a, e) ↦ elim (Option-cases (get_elem? xs j)) [
    | inl f ↦ rw (e, f, swap)
    | inr (b, f) ↦
        rw (e, f, swap)
          (omega (
            arith,
            sum_from-set xs i b (get_elem?-lt xs i a e),
            priority_at-get xs i a e,
            sum_from-set (set xs i b) j a (rw (length-set xs i b) (get_elem?-lt xs j b f)),
            priority_at-set xs i j b f,
          ))
  ]
]

-- One round: no panic, and the rest of the rounds on a rearranged slice with the right sum.
abbrev Rearranged : List SampleItem → Option (List SampleItem) → Type 0
Rearranged xs r =
    (ys : List SampleItem) × (r ≡ some ys)
    × Perm ys xs
    × Positive ys
    × (sum_from 0 ys ≡ sum_from 0 xs)

module _ (rand : ℕ → ℕ) (last : ℕ) (xs : List SampleItem) (p : Positive xs)
    (room : last < length xs) (small : sum_from 0 xs < u64) where
  -- The number drawn fits a sample that is not yet placed.
  round_finds : Found (length xs - last) last (rand last % sum_from last xs) 0 xs
  round_finds =
      let reach : last + (length xs - last) ≡ length xs = omega arith in
      let drawn : rand last % sum_from last xs < sum_from last xs =
        mod-lt (rand last) (sum_from_pos last xs p room) in
      scan_from (length xs - last) last (rand last % sum_from last xs) 0 xs (omega arith) small
        (rw reach (sym (sum_from-length xs))) (omega arith) drawn

  front_sum :
      (i : ℕ)
      → last ≤ i
      → i < length xs
      → sub_u64 (sum_from last xs) (priority_at xs i) ≡ sum_from (suc last) (swap i last xs)
  front_sum i lo hi = omega (arith, sum_from-swap last i xs lo hi, sum_from-le last xs)

sample_loop-step :
    (rand : ℕ → ℕ) (rounds last sum : ℕ) (xs : List SampleItem) (i rest : ℕ)
    → 0 < sum
    → scan (length xs - last) last (rand last % sum) 0 xs ≡ some i
    → sub_u64 sum (priority_at xs i) ≡ rest
    → sample_loop rand (suc rounds) last sum xs
      ≡ sample_loop rand rounds (suc last) rest (swap i last xs)
unfolding sample_loop move_to_front
sample_loop-step rand rounds last sum xs i rest pos found left =
    let test : (sum == 0) ≡ false = ground arith in
    rw (test, found, left, sample_loop, move_to_front)

sample_loop_lem :
    (rand : ℕ → ℕ) (rounds last : ℕ) (xs : List SampleItem)
    → sum_from 0 xs < u64
    → Positive xs
    → last + rounds < length xs
    → Rearranged xs (sample_loop rand rounds last (sum_from last xs) xs)
unfolding sample_loop
sample_loop_lem rand zero last xs small p room = (xs, refl, Perm.refl xs, p, refl)
sample_loop_lem rand (suc rounds) last xs small p room =
    let (i, found, lo, hi, fits) = round_finds rand last xs p (omega arith) small in
    let top : i < length xs = omega arith in
    let (ys, done, perm, q, total) =
      sample_loop_lem rand rounds (suc last) (swap i last xs) (rw (total-swap i last xs) small)
        (Positive-swap i last xs p) (rw (length-swap i last xs) (omega arith)) in
    (
      ys,
      sample_loop-step rand rounds last _ xs i _ (sum_from_pos last xs p (omega arith)) found
            (front_sum rand last xs p (omega arith) small i lo top)
          ∙ done,
      Perm.trans perm (swap-perm xs i last),
      q,
      total ∙ total-swap i last xs,
    )

-- No samples, or few enough rounds for them.
sample_loop_all :
    (rand : ℕ → ℕ) (xs : List SampleItem)
    → sum_from 0 xs < u64
    → Positive xs
    → Rearranged xs (sample_loop rand (length xs - 1) 0 (sum_from 0 xs) xs)
unfolding sample_loop
sample_loop_all rand [] small p = ([], refl, Perm.refl [], tt, refl)
sample_loop_all rand (x ∷ xs) small p = sample_loop_lem rand _ 0 (x ∷ xs) small p (omega arith)

-- Sampling a valid sampler never panics, for any random numbers, and only rearranges the samples:
-- the sum stays right, so the sampler stays valid.
pub sample-IsValid :
    (rand : ℕ → ℕ) (s : PrioritySampler)
    → IsValid s
    → (t : PrioritySampler) × (sample rand s ≡ some t) × Perm t.samples s.samples × IsValid t
unfolding sample
sample-IsValid rand s v =
    let (ys, done, perm, q, total) = sample_loop_all rand s.samples v.small v.positive in
    let done' : sample_loop rand (length s.samples - 1) 0 s.sum s.samples ≡ some ys =
      subst (λ n. sample_loop rand (length s.samples - 1) 0 n s.samples ≡ some ys) (sym v.summed)
        done in
    (
      record s { samples = ys },
      rw (done', sample),
      perm,
      record { summed = v.summed ∙ sym total; small = rw total v.small; positive = q },
    )

Positive-snoc :
    (xs : List SampleItem) (x : SampleItem) → Positive xs → 0 < x.priority → Positive (xs ++ x ∷ [])
Positive-snoc [] x p h = (h, tt)
Positive-snoc (y ∷ xs) x p h = (p.0, Positive-snoc xs x p.1 h)

-- So does adding a job type with a positive priority, within the range of the sum.
pub add-IsValid :
    (priority : ℕ) (payload : FetchKeys) (s : PrioritySampler)
    → 0 < priority
    → sum_from 0 s.samples + priority < u64
    → IsValid s
    → IsValid (add priority payload s)
unfolding add
add-IsValid priority payload s h small v =
    let total =
      sum_from-append s.samples (record { priority = priority; payload = payload } ∷ []) in
    record {
      summed = omega (arith, v.summed, v.small);
      small = omega (arith, v.small);
      positive = Positive-snoc s.samples _ v.positive h;
    }

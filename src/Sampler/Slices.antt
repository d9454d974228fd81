-- ===== src/Sampler/Slices.antt =====
-- Priorities along a slice, and what a swap makes of them.
use mathlib.Core.List.{Perm}
use mathlib.Core.List.Perm
use work.Prelude.{
  ℕ, suc, zero, ◌+◌, ◌<◌, ◌≤◌, ◌≡◌, refl, List, [], ◌∷◌, ◌++◌, some, length, get_elem?, set, arith,
  Option-cases, inl, inr,
}
use work.Sampler.{SampleItem, priority_at, swap}

-- The priorities from an index on.
abbrev pub sum_from : ℕ → List SampleItem → ℕ
sum_from zero [] = 0
sum_from zero (x ∷ xs) = x.priority + sum_from zero xs
sum_from (suc i) [] = 0
sum_from (suc i) (x ∷ xs) = sum_from i xs

pub sum_from-nil : (i : ℕ) → sum_from i [] ≡ 0
sum_from-nil zero = refl
sum_from-nil (suc i) = refl

pub sum_from-suc :
    (i : ℕ) (xs : List SampleItem) → sum_from i xs ≡ priority_at xs i + sum_from (suc i) xs
sum_from-suc i [] = omega (arith, sum_from-nil i)
sum_from-suc zero (x ∷ xs) = refl
sum_from-suc (suc i) (x ∷ xs) = sum_from-suc i xs

pub sum_from-length : (xs : List SampleItem) → sum_from (length xs) xs ≡ 0
sum_from-length [] = refl
sum_from-length (x ∷ xs) = sum_from-length xs

pub sum_from-append :
    (xs ys : List SampleItem) → sum_from 0 (xs ++ ys) ≡ sum_from 0 xs + sum_from 0 ys
sum_from-append [] ys = omega arith
sum_from-append (x ∷ xs) ys = omega (arith, sum_from-append xs ys)

pub sum_from-le : (i : ℕ) (xs : List SampleItem) → sum_from i xs ≤ sum_from 0 xs
sum_from-le zero xs = omega arith
sum_from-le (suc i) [] = omega arith
sum_from-le (suc i) (x ∷ xs) = omega (arith, sum_from-le i xs)

pub get_elem?-priority :
    (i : ℕ) (xs : List SampleItem)
    → i < length xs
    → (x : SampleItem) × (get_elem? xs i ≡ some x) × (x.priority ≡ priority_at xs i)
get_elem?-priority i [] h = absurd (omega arith)
get_elem?-priority zero (x ∷ xs) h = (x, refl, refl)
get_elem?-priority (suc i) (x ∷ xs) h = get_elem?-priority i xs (omega arith)

-- A write exchanges the element written for the one that stood there.
set-perm :
    (xs : List SampleItem) (i : ℕ) (a b : SampleItem)
    → get_elem? xs i ≡ some a
    → Perm (a ∷ set xs i b) (b ∷ xs)
set-perm [] i a b h = cc
set-perm (x ∷ xs) zero a b h = let e : x ≡ a = ground arith in rw e (Perm.swap b a xs)
set-perm (x ∷ xs) (suc i) a b h =
    Perm.trans (Perm.swap x a (set xs i b))
      (Perm.trans (Perm.cons x (set-perm xs i a b h)) (Perm.swap b x xs))

-- One end of the swap at the head.
swap_head-perm :
    (x : SampleItem) (xs : List SampleItem) (j : ℕ) → Perm (swap 0 (suc j) (x ∷ xs)) (x ∷ xs)
unfolding swap
swap_head-perm x xs j = elim (Option-cases (get_elem? xs j)) [
  | inl e ↦ rw (e, swap) (Perm.refl _)
  | inr (b, e) ↦ rw (e, swap) (set-perm xs j b x e)
]

swap_to_head-perm :
    (x : SampleItem) (xs : List SampleItem) (i : ℕ) → Perm (swap (suc i) 0 (x ∷ xs)) (x ∷ xs)
unfolding swap
swap_to_head-perm x xs i = elim (Option-cases (get_elem? xs i)) [
  | inl e ↦ rw (e, swap) (Perm.refl _)
  | inr (b, e) ↦ rw (e, swap) (set-perm xs i b x e)
]

pub swap-cons :
    (x : SampleItem) (xs : List SampleItem) (i j : ℕ)
    → swap (suc i) (suc j) (x ∷ xs) ≡ x ∷ swap i j xs
unfolding swap
swap-cons x xs i j = ground arith

pub swap-perm : (xs : List SampleItem) (i j : ℕ) → Perm (swap i j xs) xs
unfolding swap
swap-perm [] zero zero = Perm.refl _
swap-perm [] _ _ = Perm.refl _
swap-perm (x ∷ xs) zero zero = Perm.refl _
swap-perm (x ∷ xs) zero (suc j) = swap_head-perm x xs j
swap-perm (x ∷ xs) (suc i) zero = swap_to_head-perm x xs i
swap-perm (x ∷ xs) (suc i) (suc j) = rw (swap-cons x xs i j) (Perm.cons x (swap-perm xs i j))

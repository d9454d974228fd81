-- ===== src/Text/Names/Sorted.antt =====
-- Sorting what is sorted.
use work.Prelude.{◌≡◌, refl, ap, ◌∙◌, Bool-cases, inl, inr, arith, true, false, List, [], ◌∷◌}
use work.Text.{Text}
use work.Text.Names.{text_le, insert_sorted, sort_strings}

abbrev IsSorted : List Text → Type 0
IsSorted [] = Unit
IsSorted (x ∷ []) = Unit
IsSorted (x ∷ y ∷ ys) = (text_le x y ≡ true) × IsSorted (y ∷ ys)

text_le-total : (s t : Text) → text_le s t ≡ false → text_le t s ≡ true
unfolding text_le
text_le-total [] t h = absurd (cc)
text_le-total (c ∷ s) [] h = refl
text_le-total (c ∷ s) (d ∷ t) h = ground (arith, text_le-total s t)

-- In front of what is above it, a name stays in front.
insert_sorted-IsSorted :
    (x y : Text) (ys : List Text)
    → text_le y x ≡ true
    → IsSorted (y ∷ ys)
    → IsSorted (y ∷ insert_sorted x ys)
unfolding insert_sorted
insert_sorted-IsSorted x y [] le h = (le, tt)
insert_sorted-IsSorted x y (z ∷ zs) le h = elim (Bool-cases (text_le x z)) [
  | inl first ↦ rw first (le, (first, h.1))
  | inr after ↦ rw after (h.0, insert_sorted-IsSorted x z zs (text_le-total x z after) h.1)
]

insert_IsSorted : (x : Text) (ys : List Text) → IsSorted ys → IsSorted (insert_sorted x ys)
unfolding insert_sorted
insert_IsSorted x [] h = tt
insert_IsSorted x (y ∷ ys) h = elim (Bool-cases (text_le x y)) [
  | inl first ↦ rw first (first, h)
  | inr after ↦ rw after (insert_sorted-IsSorted x y ys (text_le-total x y after) h)
]

sort_strings-IsSorted : (xs : List Text) → IsSorted (sort_strings xs)
unfolding sort_strings
sort_strings-IsSorted [] = tt
sort_strings-IsSorted (x ∷ xs) = insert_IsSorted x (sort_strings xs) (sort_strings-IsSorted xs)

insert_below : (x : Text) (xs : List Text) → IsSorted (x ∷ xs) → insert_sorted x xs ≡ x ∷ xs
unfolding insert_sorted
insert_below x [] h = refl
insert_below x (y ∷ ys) h = rw h.0 refl

sorted_stays : (xs : List Text) → IsSorted xs → sort_strings xs ≡ xs
unfolding sort_strings
sorted_stays [] h = refl
sorted_stays (x ∷ []) h = insert_below x [] tt
sorted_stays (x ∷ y ∷ ys) h =
    ap (insert_sorted x) (sorted_stays (y ∷ ys) h.1) ∙ insert_below x (y ∷ ys) h

pub sort_strings-sort_strings : (xs : List Text) → sort_strings (sort_strings xs) ≡ sort_strings xs
sort_strings-sort_strings xs = sorted_stays (sort_strings xs) (sort_strings-IsSorted xs)

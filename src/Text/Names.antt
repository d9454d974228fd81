-- ===== src/Text/Names.antt =====
-- Lists of names in one text, with commas between them (strings.Join and strings.Split), and the
-- order that sort.Strings makes.
pub mod Sorted
use work.Prelude.{
  ℕ, ◌≡◌, ◌≢◌, refl, ap, sym, subst, ◌∙◌, Bool-cases, inl, inr, arith, Bool, true, false, ltb, ◌==◌,
  List, [], ◌∷◌, ◌++◌, All, if◌then◌else◌,
}
use work.Text.{Text}

abbrev pub comma : ℕ
comma = b','

unfoldable pub join : List Text → Text
join [] = []
join (x ∷ []) = x
join (x ∷ y ∷ xs) = x ++ comma ∷ join (y ∷ xs)

-- A byte goes onto the first name.
abbrev onto_first : ℕ → List Text → List Text
onto_first c [] = (c ∷ []) ∷ []
onto_first c (x ∷ xs) = (c ∷ x) ∷ xs

-- The empty text has one name, which is empty.
unfoldable pub split : Text → List Text
split [] = [] ∷ []
split (c ∷ t) = if c == comma then [] ∷ split t else onto_first c (split t)

-- Text order, byte by byte.
unfoldable pub text_le : Text → Text → Bool
text_le [] t = true
text_le (c ∷ s) [] = false
text_le (c ∷ s) (d ∷ t) =
    let rest = text_le s t in if ltb c d then true else if ltb d c then false else rest

unfoldable pub insert_sorted : Text → List Text → List Text
unfolding text_le
insert_sorted x [] = x ∷ []
insert_sorted x (y ∷ ys) =
    let rest = insert_sorted x ys in if text_le x y then x ∷ y ∷ ys else y ∷ rest

unfoldable pub sort_strings : List Text → List Text
unfolding insert_sorted
sort_strings [] = []
sort_strings (x ∷ xs) = insert_sorted x (sort_strings xs)

-- No comma stands in a name.
abbrev pub IsPlain : Text → Type 0
IsPlain = All (λ c. c ≢ comma)

split-plain : (x : Text) → IsPlain x → split x ≡ x ∷ []
unfolding split
split-plain [] h = refl
split-plain (c ∷ x) h = ground (arith, split-plain x h.1)

split-comma : (x t : Text) → IsPlain x → split (x ++ comma ∷ t) ≡ x ∷ split t
unfolding split
split-comma [] t h = refl
split-comma (c ∷ x) t h = ground (arith, split-comma x t h.1)

-- Names without commas are read back, if there is at least one.
pub split-join : (x : Text) (xs : List Text) → All IsPlain (x ∷ xs) → split (join (x ∷ xs)) ≡ x ∷ xs
unfolding join
split-join x [] h = split-plain x h.0
split-join x (y ∷ xs) h = split-comma x (join (y ∷ xs)) h.0 ∙ ap (λ r. x ∷ r) (split-join y xs h.1)

insert_sorted-All :
    (P : Text → Type 0) (x : Text) (xs : List Text) → P x → All P xs → All P (insert_sorted x xs)
unfolding insert_sorted
insert_sorted-All P x [] p ps = (p, tt)
insert_sorted-All P x (y ∷ ys) p (q, ps) = elim (Bool-cases (text_le x y)) [
  | inl le ↦ rw le (p, (q, ps))
  | inr gt ↦ rw gt (q, insert_sorted-All P x ys p ps)
]

-- Sorting keeps what holds of every name.
pub sort_strings-All : (P : Text → Type 0) (xs : List Text) → All P xs → All P (sort_strings xs)
unfolding sort_strings
sort_strings-All P [] ps = tt
sort_strings-All P (x ∷ xs) (p, ps) =
    insert_sorted-All P x (sort_strings xs) p (sort_strings-All P xs ps)

insert_sorted-cons :
    (x : Text) (xs : List Text) → (y : Text) × (ys : List Text) × (insert_sorted x xs ≡ y ∷ ys)
unfolding insert_sorted
insert_sorted-cons x [] = (x, [], refl)
insert_sorted-cons x (y ∷ ys) = elim (Bool-cases (text_le x y)) [
  | inl le ↦ (x, y ∷ ys, rw le)
  | inr gt ↦ (y, insert_sorted x ys, rw gt)
]

-- The names of a pool with at least one job type are read back, in their order.
pub split-join-sort_strings :
    (x : Text) (xs : List Text)
    → All IsPlain (x ∷ xs)
    → split (join (sort_strings (x ∷ xs))) ≡ sort_strings (x ∷ xs)
unfolding sort_strings
split-join-sort_strings x xs h =
    let plain = sort_strings-All IsPlain (x ∷ xs) h in
    let (y, ys, e) = insert_sorted-cons x (sort_strings xs) in
    ap (λ l. split (join l)) e ∙ split-join y ys (subst (All IsPlain) e plain) ∙ sym e

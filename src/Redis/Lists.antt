-- ===== src/Redis/Lists.antt =====
-- Laws of the list commands' data: the pop from the end, and the removal of an element.
use work.Prelude.{◌≡◌, refl, List, [], ◌∷◌, ◌++◌, Option, some, arith}
use work.Redis.{pop_last}

pub pop_last-append {ℓ} :
    {A : Type ℓ} (ys : List A) (y : A) → pop_last (ys ++ y ∷ []) ≡ some (ys, y)
unfolding pop_last
pop_last-append [] y = refl
pop_last-append (x ∷ ys) y = rw (pop_last-append ys y)

pub pop_last-cons {ℓ} :
    {A : Type ℓ} (x : A) (xs : List A)
    → (ys : List A) × (y : A) × (pop_last (x ∷ xs) ≡ some (ys, y))
unfolding pop_last
pop_last-cons x [] = ([], x, refl)
pop_last-cons x (z ∷ xs) = let (ys, y, e) = pop_last-cons z xs in (x ∷ ys, y, rw (e, pop_last))

-- What is popped is the last element.
pub pop_last-some {ℓ} :
    {A : Type ℓ} (xs : List A) {ys : List A} {y : A}
    → pop_last xs ≡ some (ys, y)
    → xs ≡ ys ++ y ∷ []
unfolding pop_last
pop_last-some [] e = cc
pop_last-some (x ∷ []) e = ground arith
pop_last-some {A} (x ∷ z ∷ xs) {ys} {y} e =
    let (zs, w, f) = pop_last-cons z xs in
    let rest = pop_last-some (z ∷ xs) f in
    let g : ◌≡◌ {A = Option (List A × A)} (some (x ∷ zs, w)) (some (ys, y)) =
      rw (f, pop_last) at e in
    ground arith

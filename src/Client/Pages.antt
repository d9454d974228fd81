-- ===== src/Client/Pages.antt =====
-- The pages of a sorted set, one behind the other.
use work.Prelude.{ℕ, zero, suc, ◌+◌, ◌*◌, ◌≡◌, refl, ap, ◌∙◌, [], ◌∷◌, ◌++◌, arith, take, drop}
use work.Redis.{ZSet}
use work.Client.{page_of, page_number, page_size}

-- The first n pages, one behind the other.
unfoldable pub pages : ℕ → ZSet → ZSet
pages zero z = []
pages (suc n) z = pages n z ++ page_of (suc n) z

take-nil : (n : ℕ) → take n (let z : ZSet = [] in z) ≡ []
take-nil zero = refl
take-nil (suc n) = refl

take-add : (m n : ℕ) (z : ZSet) → take m z ++ take n (drop m z) ≡ take (m + n) z
take-add zero n z = ap (λ k. take k z) (omega arith)
take-add (suc m) n [] =
    take-nil n ∙ ap (λ k. take k []) (let e : suc (m + n) ≡ suc m + n = omega arith in e)
take-add (suc m) n (x ∷ z) =
    ap (λ r. x ∷ r) (take-add m n z)
    ∙ ap (λ k. take k (x ∷ z)) (let e : suc (m + n) ≡ suc m + n = omega arith in e)

page_of-suc : (n : ℕ) (z : ZSet) → page_of (suc n) z ≡ take page_size (drop (n * page_size) z)
unfolding page_of page_number
page_of-suc n z = ground arith

-- The first n pages that the web UI asks for, put one behind the other, are the first n * 20 entries
-- of the set: no entry is skipped and none is shown on two pages.
pages-take : (n : ℕ) (z : ZSet) → pages n z ≡ take (n * page_size) z
unfolding pages
pages-take zero z = refl
pages-take (suc n) z =
    ap (λ r. r ++ page_of (suc n) z) (pages-take n z)
    ∙ ap (λ r. take (n * page_size) z ++ r) (page_of-suc n z)
    ∙ take-add (n * page_size) page_size z
    ∙ ap (λ k. take k z) (omega arith)

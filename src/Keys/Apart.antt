-- ===== src/Keys/Apart.antt =====
-- Keys of different job types, whose names have no colon, differ.
use mathlib.Core.List.{append_assoc, append-nil}
use work.Prelude.{ℕ, ◌≡◌, ◌≢◌, refl, sym, ap, ◌∙◌, arith, [], ◌∷◌, ◌++◌, All}
use work.Text.{Text, text}
use work.Keys

-- A name has no colon; what is put behind it is nothing, or starts with one.
abbrev pub IsName : Text → Type 0
IsName = All (λ c. c ≢ b':')

abbrev pub IsSuffix : Text → Type 0
IsSuffix [] = Unit
IsSuffix (c ∷ t) = c ≡ b':'

tails : {c d : ℕ} {s t : Text} → c ∷ s ≡ d ∷ t → s ≡ t
tails e = cc

heads : {c d : ℕ} {s t : Text} → c ∷ s ≡ d ∷ t → c ≡ d
heads e = cc

pub append_left_cancel : (p s t : Text) → p ++ s ≡ p ++ t → s ≡ t
append_left_cancel [] s t e = e
append_left_cancel (c ∷ p) s t e = append_left_cancel p s t (tails e)

same_name :
    (m n x y : Text) → IsName m → IsName n → IsSuffix x → IsSuffix y → m ++ x ≡ n ++ y → m ≡ n
same_name [] [] x y hm hn hx hy e = refl
same_name [] (d ∷ n) [] y hm hn hx hy e = absurd (cc)
same_name [] (d ∷ n) (c ∷ x) y hm hn hx hy e = absurd (hn.0 (sym (heads e) ∙ hx))
same_name (c ∷ m) [] x [] hm hn hx hy e = absurd (cc)
same_name (c ∷ m) [] x (d ∷ y) hm hn hx hy e = absurd (hm.0 (heads e ∙ hy))
same_name (c ∷ m) (d ∷ n) x y hm hn hx hy e =
    let rest = same_name m n x y hm.1 hn.1 hx hy (tails e) in let first : c ≡ d = heads e in cc

-- Two keys that are job types' queues with suffixes.
pub jobs-ne :
    (ns m n x y : Text)
    → IsName m
    → IsName n
    → IsSuffix x
    → IsSuffix y
    → m ≢ n
    → Keys.jobs ns m ++ x ≢ Keys.jobs ns n ++ y
unfolding Keys.jobs
jobs-ne ns m n x y hm hn hx hy apart e =
    let p = Keys.jobs_prefix ns in
    apart (
      same_name m n x y hm hn hx hy (
        append_left_cancel p (m ++ x) (n ++ y) (sym (append_assoc p m x) ∙ e ∙ append_assoc p n y)))

pub jobs-plain : (ns m : Text) → Keys.jobs ns m ++ [] ≡ Keys.jobs ns m
jobs-plain ns m = append-nil _

-- A heartbeat's key is no queue's.
pub heartbeat-ne-jobs : (ns pool name x : Text) → Keys.heartbeat ns pool ≢ Keys.jobs ns name ++ x
unfolding Keys.heartbeat Keys.jobs Keys.jobs_prefix
heartbeat-ne-jobs ns pool name x e =
    let p = Keys.namespace_prefix ns in
    let q = append_left_cancel p (text "worker_pools:" ++ pool) (text "jobs:" ++ (name ++ x)) (
      e
      ∙ ap (λ l. l ++ x) (append_assoc p (text "jobs:") name)
      ∙ append_assoc p (text "jobs:" ++ name) x) in
    absurd (w-ne-j (heads q))
  where
    w-ne-j : ◌≢◌ {A = ℕ} b'w' b'j'
    w-ne-j e = omega arith

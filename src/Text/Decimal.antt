-- ===== src/Text/Decimal.antt =====
-- Decimal numbers as texts: what a command's integer argument is written as, and strconv.ParseInt.
use work.Prelude.{
  ℕ, zero, suc, ◌+◌, ◌-◌, ◌*◌, ◌/◌, ◌%◌, ◌≤◌, ◌<◌, ◌≡◌, refl, ap, sym, ◌∙◌, arith, Bool, true,
  false, ltb, leb, ◌==◌, ◌&&◌, [], ◌∷◌, Option, none, some, if◌then◌else◌, Bool-cases, inl, inr,
}
use work.Prelude.Int.{ℤ, pos, negsuc}
use work.Text.{Text}

-- The digits of n in front of `acc`.
digits : ℕ → ℕ → Text → Text
digits zero n acc = acc
digits (suc fuel) n acc =
    let rest = digits fuel (n / 10) ((48 + n % 10) ∷ acc) in
    if ltb n 10 then (48 + n) ∷ acc else rest

unfoldable pub format : ℕ → Text
unfolding digits
format n = digits (suc n) n []

parse_from : ℕ → Text → Option ℕ
parse_from v [] = some v
parse_from v (c ∷ t) =
    let rest = parse_from (v * 10 + (c - 48)) t in if leb 48 c && leb c 57 then rest else none

-- No digits are an error.
parse_digits : Text → Option ℕ
unfolding parse_from
parse_digits [] = none
parse_digits (c ∷ t) = parse_from 0 (c ∷ t)

abbrev pub max_int64 : ℕ
max_int64 = 9223372036854775807

-- The number in the range of int64.
in_range : Bool → Option ℕ → Option ℤ
in_range minus none = none
in_range false (some n) = if leb n max_int64 then some (pos n) else none
in_range true (some zero) = some (pos 0)
in_range true (some (suc n)) = if leb n max_int64 then some (negsuc n) else none

-- ParseInt(t, 10, 64).
unfoldable pub parse_int : Text → Option ℤ
unfolding parse_digits in_range
parse_int [] = none
parse_int (c ∷ t) =
    if c == b'-'
    then in_range true (parse_digits t)
    else if c == b'+'
    then in_range false (parse_digits t)
    else in_range false (parse_digits (c ∷ t))

-- A digit is read.
digit_step :
    (v n : ℕ) (acc : Text) → n < 10 → parse_from v ((48 + n) ∷ acc) ≡ parse_from (v * 10 + n) acc
unfolding parse_from
digit_step v n acc h =
    let low : leb 48 (48 + n) ≡ true = ground arith in
    let high : leb (48 + n) 57 ≡ true = ground arith in
    let value : v * 10 + (48 + n - 48) ≡ v * 10 + n = omega arith in rw (low, high, value)

abbrev pub max_uint64 : ℕ
max_uint64 = 18446744073709551615

uint_in_range : Option ℕ → Option ℕ
uint_in_range none = none
uint_in_range (some n) = if leb n max_uint64 then some n else none

-- ParseUint(t, 10, 64).
unfoldable pub parse_uint : Text → Option ℕ
unfolding parse_digits uint_in_range
parse_uint t = uint_in_range (parse_digits t)

parse_from-digits :
    (fuel n : ℕ) (acc : Text) → n < fuel → parse_from 0 (digits fuel n acc) ≡ parse_from n acc
unfolding digits
parse_from-digits zero n acc h = absurd (omega arith)
parse_from-digits (suc fuel) n acc h = elim (Bool-cases (ltb n 10)) [
  | inl small ↦
      let e : 0 * 10 + n ≡ n = omega arith in
      rw small (digit_step 0 n acc (ground arith) ∙ ap (λ k. parse_from k acc) e)
  | inr big ↦
      let e : n / 10 * 10 + n % 10 ≡ n = omega arith in
      rw big (
        parse_from-digits fuel (n / 10) ((48 + n % 10) ∷ acc) (ground arith)
        ∙ digit_step (n / 10) (n % 10) acc (omega arith)
        ∙ ap (λ k. parse_from k acc) e)
]

-- The first byte is a digit.
digits_first :
    (fuel n : ℕ) (acc : Text)
    → n < fuel
    → (c : ℕ) × (t : Text) × (digits fuel n acc ≡ c ∷ t) × (48 ≤ c)
unfolding digits
digits_first zero n acc h = absurd (omega arith)
digits_first (suc fuel) n acc h = elim (Bool-cases (ltb n 10)) [
  | inl small ↦ (48 + n, acc, rw small, omega arith)
  | inr big ↦ rw big (digits_first fuel (n / 10) ((48 + n % 10) ∷ acc) (ground arith))
]

digit_first :
    (c : ℕ) (t : Text) → 48 ≤ c → parse_int (c ∷ t) ≡ in_range false (parse_from 0 (c ∷ t))
unfolding parse_int
digit_first c t h = ground arith

-- A number in the range of int64 is read back.
pub parse_int-format : (n : ℕ) → n ≤ max_int64 → parse_int (format n) ≡ some (pos n)
unfolding format in_range parse_from
parse_int-format n h =
    let (c, t, e, low) = digits_first (suc n) n [] (omega arith) in
    let fits : leb n max_int64 ≡ true = ground arith in
    ap parse_int e
    ∙ digit_first c t low
    ∙ ap (λ u. in_range false (parse_from 0 u)) (sym e)
    ∙ ap (in_range false) (parse_from-digits (suc n) n [] (omega arith))
    ∙ (rw fits)

first_digits : (c : ℕ) (t : Text) → parse_uint (c ∷ t) ≡ uint_in_range (parse_from 0 (c ∷ t))
unfolding parse_uint
first_digits c t = refl

pub parse_uint-format : (n : ℕ) → n ≤ max_uint64 → parse_uint (format n) ≡ some n
unfolding format uint_in_range parse_from
parse_uint-format n h =
    let (c, t, e, low) = digits_first (suc n) n [] (omega arith) in
    let fits : leb n max_uint64 ≡ true = ground arith in
    ap parse_uint e
    ∙ first_digits c t
    ∙ ap (λ u. uint_in_range (parse_from 0 u)) (sym e)
    ∙ ap uint_in_range (parse_from-digits (suc n) n [] (omega arith))
    ∙ (rw fits)

-- ===== src/Job/Arguments/Readers.antt =====
-- What the readers of arguments return, and which error is left for ArgError.
use work.Prelude.{
  ℕ, zero, suc, ◌<◌, ◌⊎◌, inl, inr, refl, ◌∙◌, ◌==◌, false, Bool-cases, ◌/◌, ◌%◌, ap, sym, ◌+◌, ◌-◌,
  leb, ◌≤◌, ◌*◌, ◌^◌, ◌≡◌, ◌≢◌, arith, Bool, [], Option, none, some,
}
use native.Mathlib.Nat
use work.Prelude.Int.{ℤ, pos, negsuc}
use work.Text.{Text}
use work.Job.{Any, null, uint, composite, Job, string, int, bool, float}
use work.Job.Arguments.{
  ArgType, t_string, t_int64, t_float64, t_bool, ArgError, missing_key, typecast, arg_of, read,
  read_value, as_string, as_int64, as_bool, arg_string, arg_int64, arg_float64, arg_bool,
  as_float64, int_of_float,
}

two_pos : (k : ℕ) → 0 < 2 ^ k
two_pos zero = omega arith
two_pos (suc k) = omega (arith, two_pos k)

-- Which values a reader of a type takes, and what it makes of them.
abbrev pub StringOf : Any → Text → Type 0
StringOf (string t) a = t ≡ a
StringOf _ a = ⊥

abbrev pub BoolOf : Any → Bool → Type 0
BoolOf (bool b) a = b ≡ a
BoolOf _ a = ⊥

-- An integer in the range of int64, or a float that is one of at most 9007199254740892 either way.
abbrev pub Int64Of : Any → ℤ → Type 0
Int64Of (int i) a = i ≡ a
Int64Of (uint n) a = (n ≤ 9223372036854775807) × (pos n ≡ a)
Int64Of (float (pos m) k) a = (n : ℕ) × (n ≤ 9007199254740892) × (m ≡ n * 2 ^ k) × (pos n ≡ a)
Int64Of (float (negsuc m) k) a =
    (n : ℕ) × (suc n ≤ 9007199254740892) × (suc m ≡ suc n * 2 ^ k) × (negsuc n ≡ a)
Int64Of _ a = ⊥

abbrev pub Float64Of : (ℤ → ℤ × ℕ) → Any → ℤ × ℕ → Type 0
Float64Of round (int i) a = round i ≡ a
Float64Of round (uint n) a = round (pos n) ≡ a
Float64Of round (float m k) a = (m, k) ≡ a
Float64Of round _ a = ⊥

-- What a reader is to give: the value, with the error as it was; or the default, with the error of a
-- missing key or of a value of another type.
abbrev pub ReadsRight :
    {A : Type 0}
    → (Any → A → Type 0)
    → ArgType
    → Text
    → A
    → Option Any
    → Option ArgError
    → A × Option ArgError
    → Type 0
ReadsRight Of t key default none e r = r ≡ (default, some (missing_key t key))
ReadsRight {A} Of t key default (some v) e r =
    ((a : A) × Of v a × (r ≡ (a, e)))
    ⊎ (((a : A) → ¬ Of v a) × (r ≡ (default, some (typecast t key v))))

-- A conversion decides the relation.
abbrev Decides : {A : Type 0} → (Any → A → Type 0) → Any → Option A → Type 0
Decides {A} Of v o = ((a : A) × Of v a × (o ≡ some a)) ⊎ (((a : A) → ¬ Of v a) × (o ≡ none))

read-right :
    {A : Type 0} (Of : Any → A → Type 0) (t : ArgType) (typed : Any → Option A) (default : A)
    (key : Text) (found : Option Any) (e : Option ArgError)
    → ((v : Any) → Decides Of v (typed v))
    → ReadsRight Of t key default found e (read t typed default key found e)
unfolding read read_value
read-right Of t typed default key none e decides = refl
read-right Of t typed default key (some v) e decides = elim (decides v) [
  | inl (a, of, is) ↦ inl (a, of, rw is refl)
  | inr (nothing, is) ↦ inr (nothing, rw is refl)
]

as_string-Decides : (v : Any) → Decides StringOf v (as_string v)
unfolding as_string
as_string-Decides null = inr ((λ a h. h), refl)
as_string-Decides (bool b) = inr ((λ a h. h), refl)
as_string-Decides (string t) = inl (t, refl, refl)
as_string-Decides (int i) = inr ((λ a h. h), refl)
as_string-Decides (uint n) = inr ((λ a h. h), refl)
as_string-Decides (float m k) = inr ((λ a h. h), refl)
as_string-Decides (composite t) = inr ((λ a h. h), refl)

as_bool-Decides : (v : Any) → Decides BoolOf v (as_bool v)
unfolding as_bool
as_bool-Decides null = inr ((λ a h. h), refl)
as_bool-Decides (bool b) = inl (b, refl, refl)
as_bool-Decides (string t) = inr ((λ a h. h), refl)
as_bool-Decides (int i) = inr ((λ a h. h), refl)
as_bool-Decides (uint n) = inr ((λ a h. h), refl)
as_bool-Decides (float m k) = inr ((λ a h. h), refl)
as_bool-Decides (composite t) = inr ((λ a h. h), refl)

as_float64-Decides :
    (round : ℤ → ℤ × ℕ) (v : Any) → Decides (Float64Of round) v (as_float64 round v)
unfolding as_float64
as_float64-Decides round null = inr ((λ a h. h), refl)
as_float64-Decides round (bool b) = inr ((λ a h. h), refl)
as_float64-Decides round (string t) = inr ((λ a h. h), refl)
as_float64-Decides round (int i) = inl (round i, refl, refl)
as_float64-Decides round (uint n) = inl (round (pos n), refl, refl)
as_float64-Decides round (float m k) = inl ((m, k), refl, refl)
as_float64-Decides round (composite t) = inr ((λ a h. h), refl)

-- A float that is the integer n is found to be n.
quotient : (m n k : ℕ) → m ≡ n * 2 ^ k → (m / 2 ^ k ≡ n) × (m % 2 ^ k ≡ 0)
quotient m n k e =
    let q : m / 2 ^ k ≡ n = ap (λ x. x / 2 ^ k) e ∙ Nat.mul-div_cancel n (two_pos k) in
    (q, omega (arith, Nat.mod-eq-sub-div-mul m (2 ^ k), ap (λ x. x * 2 ^ k) q, e))

above : (n most : ℕ) → leb n most ≡ false → most < n
above n most e = ground (arith, e)

not_zero : (n : ℕ) → (n == 0) ≡ false → n ≢ 0
not_zero n e = ground (arith, e)

whole : (m k : ℕ) → m % 2 ^ k ≡ 0 → m ≡ (m / 2 ^ k) * 2 ^ k
whole m k e = omega (arith, e, Nat.mod-eq-sub-div-mul m (2 ^ k), Nat.div-mul-le_self m (2 ^ k))

some_quotient : (m k : ℕ) → m + 1 ≡ ((m + 1) / 2 ^ k) * 2 ^ k → 0 < (m + 1) / 2 ^ k
some_quotient m k e = elim (Bool-cases ((m + 1) / 2 ^ k == 0)) [
  | inl z ↦
      let zero_is : (m + 1) / 2 ^ k ≡ 0 = ground (arith, z) in
      absurd (omega (arith, e ∙ ap (λ x. x * 2 ^ k) zero_is))
  | inr z ↦ ground (arith, z)
]

as_int64-Decides : (v : Any) → Decides Int64Of v (as_int64 v)
unfolding as_int64 int_of_float
as_int64-Decides null = inr ((λ a h. h), refl)
as_int64-Decides (bool b) = inr ((λ a h. h), refl)
as_int64-Decides (string t) = inr ((λ a h. h), refl)
as_int64-Decides (int i) = inl (i, refl, refl)
as_int64-Decides (uint n) = elim (Bool-cases (leb n 9223372036854775807)) [
  | inl e ↦ inl (pos n, (ground (arith, e), refl), rw e refl)
  | inr e ↦ inr ((λ a h. omega (arith, h.0, above n 9223372036854775807 e)), rw e refl)
]
as_int64-Decides (float (pos m) k) = elim (Bool-cases (m % 2 ^ k == 0)) [
  | inl e ↦ elim (Bool-cases (leb (m / 2 ^ k) 9007199254740892)) [
    | inl f ↦ inl (
      pos (m / 2 ^ k),
      (m / 2 ^ k, ground (arith, f), whole m k (ground (arith, e)), refl),
      rw (e, f) refl,
    )
    | inr f ↦ inr (
      (λ a (n, small, is, _).
          let (q, _) = quotient m n k is in
          let big = above (m / 2 ^ k) 9007199254740892 f in absurd (omega arith)),
      rw (e, f) refl,
    )
  ]
  | inr e ↦ inr (
    (λ a (n, small, is, _). let (_, r) = quotient m n k is in absurd (not_zero (m % 2 ^ k) e r)),
    rw e refl,
  )
]
as_int64-Decides (float (negsuc m) k) = elim (Bool-cases ((m + 1) % 2 ^ k == 0)) [
  | inl e ↦ elim (Bool-cases (leb ((m + 1) / 2 ^ k) 9007199254740892)) [
    | inl f ↦
        let is = whole (m + 1) k (ground (arith, e)) in
        let positive = some_quotient m k is in
        let n = (m + 1) / 2 ^ k - 1 in
        let small : (m + 1) / 2 ^ k ≤ 9007199254740892 = ground (arith, f) in
        let next : suc n ≡ (m + 1) / 2 ^ k = omega arith in
        inl (
          negsuc n,
          (n, omega (arith, next), omega (arith, is) ∙ ap (λ x. x * 2 ^ k) (sym next), refl),
          rw (e, f) refl,
        )
    | inr f ↦ inr (
      (λ a (n, small, is, _).
          let (q, _) = quotient (m + 1) (suc n) k (omega (arith, is)) in
          let big = above ((m + 1) / 2 ^ k) 9007199254740892 f in absurd (omega arith)),
      rw (e, f) refl,
    )
  ]
  | inr e ↦ inr (
    (λ a (n, small, is, _).
        let (_, r) = quotient (m + 1) (suc n) k (omega (arith, is)) in
        absurd (not_zero ((m + 1) % 2 ^ k) e r)),
    rw e refl,
  )
]
as_int64-Decides (composite t) = inr ((λ a h. h), refl)

-- Each reader of an argument is right: if the argument is there and of the reader's type, it gives the
-- value, and the error for ArgError stays as it was, so that one that was set is never cleared; if not,
-- it gives the zero value, and the error becomes that of the missing key, or of the value's type. A
-- reader of int64 takes integers in that range, and floats that are integers of at most
-- 9007199254740892 either way; one of float64 takes all numbers. `round` is the conversion of an
-- integer to float64.
pub args_read :
    (round : ℤ → ℤ × ℕ) (key : Text) (j : Job) (e : Option ArgError)
    → let found = arg_of key j.args in
      ReadsRight StringOf t_string key [] found e (arg_string key j e)
      × ReadsRight Int64Of t_int64 key (pos 0) found e (arg_int64 key j e)
      × ReadsRight (Float64Of round) t_float64 key (pos 0, 0) found e (arg_float64 round key j e)
      × ReadsRight BoolOf t_bool key false found e (arg_bool key j e)
unfolding arg_string arg_int64 arg_float64 arg_bool
args_read round key j e =
    let found = arg_of key j.args in
    (
      read-right StringOf _ as_string _ key found e as_string-Decides,
      read-right Int64Of _ as_int64 _ key found e as_int64-Decides,
      read-right (Float64Of round) _ (as_float64 round) _ key found e (as_float64-Decides round),
      read-right BoolOf _ as_bool _ key found e as_bool-Decides,
    )

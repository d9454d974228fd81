-- ===== src/Pool/Weights.antt =====
-- The sampler that the workers build from the registered job types.
use work.Prelude.{
  ℕ, suc, ◌+◌, ◌*◌, ◌≡◌, ◌≤◌, ◌<◌, refl, arith, List, [], ◌∷◌, Option, none, some, All, length,
  Option-cases, ◌≢◌, ap, inl, inr, ◌⊎◌, if_pos, if_neg, subst,
}
use work.Text.{Text, Text-discrete}
use work.Sampler.{PrioritySampler, empty, add}
use work.Sampler.Slices.{sum_from, sum_from-append}
use work.Sampler.Rounds.{IsValid, add-IsValid}
use work.Worker.{JobType, sampler_of, keys_of}
use work.Pool.{FnType, apply_defaults_and_validate, put_type, job_with_options}
use work.Scripts.Fetch.{FetchKeys}

-- The options are within their bounds.
abbrev pub IsChecked : JobType → Type 0
IsChecked jt = (0 < jt.priority) × (jt.priority ≤ 100000) × (0 < jt.max_fails)

checked : (opts jt : JobType) → apply_defaults_and_validate opts ≡ some jt → IsChecked jt
unfolding apply_defaults_and_validate
checked opts jt e = (ground (arith, e), ground (arith, e), ground (arith, e))

put_type-IsChecked :
    (jt : JobType) (jts : List JobType)
    → IsChecked jt
    → All IsChecked jts
    → All IsChecked (put_type jt jts)
unfolding put_type
put_type-IsChecked jt [] h hs = (h, tt)
put_type-IsChecked jt (k ∷ jts) h (hk, hs) =
    let rest = put_type-IsChecked jt jts h hs in
    elim (Text-discrete k.name jt.name) [
      | yes e ↦ rw (if_pos _ e) (h, hs)
      | no e ↦ rw (if_neg _ e) (hk, rest)
    ]

length-put_type : (jt : JobType) (jts : List JobType) → length (put_type jt jts) ≤ suc (length jts)
unfolding put_type
length-put_type jt [] = omega arith
length-put_type jt (k ∷ jts) = ground (arith, length-put_type jt jts)

-- Registering job types one after the other.
abbrev pub registered : Text → List (JobType × FnType) → List JobType → Option (List JobType)
registered ctx [] jts = some jts
registered ctx ((opts, fn) ∷ rs) jts = elim (job_with_options ctx opts fn jts) [
  | none ↦ none
  | some more ↦ registered ctx rs more
]

sum_add :
    (p : ℕ) (k : FetchKeys) (s : PrioritySampler)
    → sum_from 0 (add p k s).samples ≡ sum_from 0 s.samples + p
unfolding add
sum_add p k s = omega (arith, sum_from-append s.samples (record { priority = p; payload = k } ∷ []))

sampler_of-IsValid :
    (ns pool : Text) (jts : List JobType) (s : PrioritySampler)
    → All IsChecked jts
    → sum_from 0 s.samples + 100000 * length jts < 18446744073709551616
    → IsValid s
    → IsValid (sampler_of ns pool jts s)
unfolding sampler_of
sampler_of-IsValid ns pool [] s h small v = v
sampler_of-IsValid ns pool (jt ∷ jts) s h small v =
    let (low, high, fails) = h.0 in
    let k = keys_of ns pool jt.name in
    sampler_of-IsValid ns pool jts (add jt.priority k s) h.1
      (omega (arith, high, small, sum_add jt.priority k s))
      (add-IsValid jt.priority k s low (omega (arith, high, small)) v)

none-ne-some : {A : Type 0} {a : A} → none ≢ some a
none-ne-some e = ground (arith, e)

-- An accepted registration puts checked options among the job types.
accepted :
    (ctx : Text) (opts : JobType) (fn : FnType) (jts more : List JobType)
    → job_with_options ctx opts fn jts ≡ some more
    → (jt : JobType) × (apply_defaults_and_validate opts ≡ some jt) × (put_type jt jts ≡ more)
unfolding job_with_options
accepted ctx opts fn jts more e = by (Option-cases (apply_defaults_and_validate opts))
  where
    by :
        (apply_defaults_and_validate opts ≡ none)
          ⊎ ((jt : JobType) × (apply_defaults_and_validate opts ≡ some jt))
        → (jt : JobType) × (apply_defaults_and_validate opts ≡ some jt) × (put_type jt jts ≡ more)
    by (inl f) = absurd (none-ne-some (rw (f, job_with_options) at e))
    by (inr (jt, f)) = (jt, f, ground (arith, e, f))

registered-IsChecked :
    (ctx : Text) (rs : List (JobType × FnType)) (jts out : List JobType)
    → All IsChecked jts
    → registered ctx rs jts ≡ some out
    → All IsChecked out × (length out ≤ length rs + length jts)
registered-IsChecked ctx [] jts out h e =
    let same : jts ≡ out = ground (arith, e) in
    (subst (All IsChecked) same h, omega (arith, ap length same))
registered-IsChecked ctx ((opts, fn) ∷ rs) jts out h e =
    by (λ more c f. registered-IsChecked ctx rs more out c f)
      (Option-cases (job_with_options ctx opts fn jts))
  where
    by :
        ((more : List JobType)
          → All IsChecked more
          → registered ctx rs more ≡ some out
          → All IsChecked out × (length out ≤ length rs + length more))
        → (job_with_options ctx opts fn jts ≡ none)
          ⊎ ((more : List JobType) × (job_with_options ctx opts fn jts ≡ some more))
        → All IsChecked out × (length out ≤ suc (length rs) + length jts)
    by go (inl f) = absurd (none-ne-some (rw (f, registered) at e))
    by go (inr (more, f)) =
        let (jt, found, put) = accepted ctx opts fn jts more f in
        let (c, n) =
          go more (subst (All IsChecked) put (put_type-IsChecked jt jts (checked opts jt found) h))
            (rw (f, registered) at e) in
        (c, omega (arith, n, ap length put, length-put_type jt jts))

-- If every registration is accepted, and there are fewer than 2 ^ 64 / 100000 of them, the sampler that
-- the workers build from the job types is valid: its sum does not wrap and no priority is zero.
pub registered-IsValid :
    (ctx ns pool : Text) (rs : List (JobType × FnType)) (jts : List JobType)
    → registered ctx rs [] ≡ some jts
    → 100000 * length rs < 18446744073709551616
    → IsValid (sampler_of ns pool jts empty)
unfolding empty
registered-IsValid ctx ns pool rs jts e few =
    let (c, n) = registered-IsChecked ctx rs [] jts tt e in
    sampler_of-IsValid ns pool jts empty c (omega (arith, n, few))
      (record { summed = refl; small = omega arith; positive = tt })

-- ===== src/Sampler/Scan.antt =====
-- The inner loop of the sampler, over the number drawn.
use native.Mathlib.Nat.{add-suc, add-zero}
use work.Prelude.{
  ℕ, suc, zero, ◌+◌, ◌-◌, ◌<◌, ◌≤◌, ◌≡◌, List, some, length, get_elem?, arith, dec_lt, ltb, false,
  sym,
}
use work.Sampler.{SampleItem, priority_at, u64, add_u64, scan}
use work.Sampler.Slices.{sum_from, sum_from-suc, sum_from-le, sum_from-length, get_elem?-priority}

-- The numbers that fit the sample at i: as many as its priority.
pub record Fits (xs : List SampleItem) (rn i : ℕ) : Type 0 where
  pub above : sum_from (suc i) xs ≤ rn
  pub under : rn < sum_from i xs

module _ (n last rn prev : ℕ) (xs : List SampleItem) (x : SampleItem)
    (at : get_elem? xs (last + n) ≡ some x) (small : x.priority + prev < u64) where
  scan_hit : rn < x.priority + prev → scan (suc n) last rn prev xs ≡ some (last + n)
  unfolding scan
  scan_hit h = rw (at, scan) (ground arith)

  scan_miss :
      x.priority + prev ≤ rn → scan (suc n) last rn prev xs ≡ scan n last rn (x.priority + prev) xs
  unfolding scan
  scan_miss h =
      let over : add_u64 x.priority prev ≡ x.priority + prev = omega arith in
      let next : add_u64 prev x.priority ≡ x.priority + prev = omega arith in
      let test : ltb rn (x.priority + prev) ≡ false = ground arith in
      rw (at, scan) (rw (over) (rw test (rw next)))

abbrev pub Found : ℕ → ℕ → ℕ → ℕ → List SampleItem → Type 0
Found n last rn prev xs =
    (i : ℕ) × (scan n last rn prev xs ≡ some i) × (last ≤ i) × (i < last + n) × Fits xs rn i

pub scan_from :
    (n last rn prev : ℕ) (xs : List SampleItem)
    → last + n ≤ length xs
    → sum_from 0 xs < u64
    → prev ≡ sum_from (last + n) xs
    → prev ≤ rn
    → rn < sum_from last xs
    → Found n last rn prev xs
scan_from zero last rn prev xs room small e lo hi =
    let g : prev ≡ sum_from last xs = rw add-zero at e in absurd (omega arith)
scan_from (suc n) last rn prev xs room small e lo hi =
    step (get_elem?-priority (last + n) xs (omega arith)) (rw add-suc at e) (scan_from n last rn)
  where
    step :
        ((x : SampleItem) × (get_elem? xs (last + n) ≡ some x)
          × (x.priority ≡ priority_at xs (last + n)))
        → prev ≡ sum_from (suc (last + n)) xs
        → ((p : ℕ) (ys : List SampleItem)
            → last + n ≤ length ys
            → sum_from 0 ys < u64
            → p ≡ sum_from (last + n) ys
            → p ≤ rn
            → rn < sum_from last ys
            → Found n last rn p ys)
        → Found (suc n) last rn prev xs
    step (x, at, p) f rec =
        let total : x.priority + prev ≡ sum_from (last + n) xs =
          omega (arith, sum_from-suc (last + n) xs) in
        let fine : x.priority + prev < u64 = omega (arith, sum_from-le (last + n) xs) in
        elim (dec_lt rn (x.priority + prev)) [
          | yes h ↦ (
            last + n,
            scan_hit n last rn prev xs x at fine h,
            omega arith,
            omega arith,
            record { above = omega arith; under = omega arith },
          )
          | no h ↦
              let (i, found, lo', hi', fits) =
                rec (x.priority + prev) xs (omega arith) small total (omega arith) hi in
              (
                i,
                rw (scan_miss n last rn prev xs x at fine (omega arith)) found,
                lo',
                omega arith,
                fits,
              )
        ]

-- In the round for the slot `last`, a number below the sum of the samples not yet placed selects one
-- of them, and a sample is selected by an interval of numbers as long as its priority: those from
-- the sum of the priorities behind it on.
pub scan_weighted :
    (xs : List SampleItem) (last rn : ℕ)
    → last ≤ length xs
    → sum_from 0 xs < u64
    → rn < sum_from last xs
    → (i : ℕ) × (scan (length xs - last) last rn 0 xs ≡ some i)
      × (last ≤ i)
      × (i < length xs)
      × (sum_from (suc i) xs ≤ rn)
      × (rn < sum_from (suc i) xs + priority_at xs i)
scan_weighted xs last rn room small h =
    let reach : last + (length xs - last) ≡ length xs = omega arith in
    let (i, found, lo, hi, fits) =
      scan_from (length xs - last) last rn 0 xs (omega arith) small
        (rw reach (sym (sum_from-length xs))) (omega arith) h in
    (i, found, lo, omega arith, fits.above, omega (arith, sum_from-suc i xs))

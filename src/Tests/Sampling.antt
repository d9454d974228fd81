-- ===== src/Tests/Sampling.antt =====
-- Examples of the sampler.
use work.Prelude.{suc, ℕ, ◌≡◌, ◌≤◌, ◌<◌, ◌+◌, ◌-◌, refl, arith, [], ◌∷◌, some, length}
use work.Text.{text}
use work.Scripts.Fetch.{FetchKeys}
use work.Sampler.{PrioritySampler, sample, scan, priority_at}
use work.Sampler.Slices.{sum_from}
use work.Sampler.Rounds.{IsValid, sample-IsValid}
use mathlib.Core.List.{Perm}
use work.Sampler.Scan.{scan_weighted}

abbrev keys : FetchKeys
keys = record {
  job_queue = text "q";
  in_prog_queue = text "p";
  pause_key = text "s";
  lock_key = text "l";
  lock_info_key = text "i";
  concurrency_key = text "c";
}

abbrev three : PrioritySampler
three = record {
  sum = 6;
  samples =
      record { priority = 1; payload = keys }
      ∷ record { priority = 2; payload = keys }
      ∷ record { priority = 3; payload = keys }
      ∷ [];
}

three-IsValid : IsValid three
three-IsValid = record {
  summed = refl;
  small = omega arith;
  positive = (omega arith, (omega arith, (omega arith, tt)));
}

sample-IsValid_example :
    (t : PrioritySampler) × (sample (λ n. n + 4) three ≡ some t)
    × Perm t.samples three.samples
    × IsValid t
sample-IsValid_example = sample-IsValid (λ n. n + 4) three three-IsValid

scan_weighted_example :
    (i : ℕ) × (scan (length three.samples - 1) 1 3 0 three.samples ≡ some i)
    × (1 ≤ i)
    × (i < length three.samples)
    × (sum_from (suc i) three.samples ≤ 3)
    × (3 < sum_from (suc i) three.samples + priority_at three.samples i)
scan_weighted_example = scan_weighted three.samples 1 3 (omega arith) (omega arith) (omega arith)

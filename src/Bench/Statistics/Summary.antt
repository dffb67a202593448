-- ===== src/Bench/Statistics/Summary.antt =====
-- What the statistics promise: nearest-rank percentiles, in order between the least and the greatest
-- latency.
pub mod Picked
use radish.Shared.{
  ℕ, zero, suc, ◌+◌, ◌*◌, ◌-◌, ◌<◌, ◌≤◌, ◌^◌, false, List, [], ◌∷◌, ◌≡◌, refl, ap, ◌∙◌, arith,
  length, All, ok,
}
use radish.Bench.Statistics.{
  Double, BenchmarkStatistics, element, sort, add_samples, at_least_one, rank, benchmark_percentile,
  summarize, calculate_benchmark_statistics,
}
use radish.Bench.Statistics.Sorting.{
  count_le, count_lt, sum, length-sort, sum-sort, count_le-sort, count_lt-sort, sort-IsSorted,
  add_samples-sum,
}
use radish.Bench.Statistics.Elements.{element-count, element-monotone, count_le-length}

-- The least integer that is not below the fraction `a / b` of `n`.
abbrev pub IsCeiling : ℕ → ℕ → ℕ → ℕ → Type 0
IsCeiling a b n r = (a * n ≤ b * r) × (b * r < a * n + b)

-- What IEEE arithmetic has of the operations on `double`, where it rounds to nearest. A literal times
-- a size below 2^40 is less than 1/200 away from the exact fraction, and is the fraction where that
-- is an integer, so that its ceiling is that of the fraction.
pub record IsRounded {ℓ} {W : Type ℓ} ⦃d : Double W⦄ (le : W → W → Type 0) : Type ℓ where
  pub milliseconds_monotone : (a b : ℕ) → a ≤ b → le (d.milliseconds a) (d.milliseconds b)
  pub ceil_half :
      (n : ℕ) → n < 2 ^ 40 → IsCeiling 1 2 n (d.ceil_size (d.times d.half (d.from_size n)))
  pub ceil_99 :
      (n : ℕ) → n < 2 ^ 40 → IsCeiling 99 100 n (d.ceil_size (d.times d.literal_99 (d.from_size n)))
  pub ceil_995 :
      (n : ℕ)
      → n < 2 ^ 40
      → IsCeiling 995 1000 n (d.ceil_size (d.times d.literal_995 (d.from_size n)))

module _ {ℓ} {W : Type ℓ} ⦃d : Double W⦄ (le : W → W → Type 0) where
  -- The milliseconds of the sample of the nearest rank, which is the fraction `a / b` of the number
  -- of samples, rounded up: at least so many samples are at most that one, and fewer are less.
  abbrev pub IsNearestRank : ℕ → ℕ → List ℕ → W → Type ℓ
  IsNearestRank a b samples value =
      (r : ℕ) × (v : ℕ) × IsCeiling a b (length samples) r
      × (value ≡ d.milliseconds v)
      × (r ≤ count_le v samples)
      × (count_lt v samples < r)

  pub record IsSummary (samples : List ℕ) (errors : ℕ) (duration : W) (s : BenchmarkStatistics W)
      : Type ℓ where
    pub counted : (s.operations ≡ length samples) × (s.errors ≡ errors)
    pub throughput : s.throughput ≡ d.divided (d.from_size (length samples)) duration
    pub mean :
        s.mean_milliseconds
        ≡ d.divided (d.milliseconds (sum samples)) (d.from_size (length samples))
    pub p50 : IsNearestRank 1 2 samples s.p50_milliseconds
    pub p99 : IsNearestRank 99 100 samples s.p99_milliseconds
    pub p995 : IsNearestRank 995 1000 samples s.p995_milliseconds
    pub ordered :
        le s.minimum_milliseconds s.p50_milliseconds
        × le s.p50_milliseconds s.p99_milliseconds
        × le s.p99_milliseconds s.p995_milliseconds
        × le s.p995_milliseconds s.maximum_milliseconds
    pub extremes :
        All
          (λ x.
            le s.minimum_milliseconds (d.milliseconds x)
            × le (d.milliseconds x) s.maximum_milliseconds)
          samples

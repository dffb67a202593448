-- ===== src/Bench/Statistics.antt =====
-- include/benchmark/BenchmarkStatistics.h: what the client makes of the latencies it measured. The
-- nanoseconds are not negative here, as the clock is steady.
pub mod Sorting
pub mod Elements
pub mod Summary
mod Tests
use radish.Shared.{
  ℕ, zero, suc, ◌+◌, ◌-◌, ◌^◌, ◌<◌, ◌≤◌, Bool, true, false, ◌||◌, List, [], ◌∷◌, ◌≡◌, length, leb,
  ltb, if◌then◌else◌, Result, ok, err, ◌>>=◌, undefined_behaviour, samples_required,
}

-- All that the code does with a `double`: conversions, the literals, `*`, `/`, `std::ceil` with the
-- cast to a `size_t`, and the test of the duration.
pub record Double {ℓ} (W : Type ℓ) : Type ℓ where
  pub from_size : ℕ → W
  pub milliseconds : ℕ → W
  pub half : W
  pub literal_99 : W
  pub literal_995 : W
  pub times : W → W → W
  pub divided : W → W → W
  pub ceil_size : W → ℕ
  pub le_zero : W → Bool

pub record BenchmarkStatistics {ℓ} (W : Type ℓ) : Type ℓ where
  pub operations : ℕ
  pub errors : ℕ
  pub throughput : W
  pub minimum_milliseconds : W
  pub mean_milliseconds : W
  pub p50_milliseconds : W
  pub p99_milliseconds : W
  pub p995_milliseconds : W
  pub maximum_milliseconds : W

-- `samples[index]`, which has no defined result behind the end.
unfoldable pub element : ℕ → List ℕ → Result ℕ
element index [] = err undefined_behaviour
element zero (sample ∷ samples) = ok sample
element (suc index) (sample ∷ samples) = element index samples

-- `std::sort`, as an insertion of each element into the sorted ones.
unfoldable pub insert : ℕ → List ℕ → List ℕ
insert x [] = x ∷ []
insert x (y ∷ ys) = let rest = insert x ys in if leb x y then x ∷ y ∷ ys else y ∷ rest

unfoldable pub sort : List ℕ → List ℕ
unfolding insert
sort [] = []
sort (x ∷ xs) = insert x (sort xs)

-- The sum of the nanoseconds, which has no defined result from 2^63 on.
unfoldable pub add_samples : ℕ → List ℕ → Result ℕ
add_samples total [] = ok total
add_samples total (sample ∷ samples) =
    let rest = add_samples (total + sample) samples in
    if leb (2 ^ 63) (total + sample) then err undefined_behaviour else rest

abbrev pub at_least_one : ℕ → ℕ
at_least_one zero = 1
at_least_one (suc n) = suc n

module _ {ℓ} {W : Type ℓ} ⦃d : Double W⦄ where
  unfoldable pub rank : W → ℕ → ℕ
  rank percentile n = d.ceil_size (d.times percentile (d.from_size n))

  unfoldable pub benchmark_percentile : List ℕ → W → Result ℕ
  unfolding element rank
  benchmark_percentile samples percentile =
      element (at_least_one (rank percentile (length samples)) - 1) samples

  -- The statistics of samples that are sorted.
  unfoldable pub summarize : List ℕ → ℕ → W → Result (BenchmarkStatistics W)
  unfolding benchmark_percentile add_samples
  summarize samples errors duration_seconds = do
    total ← add_samples 0 samples
    first ← element 0 samples
    p50 ← benchmark_percentile samples d.half
    p99 ← benchmark_percentile samples d.literal_99
    p995 ← benchmark_percentile samples d.literal_995
    last ← element (length samples - 1) samples
    ok (record {
      operations = length samples;
      errors = errors;
      throughput = d.divided (d.from_size (length samples)) duration_seconds;
      minimum_milliseconds = d.milliseconds first;
      mean_milliseconds = d.divided (d.milliseconds total) (d.from_size (length samples));
      p50_milliseconds = d.milliseconds p50;
      p99_milliseconds = d.milliseconds p99;
      p995_milliseconds = d.milliseconds p995;
      maximum_milliseconds = d.milliseconds last;
    })

  unfoldable pub calculate_benchmark_statistics : List ℕ → ℕ → W → Result (BenchmarkStatistics W)
  unfolding summarize sort
  calculate_benchmark_statistics [] errors duration_seconds = err samples_required
  calculate_benchmark_statistics (sample ∷ samples) errors duration_seconds =
      if d.le_zero duration_seconds
      then err samples_required
      else summarize (sort (sample ∷ samples)) errors duration_seconds

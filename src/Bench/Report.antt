-- ===== src/Bench/Report.antt =====
-- The end of `main` of benchmarks/RadishBench.cpp: the results of the workers put together. A worker
-- that threw has its exception in place of a result.
use radish.Shared.{
  ℕ, ◌+◌, ◌^◌, ◌<◌, false, List, [], ◌∷◌, ◌++◌, ◌≡◌, refl, sym, ap, ◌∙◌, arith, length, map, joined,
  append_assoc, append-nil, Result, ok, ◌>>=◌,
}
use radish.Bench.Options.{BenchOptions}
use radish.Bench.Workload.{wrap}
use radish.Bench.Worker.{WorkerResult}
use radish.Bench.Statistics.{Double, BenchmarkStatistics, calculate_benchmark_statistics}
use radish.Bench.Statistics.Sorting.{sum}
use radish.Bench.Statistics.Summary.{IsRounded, IsSummary}
use radish.Bench.Statistics.Summary.Picked.{statistics-IsSummary}

-- The first exception is thrown again.
unfoldable pub rethrow : List (Result WorkerResult) → Result (List WorkerResult)
rethrow [] = ok []
rethrow (result ∷ results) = do r ← result; rs ← rethrow results; ok (r ∷ rs)

-- The loop over the results: the samples and the errors.
unfoldable pub gather : List ℕ → ℕ → List WorkerResult → List ℕ × ℕ
gather samples errors [] = (samples, errors)
gather samples errors (result ∷ results) =
    gather (samples ++ result.latencies) (wrap (errors + result.errors)) results

module _ {ℓ} {W : Type ℓ} ⦃d : Double W⦄ where
  unfoldable pub report : BenchOptions → List (Result WorkerResult) → Result (BenchmarkStatistics W)
  unfolding rethrow gather
  report options results = do
    rs ← rethrow results
    let (samples, errors) = gather [] 0 rs
    calculate_benchmark_statistics samples errors (d.from_size options.duration_seconds)

abbrev pub all_latencies : List WorkerResult → List ℕ
all_latencies results = joined (map (λ r. r.latencies) results)

abbrev pub all_errors : List WorkerResult → ℕ
all_errors results = sum (map (λ r. r.errors) results)

gather-all :
    (samples : List ℕ) (errors : ℕ) (results : List WorkerResult)
    → errors + all_errors results < 2 ^ 64
    → gather samples errors results
      ≡ (samples ++ all_latencies results, errors + all_errors results)
unfolding gather
gather-all samples errors [] h = λ i. (sym (append-nil samples) i, added i)
  where
    added : errors ≡ errors + 0
    added = omega arith
gather-all samples errors (result ∷ results) h =
    gather-all (samples ++ result.latencies) (wrap (errors + result.errors)) results (omega arith)
    ∙ λ i. (append_assoc samples result.latencies (all_latencies results) i, added i)
  where
    added :
        wrap (errors + result.errors) + all_errors results ≡ errors + all_errors (result ∷ results)
    added = omega (arith, h)

rethrow-ok : (results : List WorkerResult) → rethrow (map ok results) ≡ ok results
unfolding rethrow
rethrow-ok [] = refl
rethrow-ok (result ∷ results) = rw (rethrow-ok results) refl

-- Let the operations on doubles be rounded as IEEE arithmetic has it. If all workers ended with
-- a result, there is a latency and fewer than 2^40, their sum is below 2^63 and that of the
-- errors below 2^64, and the duration is positive, the report is made without an exception: it
-- has the number of latencies and of errors, the throughput and the mean from these and the
-- sum, for 50, 99 and 99.5 per cent the latency of the nearest rank, which is this fraction of
-- the number of latencies rounded up: at least so many latencies do not exceed it while fewer
-- are less; these percentiles in ascending order between the least and the greatest latency,
-- and all latencies between these two.
pub report-IsSummary {ℓ} :
    {W : Type ℓ} ⦃d : Double W⦄ (le : W → W → Type 0) (u : IsRounded le) (options : BenchOptions)
    (results : List WorkerResult)
    → 0 < length (all_latencies results)
    → length (all_latencies results) < 2 ^ 40
    → sum (all_latencies results) < 2 ^ 63
    → all_errors results < 2 ^ 64
    → d.le_zero (d.from_size options.duration_seconds) ≡ false
    → (s : BenchmarkStatistics W) × (report options (map ok results) ≡ ok s)
      × IsSummary le
          (all_latencies results)
          (all_errors results)
          (d.from_size options.duration_seconds)
          s
unfolding report
report-IsSummary ⦃d⦄ le u options results some few small counted positive =
    let seconds = d.from_size options.duration_seconds in
    let (s, made, summary) =
      statistics-IsSummary le u (all_latencies results) (all_errors results) seconds some few small
        positive in
    (
      s,
      rw (rethrow-ok results, gather-all [] 0 results (omega arith))
          (ap (λ n. calculate_benchmark_statistics (all_latencies results) n seconds) none_before
            ∙ made),
      summary,
    )
  where
    none_before : 0 + all_errors results ≡ all_errors results
    none_before = omega arith

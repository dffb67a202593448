-- ===== src/Bench/Statistics/Tests.antt =====
-- An instance of the theorem on the statistics, with numbers in thousandths in place of `double`.
use radish.Shared.{ℕ, ◌+◌, ◌*◌, ◌/◌, ◌≤◌, List, [], ◌∷◌, ◌≡◌, refl, arith, map, ◌==◌, ok}
use radish.Bench.Statistics.{Double, BenchmarkStatistics}
use radish.Bench.Statistics.Summary.{IsRounded, IsSummary}
use radish.Bench.Worker.{WorkerResult}
use radish.Binary.{string_value}
use radish.Bench.Report.{report, all_latencies, all_errors, report-IsSummary}
use radish.Bench.Tests.{small_options}

instance abbrev thousandths : Double ℕ
thousandths = record {
  from_size = λ n. 1000 * n;
  milliseconds = λ n. n / 1000;
  half = 500;
  literal_99 = 990;
  literal_995 = 995;
  times = λ p x. p * x / 1000;
  divided = λ x y. x * 1000 / y;
  ceil_size = λ x. (x + 999) / 1000;
  le_zero = λ x. x == 0;
}

thousandths-IsRounded : IsRounded (λ x y. x ≤ y)
thousandths-IsRounded = record {
  milliseconds_monotone = λ a b h. omega arith;
  ceil_half = λ n h. omega arith;
  ceil_99 = λ n h. omega arith;
  ceil_995 = λ n h. omega arith;
}

abbrev two_results : List WorkerResult
two_results =
    (record { latencies = 3000 ∷ 1000 ∷ []; errors = 1 })
    ∷ (record { latencies = 2000 ∷ []; errors = 0 })
    ∷ []

report-IsSummary_example :
    (s : BenchmarkStatistics ℕ) × (report small_options (map ok two_results) ≡ ok s)
    × IsSummary (λ x y. x ≤ y) (all_latencies two_results) (all_errors two_results) 1000 s
report-IsSummary_example =
    report-IsSummary (λ x y. x ≤ y) thousandths-IsRounded small_options two_results (omega arith)
      (omega arith) (omega arith) (omega arith) refl

-- ===== src/Bench/Statistics/Summary/Picked.antt =====
-- The samples that the statistics pick, and that they sum up all of them.
use radish.Shared.{
  ℕ, zero, suc, ◌-◌, ◌<◌, ◌≤◌, ◌^◌, false, List, [], ◌∷◌, ◌≡◌, refl, ap, ◌∙◌, arith, length, All,
  ok,
}
use radish.Bench.Statistics.{
  Double, BenchmarkStatistics, element, sort, add_samples, at_least_one, rank, benchmark_percentile,
  summarize, calculate_benchmark_statistics,
}
use radish.Bench.Statistics.Sorting.{
  count_le, count_lt, sum, length-sort, sum-sort, count_le-sort, count_lt-sort, sort-IsSorted,
  add_samples-sum,
}
use radish.Bench.Statistics.Elements.{element-count, element-monotone, count_le-length}
use radish.Bench.Statistics.Summary.{IsCeiling, IsRounded, IsNearestRank, IsSummary}

ranks_inside :
    (n a b c : ℕ)
    → 0 < n
    → IsCeiling 1 2 n a
    → IsCeiling 99 100 n b
    → IsCeiling 995 1000 n c
    → (0 < a) × (a ≤ b) × (b ≤ c) × (c ≤ n)
ranks_inside n a b c some h k l = (omega arith, omega arith, omega arith, omega arith)

module _ {ℓ} {W : Type ℓ} ⦃d : Double W⦄ (le : W → W → Type 0) where
  -- The statistics of a number of samples, their sum and the elements that are picked.
  abbrev made : ℕ → W → ℕ → ℕ → ℕ → ℕ → ℕ → ℕ → ℕ → BenchmarkStatistics W
  made errors duration n total first v50 v99 v995 last = record {
    operations = n;
    errors = errors;
    throughput = d.divided (d.from_size n) duration;
    minimum_milliseconds = d.milliseconds first;
    mean_milliseconds = d.divided (d.milliseconds total) (d.from_size n);
    p50_milliseconds = d.milliseconds v50;
    p99_milliseconds = d.milliseconds v99;
    p995_milliseconds = d.milliseconds v995;
    maximum_milliseconds = d.milliseconds last;
  }

  summarize-made :
      (ys : List ℕ) (errors : ℕ) (duration : W) (total first v50 v99 v995 last : ℕ)
      → add_samples 0 ys ≡ ok total
      → element 0 ys ≡ ok first
      → benchmark_percentile ys d.half ≡ ok v50
      → benchmark_percentile ys d.literal_99 ≡ ok v99
      → benchmark_percentile ys d.literal_995 ≡ ok v995
      → element (length ys - 1) ys ≡ ok last
      → summarize ys errors duration
        ≡ ok (made errors duration (length ys) total first v50 v99 v995 last)
  unfolding summarize
  summarize-made ys errors duration total first v50 v99 v995 last a b e f g h =
      rw (a, b, e, f, g, h) refl

  module _ (u : IsRounded le) where
    rank-half : (n : ℕ) → n < 2 ^ 40 → IsCeiling 1 2 n (rank d.half n)
    unfolding rank
    rank-half n h = u.ceil_half n h

    rank-99 : (n : ℕ) → n < 2 ^ 40 → IsCeiling 99 100 n (rank d.literal_99 n)
    unfolding rank
    rank-99 n h = u.ceil_99 n h

    rank-995 : (n : ℕ) → n < 2 ^ 40 → IsCeiling 995 1000 n (rank d.literal_995 n)
    unfolding rank
    rank-995 n h = u.ceil_995 n h

    bounded :
        (a b : ℕ) (xs : List ℕ)
        → count_lt a xs ≡ 0
        → count_le b xs ≡ length xs
        → All
            (λ x.
              le (d.milliseconds a) (d.milliseconds x) × le (d.milliseconds x) (d.milliseconds b))
            xs
    bounded a b [] h k = tt
    bounded a b (x ∷ xs) h k = (
      (
        u.milliseconds_monotone a x (ground (arith, h)),
        u.milliseconds_monotone x b (ground (arith, k, count_le-length b xs)),
      ),
      bounded a b xs (omega (arith, h)) (ground (arith, k, count_le-length b xs)),
    )

    -- The element of a rank between one and the number of samples.
    percentile :
        (xs : List ℕ) (p : W) (a b : ℕ)
        → IsCeiling a b (length xs) (rank p (length xs))
        → 0 < rank p (length xs)
        → rank p (length xs) ≤ length xs
        → (v : ℕ) × (benchmark_percentile (sort xs) p ≡ ok v)
          × (element (rank p (length xs) - 1) (sort xs) ≡ ok v)
          × IsNearestRank le a b xs (d.milliseconds v)
    unfolding benchmark_percentile
    percentile xs p a b ceiling some h =
        let r = rank p (length xs) in
        let (v, found, many, few) =
          element-count (r - 1) (sort xs) (sort-IsSorted xs) (omega (arith, length-sort xs)) in
        (
          v,
          ap (λ n. element (at_least_one (rank p n) - 1) (sort xs)) (length-sort xs)
              ∙ ap (λ n. element (n - 1) (sort xs)) (itself r some)
              ∙ found,
          found,
          (
            r,
            v,
            ceiling,
            refl,
            omega (arith, count_le-sort v xs),
            omega (arith, count_lt-sort v xs),
          ),
        )
      where
        itself : (r : ℕ) → 0 < r → at_least_one r ≡ r
        itself zero h = absurd (omega arith)
        itself (suc r) h = refl

    rising :
        (xs : List ℕ) (i j v w : ℕ)
        → i ≤ j
        → element i (sort xs) ≡ ok v
        → element j (sort xs) ≡ ok w
        → v ≤ w
    rising xs i j v w = element-monotone i j (sort xs) v w (sort-IsSorted xs)

    -- The samples at the first index, at three others that rise, and at the last one.
    ordered_samples :
        (xs : List ℕ) (i j k first v50 v99 v995 last : ℕ)
        → i ≤ j
        → j ≤ k
        → k ≤ length (sort xs) - 1
        → element 0 (sort xs) ≡ ok first
        → element i (sort xs) ≡ ok v50
        → element j (sort xs) ≡ ok v99
        → element k (sort xs) ≡ ok v995
        → element (length (sort xs) - 1) (sort xs) ≡ ok last
        → le (d.milliseconds first) (d.milliseconds v50)
          × le (d.milliseconds v50) (d.milliseconds v99)
          × le (d.milliseconds v99) (d.milliseconds v995)
          × le (d.milliseconds v995) (d.milliseconds last)
    ordered_samples xs i j k first v50 v99 v995 last p q r at_first at50 at99 at995 at_last = (
      u.milliseconds_monotone first v50 (rising xs 0 i first v50 (omega arith) at_first at50),
      u.milliseconds_monotone v50 v99 (rising xs i j v50 v99 p at50 at99),
      u.milliseconds_monotone v99 v995 (rising xs j k v99 v995 q at99 at995),
      u.milliseconds_monotone v995 last (rising xs k _ v995 last r at995 at_last),
    )

    -- What is made of samples, and that it sums them up.
    Made : List ℕ → ℕ → W → Type ℓ
    Made xs errors duration =
        (s : BenchmarkStatistics W) × (summarize (sort xs) errors duration ≡ ok s)
        × IsSummary le xs errors duration s

    Made-picked :
        (xs : List ℕ) (errors : ℕ) (duration : W) (i j k : ℕ)
        → 0 < length xs
        → sum xs < 2 ^ 63
        → i ≤ j
        → j ≤ k
        → k ≤ length (sort xs) - 1
        → (v50 : ℕ) × (benchmark_percentile (sort xs) d.half ≡ ok v50)
          × (element i (sort xs) ≡ ok v50)
          × IsNearestRank le 1 2 xs (d.milliseconds v50)
        → (v99 : ℕ) × (benchmark_percentile (sort xs) d.literal_99 ≡ ok v99)
          × (element j (sort xs) ≡ ok v99)
          × IsNearestRank le 99 100 xs (d.milliseconds v99)
        → (v995 : ℕ) × (benchmark_percentile (sort xs) d.literal_995 ≡ ok v995)
          × (element k (sort xs) ≡ ok v995)
          × IsNearestRank le 995 1000 xs (d.milliseconds v995)
        → Made xs errors duration
    unfolding Made
    Made-picked xs errors duration i j k some small p q r (v50, got50, at50, near50)
          (v99, got99, at99, near99) (v995, got995, at995, near995) =
        let n = length xs in
        let count = length-sort xs in
        let (first, at_first, many, none_less) =
          element-count 0 (sort xs) (sort-IsSorted xs) (omega arith) in
        let (last, at_last, all, few_less) =
          element-count (length (sort xs) - 1) (sort xs) (sort-IsSorted xs) (omega arith) in
        (
          made errors duration n (sum xs) first v50 v99 v995 last,
          summarize-made (sort xs) errors duration (sum xs) first v50 v99 v995 last
                (add_samples-sum 0 (sort xs) (omega (arith, sum-sort xs))
                  ∙ ap ok (omega (arith, sum-sort xs)))
                at_first got50 got99 got995 at_last
              ∙ ap (λ m. ok (made errors duration m (sum xs) first v50 v99 v995 last)) count,
          record {
            counted = (refl, refl);
            throughput = refl;
            mean = refl;
            p50 = near50;
            p99 = near99;
            p995 = near995;
            ordered =
                ordered_samples xs i j k first v50 v99 v995 last p q r at_first at50 at99 at995
                  at_last;
            extremes =
                bounded first last xs (omega (arith, count_lt-sort first xs))
                  (omega (arith, count_le-sort last xs, count_le-length last xs));
          },
        )

    sorted_summary :
        (xs : List ℕ) (errors : ℕ) (duration : W)
        → 0 < length xs
        → length xs < 2 ^ 40
        → sum xs < 2 ^ 63
        → Made xs errors duration
    sorted_summary xs errors duration some few small =
        let n = length xs in
        let (positive, rise, rise', inside) =
          ranks_inside n (rank d.half n) (rank d.literal_99 n) (rank d.literal_995 n) some
            (rank-half n few) (rank-99 n few) (rank-995 n few) in
        Made-picked xs errors duration (rank d.half n - 1) (rank d.literal_99 n - 1)
          (rank d.literal_995 n - 1) some small (omega (arith, rise)) (omega (arith, rise'))
          (omega (arith, inside, length-sort xs))
          (percentile xs d.half 1 2 (rank-half n few) positive (omega (arith, rise, rise', inside)))
          (percentile xs d.literal_99 99 100 (rank-99 n few) (omega (arith, positive, rise))
            (omega (arith, rise', inside)))
          (percentile xs d.literal_995 995 1000 (rank-995 n few)
            (omega (arith, positive, rise, rise')) inside)

    -- The statistics of samples that there are.
    pub statistics-IsSummary :
        (xs : List ℕ) (errors : ℕ) (duration : W)
        → 0 < length xs
        → length xs < 2 ^ 40
        → sum xs < 2 ^ 63
        → d.le_zero duration ≡ false
        → (s : BenchmarkStatistics W) × (calculate_benchmark_statistics xs errors duration ≡ ok s)
          × IsSummary le xs errors duration s
    unfolding calculate_benchmark_statistics Made
    statistics-IsSummary [] errors duration some few small positive = absurd (omega arith)
    statistics-IsSummary (x ∷ rest) errors duration some few small positive =
        let (s, e, summary) = sorted_summary (x ∷ rest) errors duration some few small in
        (s, rw positive e, summary)

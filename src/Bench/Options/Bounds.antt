-- ===== src/Bench/Options/Bounds.antt =====
-- The options that `ParseOptions` of the client lets through.
use radish.Shared.{
  ℕ, ◌<◌, ◌≤◌, ◌^◌, Bool, true, false, ◌||◌, ◌==◌, Option, none, some, List, [], ◌∷◌, ◌≡◌, refl,
  arith, Bytes, codes, bytes_eq, Bool-cases, if-elim, inl, inr, Result, ok, err, ◌>>=◌,
  not_positive, >>=-eq-ok, subst,
}
use radish.Decimal.{unsigned}
use radish.Options.{stoul, to_unsigned_long, take_sign, skip_spaces}
use radish.Bench.Options.{
  BenchOptions, default_bench_options, parse_bench_option, parse_bench_arguments, check_options,
  parse_bench_options,
}

-- The numbers fit in a `size_t` of 64 bits.
abbrev pub IsBounded : BenchOptions → Type 0
IsBounded options =
    (options.clients < 2 ^ 64)
    × (options.pipeline < 2 ^ 64)
    × (options.duration_seconds < 2 ^ 64)
    × (options.warmup_seconds < 2 ^ 64)
    × (options.key_count < 2 ^ 64)
    × (options.key_size < 2 ^ 64)
    × (options.value_size < 2 ^ 64)
    × (options.seed < 2 ^ 64)

abbrev pub IsPositive : BenchOptions → Type 0
IsPositive options =
    (1 ≤ options.clients)
    × (1 ≤ options.pipeline)
    × (1 ≤ options.key_count)
    × (1 ≤ options.key_size)

pub check_options-IsPositive :
    (options : BenchOptions) → IsPositive options → check_options options ≡ ok options
unfolding check_options
check_options-IsPositive options h = ground (arith, h)

-- An exception, or options that are bounded.
abbrev OkBounded : Result BenchOptions → Type 0
OkBounded (ok options) = IsBounded options
OkBounded (err e) = Unit

stoul-bound : (value : Bytes) (n : ℕ) → stoul value ≡ ok n → n < 2 ^ 64
unfolding stoul
stoul-bound value n h =
    bound (take_sign (skip_spaces value)).0 (unsigned (take_sign (skip_spaces value)).1) h
  where
    bound : (minus : Bool) (r : Option (ℕ × Bytes)) → to_unsigned_long minus r ≡ ok n → n < 2 ^ 64
    bound minus none h = absurd (unfold to_unsigned_long in cc)
    bound true (some (m, rest)) h = unfold to_unsigned_long in ground (arith, h)
    bound false (some (m, rest)) h = unfold to_unsigned_long in ground (arith, h)

number-OkBounded :
    (value : Bytes) (update : ℕ → BenchOptions)
    → ((n : ℕ) → n < 2 ^ 64 → IsBounded (update n))
    → OkBounded (stoul value >>= λ n. ok (update n))
number-OkBounded value update h = parsed (stoul value) (stoul-bound value)
  where
    parsed :
        (r : Result ℕ) → ((n : ℕ) → r ≡ ok n → n < 2 ^ 64) → OkBounded (r >>= λ n. ok (update n))
    parsed (ok n) k = h n (k n refl)
    parsed (err e) k = tt

parse_bench_option-OkBounded :
    (option value : Bytes) (o : BenchOptions)
    → IsBounded o
    → OkBounded (parse_bench_option option value o)
unfolding parse_bench_option
parse_bench_option-OkBounded option value o u =
    if-elim OkBounded (bytes_eq option (codes "--host")) (λ _. u)
      λ _.
        if-elim OkBounded (bytes_eq option (codes "--port")) (λ _. u)
          λ _.
            if-elim OkBounded (bytes_eq option (codes "--workload")) (λ _. u)
              λ _.
                if-elim OkBounded (bytes_eq option (codes "--clients"))
                  (λ _. number-OkBounded value (λ n. record o { clients = n }) (λ n h. omega arith))
                  λ _.
                    if-elim OkBounded (bytes_eq option (codes "--pipeline"))
                      (λ _.
                        number-OkBounded value (λ n. record o { pipeline = n })
                          (λ n h. omega arith))
                      λ _.
                        if-elim OkBounded (bytes_eq option (codes "--duration"))
                          (λ _.
                            number-OkBounded value (λ n. record o { duration_seconds = n })
                              (λ n h. omega arith))
                          λ _.
                            if-elim OkBounded (bytes_eq option (codes "--warmup"))
                              (λ _.
                                number-OkBounded value (λ n. record o { warmup_seconds = n })
                                  (λ n h. omega arith))
                              λ _.
                                if-elim OkBounded (bytes_eq option (codes "--key-count"))
                                  (λ _.
                                    number-OkBounded value (λ n. record o { key_count = n })
                                      (λ n h. omega arith))
                                  λ _.
                                    if-elim OkBounded (bytes_eq option (codes "--key-size"))
                                      (λ _.
                                        number-OkBounded value (λ n. record o { key_size = n })
                                          (λ n h. omega arith))
                                      λ _.
                                        if-elim OkBounded (bytes_eq option (codes "--value-size"))
                                          (λ _.
                                            number-OkBounded value
                                              (λ n. record o { value_size = n })
                                              (λ n h. omega arith))
                                          λ _.
                                            if-elim OkBounded (bytes_eq option (codes "--seed"))
                                              (λ _.
                                                number-OkBounded value (λ n. record o { seed = n })
                                                  (λ n h. omega arith))
                                              λ _.
                                                if-elim OkBounded
                                                  (bytes_eq option (codes "--output")) (λ _. u)
                                                  λ _.
                                                    if-elim OkBounded
                                                      (bytes_eq option (codes "--label")) (λ _. u)
                                                      λ _.
                                                        if-elim OkBounded
                                                          (bytes_eq option (codes "--preload"))
                                                          (λ _. u) λ _. tt

parse_bench_arguments-OkBounded :
    (o : BenchOptions) (arguments : List Bytes)
    → IsBounded o
    → OkBounded (parse_bench_arguments o arguments)
unfolding parse_bench_arguments
parse_bench_arguments-OkBounded o [] u = u
parse_bench_arguments-OkBounded o (option ∷ []) u = tt
parse_bench_arguments-OkBounded o (option ∷ value ∷ rest) u =
    behind (parse_bench_option option value o) (λ o'. parse_bench_arguments o' rest)
      (parse_bench_option-OkBounded option value o u)
      (λ o' u'. parse_bench_arguments-OkBounded o' rest u')
  where
    behind :
        (r : Result BenchOptions) (loop : BenchOptions → Result BenchOptions)
        → OkBounded r
        → ((o' : BenchOptions) → IsBounded o' → OkBounded (loop o'))
        → OkBounded (r >>= loop)
    behind (ok o') loop u keep = keep o' u
    behind (err e) loop u keep = tt

checked : (o o' : BenchOptions) → check_options o ≡ ok o' → (o ≡ o') × IsPositive o
unfolding check_options
checked o o' h =
    elim (Bool-cases (o.clients == 0 || o.pipeline == 0 || o.key_count == 0 || o.key_size == 0)) [
      | inl bad ↦ absurd (refused (rw bad at h))
      | inr good ↦ (accepted (rw good at h), ground (arith, good))
    ]
  where
    refused : err not_positive ≡ ok o' → ⊥
    refused e = cc

    accepted : ok o ≡ ok o' → o ≡ o'
    accepted e = cc

-- Options that are parsed from any arguments have numbers that fit in 64 bits, and at least one
-- client, a pipeline of at least one command, at least one key, and keys of at least one byte.
pub parse_bench_options-IsBounded :
    (arguments : List Bytes) (o : BenchOptions)
    → parse_bench_options arguments ≡ ok o
    → IsBounded o × IsPositive o
unfolding parse_bench_options
parse_bench_options-IsBounded arguments o h =
    let (o', parsed, passed) =
      >>=-eq-ok (parse_bench_arguments default_bench_options arguments) check_options h in
    let (same, positive) = checked o' o passed in
    subst (λ o. IsBounded o × IsPositive o) same
      (
        subst OkBounded parsed
            (parse_bench_arguments-OkBounded default_bench_options arguments (omega arith)),
        positive,
      )

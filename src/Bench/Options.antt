-- ===== src/Bench/Options.antt =====
-- `Options` and `ParseOptions` of benchmarks/RadishBench.cpp. `std::stoull` is the `stoul` of the
-- server's options: both read 64 bits.
pub mod Bounds
use radish.Shared.{
  ℕ, zero, suc, Bool, true, false, not, ◌||◌, List, [], ◌∷◌, Bytes, codes, bytes_eq, ◌==◌,
  if◌then◌else◌, Result, ok, err, ◌>>=◌, missing_value, unknown_option, not_positive,
}
use radish.Options.{stoul}

pub record BenchOptions : Type 0 where
  pub host : Bytes
  pub port : Bytes
  pub workload : Bytes
  pub output_prefix : Bytes
  pub label : Bytes
  pub clients : ℕ
  pub pipeline : ℕ
  pub duration_seconds : ℕ
  pub warmup_seconds : ℕ
  pub key_count : ℕ
  pub key_size : ℕ
  pub value_size : ℕ
  pub seed : ℕ
  pub preload : Bool

abbrev pub default_bench_options : BenchOptions
default_bench_options = record {
  host = codes "127.0.0.1";
  port = codes "6379";
  workload = codes "GET_HIT";
  output_prefix = codes "benchmark-result";
  label = codes "unspecified";
  clients = 1;
  pipeline = 1;
  duration_seconds = 60;
  warmup_seconds = 30;
  key_count = 100000;
  key_size = 32;
  value_size = 128;
  seed = 1;
  preload = true;
}

-- One round of the loop.
unfoldable pub parse_bench_option : Bytes → Bytes → BenchOptions → Result BenchOptions
parse_bench_option option value options =
    if bytes_eq option (codes "--host")
    then ok (record options { host = value })
    else if bytes_eq option (codes "--port")
    then ok (record options { port = value })
    else if bytes_eq option (codes "--workload")
    then ok (record options { workload = value })
    else if bytes_eq option (codes "--clients")
    then (do n ← stoul value; ok (record options { clients = n }))
    else if bytes_eq option (codes "--pipeline")
    then (do n ← stoul value; ok (record options { pipeline = n }))
    else if bytes_eq option (codes "--duration")
    then (do n ← stoul value; ok (record options { duration_seconds = n }))
    else if bytes_eq option (codes "--warmup")
    then (do n ← stoul value; ok (record options { warmup_seconds = n }))
    else if bytes_eq option (codes "--key-count")
    then (do n ← stoul value; ok (record options { key_count = n }))
    else if bytes_eq option (codes "--key-size")
    then (do n ← stoul value; ok (record options { key_size = n }))
    else if bytes_eq option (codes "--value-size")
    then (do n ← stoul value; ok (record options { value_size = n }))
    else if bytes_eq option (codes "--seed")
    then (do n ← stoul value; ok (record options { seed = n }))
    else if bytes_eq option (codes "--output")
    then ok (record options { output_prefix = value })
    else if bytes_eq option (codes "--label")
    then ok (record options { label = value })
    else if bytes_eq option (codes "--preload")
    then ok (record options { preload = not (bytes_eq value (codes "off")) })
    else err unknown_option

-- The loop over the arguments behind the program's name, two at a time.
unfoldable pub parse_bench_arguments : BenchOptions → List Bytes → Result BenchOptions
parse_bench_arguments options [] = ok options
parse_bench_arguments options (option ∷ []) = err missing_value
parse_bench_arguments options (option ∷ value ∷ rest) = do
  options' ← parse_bench_option option value options
  parse_bench_arguments options' rest

unfoldable pub check_options : BenchOptions → Result BenchOptions
check_options options =
    if options.clients == 0
      || options.pipeline == 0
      || options.key_count == 0
      || options.key_size == 0
    then err not_positive
    else ok options

unfoldable pub parse_bench_options : List Bytes → Result BenchOptions
unfolding parse_bench_arguments check_options
parse_bench_options arguments = do
  options ← parse_bench_arguments default_bench_options arguments
  check_options options

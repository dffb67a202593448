-- ===== src/Bench/Workload.antt =====
-- `BuildCommand` and `RunWorker`: the commands of a worker, and what it counts.
pub mod Requests
pub mod Succeeding
pub mod Pipelines
use radish.Shared.{
  ℕ, zero, suc, ◌+◌, ◌-◌, ◌*◌, ◌%◌, ◌^◌, ◌≤◌, Bool, true, false, ◌||◌, List, [], ◌∷◌, ◌++◌, Bytes,
  codes, bytes_eq, length, leb, ◌==◌, if◌then◌else◌, Result, ok, err, ◌>>=◌, unsupported_workload,
  preload_failed,
}
use radish.RespCodec.{encode_command}
use radish.Bench.Options.{BenchOptions}
use radish.Bench.Keys.{make_key, make_value}
use radish.Bench.Connection.{read_response, max_levels, pipeline_request, read_responses}

-- `std::mt19937_64` and `std::uniform_int_distribution` are the standard library's: `draw` takes a
-- number from a range and moves the generator on.
pub record Random {ℓ} (G : Type ℓ) : Type ℓ where
  pub seeded : ℕ → G
  pub draw : ℕ → ℕ → G → ℕ × G

-- A number that is drawn is in the range.
pub record IsUniform {ℓ} {G : Type ℓ} (random : Random G) : Type ℓ where
  pub at_least : (low high : ℕ) (g : G) → low ≤ high → low ≤ (random.draw low high g).0
  pub at_most : (low high : ℕ) (g : G) → low ≤ high → (random.draw low high g).0 ≤ high

abbrev pub wrap : ℕ → ℕ
wrap n = n % 2 ^ 64

unfoldable pub write_percent : Bytes → ℕ
write_percent workload =
    if bytes_eq workload (codes "MIX50")
    then 50
    else if bytes_eq workload (codes "READ95")
    then 5
    else 95

abbrev pub is_mixed : Bytes → Bool
is_mixed workload =
    bytes_eq workload (codes "MIX50")
    || bytes_eq workload (codes "READ95")
    || bytes_eq workload (codes "WRITE95")

module _ {ℓ} {G : Type ℓ} (random : Random G) (options : BenchOptions) where
  unfoldable pub set_or_get : Bytes → ℕ × G → List Bytes × G
  set_or_get key (percent, g) =
      if leb percent (write_percent options.workload)
      then (codes "SET" ∷ key ∷ make_value options.value_size ∷ [], g)
      else (codes "GET" ∷ key ∷ [], g)

  unfoldable pub get_miss : ℕ × G → List Bytes × G
  get_miss (index, g) =
      (codes "GET" ∷ make_key (wrap (options.key_count + index)) options.key_size ∷ [], g)

  -- The tests on the name of the workload, behind the choice of a key.
  unfoldable pub command_of : ℕ → ℕ → Bytes → G → Result (List Bytes × G)
  unfolding set_or_get get_miss
  command_of sequence last key g =
      let workload = options.workload in
      if bytes_eq workload (codes "PING")
      then ok (codes "PING" ∷ [], g)
      else if bytes_eq workload (codes "SET")
      then ok (codes "SET" ∷ key ∷ make_value options.value_size ∷ [], g)
      else if bytes_eq workload (codes "GET_HIT")
      then ok (codes "GET" ∷ key ∷ [], g)
      else if bytes_eq workload (codes "GET_MISS")
      then ok (get_miss (random.draw 0 last g))
      else if bytes_eq workload (codes "DEL")
      then ok (codes "DEL" ∷ key ∷ [], g)
      else if bytes_eq workload (codes "EXISTS")
      then ok (codes "EXISTS" ∷ key ∷ [], g)
      else if bytes_eq workload (codes "DBSIZE")
      then ok (codes "DBSIZE" ∷ [], g)
      else if bytes_eq workload (codes "KEYS")
      then ok (codes "KEYS" ∷ codes "*" ∷ [], g)
      else if bytes_eq workload (codes "RENAME")
      then ok (
        codes "RENAME"
            ∷ key
            ∷ make_key (wrap (options.key_count * 2 + sequence)) options.key_size
            ∷ [],
        g,
      )
      else if is_mixed workload
      then ok (set_or_get key (random.draw 1 100 g))
      else err unsupported_workload

  -- The command of a number, and the generator behind it.
  unfoldable pub build_command : ℕ → G → Result (List Bytes × G)
  unfolding command_of
  build_command sequence g =
      let last = wrap (options.key_count + (2 ^ 64 - 1)) in
      let (index, g') = random.draw 0 last g in
      command_of sequence last (make_key index options.key_size) g'

  -- The loop over a pipeline, from a sequence number on: the commands, the next number and the
  -- generator.
  unfoldable pub build_commands : ℕ → ℕ → G → Result (List (List Bytes) × ℕ × G)
  unfolding build_command
  build_commands zero sequence g = ok ([], sequence, g)
  build_commands (suc n) sequence g = do
    (command, g') ← build_command sequence g
    (commands, sequence', g'') ← build_commands n (wrap (suc sequence)) g'
    ok (command ∷ commands, sequence', g'')

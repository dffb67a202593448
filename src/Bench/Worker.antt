-- ===== src/Bench/Worker.antt =====
-- `Preload`, `WorkerResult` and `RunWorker`. The clock is read by the rounds that are given: those
-- that begin before the end of their part.
pub mod Counting
pub mod Running
pub mod Serving
pub mod Preloading
mod Tests
use radish.Shared.{
  ℕ, zero, suc, ◌+◌, ◌-◌, ◌%◌, ◌^◌, Bool, true, false, List, [], ◌∷◌, ◌++◌, Bytes, codes, length,
  if◌then◌else◌, Result, ok, err, ◌>>=◌, preload_failed,
}
use radish.RespCodec.{encode_command}
use radish.Bench.Options.{BenchOptions}
use radish.Bench.Keys.{make_key, make_value}
use radish.Bench.Connection.{read_response, max_levels, pipeline_request, read_responses}
use radish.Bench.Workload.{Random, wrap, build_commands}

-- What a connection has sent, and what arrives behind what it has read.
pub record Stream : Type 0 where
  pub sent : Bytes
  pub arriving : Bytes

unfoldable pub execute : List Bytes → Stream → Result (Bool × Stream)
execute command stream = do
  (success, rest) ← read_response max_levels stream.arriving
  ok (success, record { sent = stream.sent ++ encode_command command; arriving = rest })

-- The loop of `Preload` over the indices from `index` on.
unfoldable pub preload_keys : BenchOptions → ℕ → ℕ → Stream → Result Stream
unfolding execute
preload_keys options zero index stream = ok stream
preload_keys options (suc n) index stream = do
  (success, stream') ←
      execute (codes "SET" ∷ make_key index options.key_size ∷ make_value options.value_size ∷ [])
        stream
  if success then preload_keys options n (suc index) stream' else err preload_failed

unfoldable pub run_preload : BenchOptions → Stream → Result Stream
unfolding preload_keys
run_preload options stream =
    if options.preload then preload_keys options options.key_count 0 stream else ok stream

pub record WorkerResult : Type 0 where
  pub latencies : List ℕ
  pub errors : ℕ

-- The clock at the start of a round and at each completion, in nanoseconds.
pub record Round : Type 0 where
  pub started : ℕ
  pub completions : ℕ → ℕ

pub record Worker {ℓ} (G : Type ℓ) : Type ℓ where
  pub generator : G
  pub sequence : ℕ
  pub stream : Stream
  pub result : WorkerResult

-- The loop over the responses of a measured round.
unfoldable pub count_responses : Round → ℕ → List Bool → WorkerResult → WorkerResult
count_responses round index [] result = result
count_responses round index (true ∷ responses) result =
    count_responses round (suc index) responses (record result {
      latencies = result.latencies ++ (round.completions index - round.started) ∷ [];
    })
count_responses round index (false ∷ responses) result =
    count_responses round (suc index) responses
      (record result { errors = wrap (suc result.errors) })

unfoldable pub execute_pipeline : List (List Bytes) → Stream → Result (List Bool × Stream)
execute_pipeline commands stream = do
  (responses, rest) ← read_responses (length commands) stream.arriving
  ok (responses, record { sent = stream.sent ++ pipeline_request commands; arriving = rest })

module _ {ℓ} {G : Type ℓ} (random : Random G) (options : BenchOptions) where
  -- One round of the loop.
  unfoldable pub run_round : Bool → Round → Worker G → Result (Worker G)
  unfolding count_responses execute_pipeline
  run_round measure round w = do
    (commands, sequence', g) ← build_commands random options options.pipeline w.sequence w.generator
    (responses, stream') ← execute_pipeline commands w.stream
    ok (record {
      generator = g;
      sequence = sequence';
      stream = stream';
      result = if measure then count_responses round 0 responses w.result else w.result;
    })

  unfoldable pub run_until : Bool → List Round → Worker G → Result (Worker G)
  run_until measure [] w = ok w
  run_until measure (round ∷ rounds) w = do
    w' ← run_round measure round w
    run_until measure rounds w'

  abbrev pub start_worker : ℕ → Stream → Worker G
  start_worker worker_id s = record {
    generator = random.seeded (wrap (options.seed + worker_id));
    sequence = 0;
    stream = s;
    result = record { latencies = []; errors = 0 };
  }

  unfoldable pub run_worker : ℕ → List Round → List Round → Stream → Result (Worker G)
  unfolding run_until
  run_worker worker_id warmup measured s = do
    w ← run_until false warmup (start_worker worker_id s)
    run_until true measured w

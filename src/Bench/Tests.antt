-- ===== src/Bench/Tests.antt =====
-- Instances of the theorems on the client, with a generator that takes the ends of a range in turn.
use radish.Shared.{
  ℕ, suc, ◌+◌, ◌%◌, ◌^◌, ◌<◌, ◌≤◌, true, false, none, some, List, [], ◌∷◌, ◌++◌, ◌≡◌, refl, arith,
  Bytes, codes, length, All, map, joined, ◌==◌, if◌then◌else◌, minus_one, pos, bytes_eq, append-nil,
  ◌≢◌, ok,
}
use radish.Decimal.{to_string, digits, unsigned, scan_digits}
use radish.Bench.Options.{
  BenchOptions, default_bench_options, parse_bench_options, parse_bench_arguments,
  parse_bench_option, check_options,
}
use radish.Options.{stoul, skip_spaces, take_sign, to_unsigned_long}
use radish.Bench.Options.Bounds.{IsBounded, IsPositive, parse_bench_options-IsBounded}
use radish.Bench.Workload.{Random, IsUniform, build_commands}
use radish.Bench.Workload.Requests.{is_workload}
use radish.Bench.Worker.{start_worker, run_round}
use radish.Bench.Worker.Serving.{run_round-served}
use radish.Bench.Workload.{build_command, command_of}
use radish.Bench.Workload.Pipelines.{AllRequests, build_commands-AllRequests}
use radish.Store.{new_store}
use radish.LogReader.{header}
use radish.LogWriter.{no_fault}
use radish.Dict.{lookup}
use radish.RespCodec.{encode_command, encode_arguments, encode_bulk, max_buffered_input, resp2}
use radish.RespCodec.Replies.{simple_string}
use radish.Commands.{Context, dispatch, command_handlers, uppercase, run_handler, handle_ping}
use radish.Session.{Session, Environment}
use radish.Session.Pipeline.{Answers, no_commands, next_command, IsSendable}
use radish.Session.Steps.Liveness.{IsHealthy}
use radish.Store.Valid.{new_store-IsValid}
use radish.Binary.{string_value}
use radish.RespCodec.Replies.{error_reply, sanitize_simple_value}
use radish.Session.Pipeline.{answered}
use radish.Session.Feeding.{feed}
use radish.Session.Steps.Liveness.{write_all}
use radish.Bench.Connection.{pipeline_request, read_responses}
use radish.Bench.Connection.Readable.{succeeded, simple_string-IsReadable, error_reply-IsReadable}
use radish.Bench.Pipeline.{pipeline-answered}
use radish.Bench.Worker.{Round, Worker, run_worker}
use radish.Bench.Worker.Counting.{count_successes, count_errors}
use radish.Bench.Worker.Running.{run_worker-counts}

abbrev ends : Random ℕ
ends = record { seeded = λ n. n; draw = λ low high g. (if g % 2 == 0 then low else high, suc g) }

ends-IsUniform : IsUniform ends
ends-IsUniform = record {
  at_least = λ low high g h. ground arith;
  at_most = λ low high g h. ground arith;
}

abbrev pub small_options : BenchOptions
small_options = record default_bench_options {
  key_count = 10;
  pipeline = 2;
  workload = codes "GET_MISS";
  duration_seconds = 1;
}

known : is_workload (codes "GET_MISS") ≡ true
unfolding bytes_eq
known = refl

build_commands-AllRequests_example :
    (commands : List (List Bytes)) × (g : ℕ) × (build_commands ends small_options 2 5 7
      ≡ ok (commands, 5 + 2, g))
    × (length commands ≡ 2)
    × AllRequests small_options 5 commands
build_commands-AllRequests_example =
    build_commands-AllRequests ends small_options ends-IsUniform (omega arith) known 2 5 7
      (omega arith)

abbrev some_arguments : List Bytes
some_arguments = codes "--clients" ∷ codes "8" ∷ codes "--preload" ∷ codes "off" ∷ []

parsed :
    parse_bench_options some_arguments
    ≡ ok (record default_bench_options { clients = 8; preload = false })
unfolding parse_bench_options parse_bench_arguments parse_bench_option check_options bytes_eq stoul
    skip_spaces take_sign to_unsigned_long unsigned scan_digits
parsed = refl

parse_bench_options-IsBounded_example :
    IsBounded (record default_bench_options { clients = 8; preload = false })
    × IsPositive (record default_bench_options { clients = 8; preload = false })
parse_bench_options-IsBounded_example =
    parse_bench_options-IsBounded some_arguments
      (record default_bench_options { clients = 8; preload = false }) parsed

abbrev pub new_context : Context
new_context = record {
  m_database = record {
    m_store = new_store minus_one;
    m_persistence = true;
    disk = record { log_file = some header; temporary_file = none };
  };
  m_version = resp2;
}

abbrev pub calls : Environment
calls command index = (pos 5, no_fault)

-- Two PINGs, which leave the context as it is.
abbrev two_pings : List (List Bytes)
two_pings = (codes "PING" ∷ []) ∷ (codes "PING" ∷ []) ∷ []

abbrev two_pongs : List Bytes
two_pongs = simple_string (codes "PONG") ∷ simple_string (codes "PONG") ∷ []

ping_answer :
    (n : ℕ)
    → dispatch (calls n) (codes "PING" ∷ []) new_context
      ≡ (new_context, ok (simple_string (codes "PONG"), false))
unfolding dispatch command_handlers uppercase run_handler handle_ping lookup bytes_eq
ping_answer n = refl

abbrev ping_answers : Answers calls 0 new_context two_pings 2 new_context two_pongs
ping_answers = next_command (ping_answer 0) (next_command (ping_answer 1) no_commands)

abbrev waiting : Session
waiting = record {
  context = new_context;
  m_input = [];
  m_output = [];
  m_close_after_write = false;
  is_open = true;
  reads = 1;
  writes = 0;
  sent = [];
  served = 0;
}

waiting-IsHealthy : IsHealthy waiting
waiting-IsHealthy = record { reading = refl; writing = refl; opened = refl }

sendable : All IsSendable two_pings
sendable = (
  (omega arith, omega arith, (omega arith, tt)),
  ((omega arith, omega arith, (omega arith, tt)), tt),
)

two_replies : length (joined two_pongs) < 2 ^ 63
unfolding simple_string sanitize_simple_value
two_replies = omega arith

two_commands_fit : length (joined (pipeline_request two_pings ∷ [])) ≤ max_buffered_input
unfolding pipeline_request encode_command encode_arguments encode_bulk to_string digits
two_commands_fit = omega arith

pipeline-answered_example :
    let t = answered [] 2 new_context two_pongs waiting in
    (feed calls (pipeline_request two_pings ∷ []) (waiting, ok tt) ≡ (t, ok tt))
    × ((write_all 2 t).sent ≡ [] ++ two_pongs)
    × (read_responses 2 (joined two_pongs ++ codes "+") ≡ ok (map succeeded two_pongs, codes "+"))
pipeline-answered_example =
    pipeline-answered calls (pipeline_request two_pings ∷ []) waiting (codes "+") ping_answers
      waiting-IsHealthy refl refl refl (new_store-IsValid minus_one) sendable
      (append-nil (pipeline_request two_pings)) two_commands_fit two_replies

abbrev ping_options : BenchOptions
ping_options = record small_options { workload = codes "PING" }

ping_known : is_workload (codes "PING") ≡ true
unfolding bytes_eq
ping_known = refl

abbrev one_round : Round
one_round = record { started = 100; completions = λ index. 150 + index }

abbrev pong_and_error : List Bytes
pong_and_error = simple_string (codes "PONG") ∷ error_reply (codes "no") ∷ []

run_worker-counts_example :
    (w : Worker ℕ) × (run_worker ends ping_options 3
        (one_round ∷ [])
        (one_round ∷ [])
        (record { sent = []; arriving = joined (two_pongs ++ pong_and_error) ++ codes "+" })
      ≡ ok w)
    × (w.stream.arriving ≡ codes "+")
    × (w.sequence ≡ 4)
    × (length w.result.latencies ≡ count_successes pong_and_error)
    × (w.result.errors ≡ count_errors pong_and_error)
run_worker-counts_example =
    run_worker-counts ends ping_options ends-IsUniform (omega arith) ping_known 3
      ((one_round, two_pongs) ∷ []) ((one_round, pong_and_error) ∷ []) _ (codes "+")
      ((refl, (simple_string-IsReadable _, (simple_string-IsReadable _, tt))), tt)
      ((refl, (simple_string-IsReadable _, (error_reply-IsReadable _, tt))), tt) refl (omega arith)

-- A worker whose first two PINGs are answered.
abbrev ping_worker : Worker ℕ
ping_worker =
    start_worker ends ping_options 3
      (record { sent = []; arriving = joined two_pongs ++ codes "+" })

pings_built :
    build_commands ends ping_options 2 ping_worker.sequence ping_worker.generator
    ≡ ok (two_pings, 2, 6)
unfolding build_commands build_command command_of bytes_eq
pings_built = refl

run_round-served_example :
    let t = answered [] 2 new_context two_pongs waiting in
    (feed calls (pipeline_request two_pings ∷ []) (waiting, ok tt) ≡ (t, ok tt))
    × ((write_all 2 t).sent ≡ [] ++ two_pongs)
    × ((w : Worker ℕ) × (run_round ends ping_options true one_round ping_worker ≡ ok w)
        × (w.stream.sent ≡ [] ++ joined (pipeline_request two_pings ∷ []))
        × (w.stream.arriving ≡ codes "+")
        × (length w.result.latencies ≡ 2)
        × (w.result.errors ≡ 0))
run_round-served_example =
    run_round-served ends ping_options ends-IsUniform (omega arith) ping_known calls
      (pipeline_request two_pings ∷ []) waiting one_round ping_worker (codes "+") pings_built
      ping_answers waiting-IsHealthy refl refl refl (new_store-IsValid minus_one)
      (omega arith, omega arith) other (omega arith) (omega arith)
      (append-nil (pipeline_request two_pings)) two_commands_fit two_replies refl
  where
    other : codes "PING" ≢ codes "RENAME"
    other e = cc

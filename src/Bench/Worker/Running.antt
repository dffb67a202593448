-- ===== src/Bench/Worker/Running.antt =====
-- A worker whose rounds are answered by as many replies as they send commands.
use radish.Shared.{
  ℕ, ◌+◌, ◌*◌, ◌^◌, ◌<◌, ◌≤◌, Bool, true, false, List, [], ◌∷◌, ◌++◌, ◌≡◌, refl, sym, ap, ◌∙◌,
  subst, arith, Bytes, length, length-append, map, joined, All, ok, if◌then◌else◌,
}
use radish.Bench.Connection.{pipeline_request, read_responses}
use radish.Bench.Connection.Readable.{succeeded, IsReadable}
use radish.Bench.Pipeline.{read_responses-joined}
use radish.Bench.Options.{BenchOptions}
use radish.Bench.Workload.{Random, IsUniform, build_commands}
use radish.Bench.Workload.Requests.{is_workload}
use radish.Bench.Workload.Pipelines.{build_commands-AllRequests}
use radish.Bench.Worker.{
  Stream, Round, Worker, count_responses, execute_pipeline, run_round, run_until, start_worker,
  run_worker,
}
use radish.Bench.Worker.Counting.{
  count_successes, count_errors, rounds_of, replies_of, IsAnswered, joined-replies, Counts,
  round-Counts, Counts-append, errors-Counts,
}

-- The worker behind a round that sent the commands and read the replies.
abbrev pub behind_round {ℓ} :
    {G : Type ℓ}
    → Bool
    → Round
    → Worker G
    → List (List Bytes)
    → List Bytes
    → Bytes
    → ℕ
    → G
    → Worker G
behind_round measure round w commands replies rest sequence' g = record {
  generator = g;
  sequence = sequence';
  stream = record { sent = w.stream.sent ++ pipeline_request commands; arriving = rest };
  result = if measure then count_responses round 0 (map succeeded replies) w.result else w.result;
}

pub run_round-read {ℓ} :
    {G : Type ℓ} (random : Random G) (options : BenchOptions) (measure : Bool) (round : Round)
    (w : Worker G) (commands : List (List Bytes)) (replies : List Bytes) (rest : Bytes)
    (sequence' : ℕ) (g : G)
    → build_commands random options options.pipeline w.sequence w.generator
      ≡ ok (commands, sequence', g)
    → length commands ≡ length replies
    → All IsReadable replies
    → w.stream.arriving ≡ joined replies ++ rest
    → run_round random options measure round w
      ≡ ok (behind_round measure round w commands replies rest sequence' g)
unfolding run_round execute_pipeline
run_round-read random options measure round w commands replies rest sequence' g built sized readable
      arriving =
    let read =
      ap (λ n. read_responses n w.stream.arriving) sized
      ∙ ap (read_responses (length replies)) arriving
      ∙ read_responses-joined replies rest readable in
    rw (built, read) refl

module _ {ℓ} {G : Type ℓ} (random : Random G) (options : BenchOptions) (u : IsUniform random)
    (some_key : 1 ≤ options.key_count) (known : is_workload options.workload ≡ true) where
  -- A round whose pipeline is answered whole.
  run_round-answered :
      (measure : Bool) (round : Round) (w : Worker G) (replies : List Bytes) (rest : Bytes)
      → length replies ≡ options.pipeline
      → All IsReadable replies
      → w.stream.arriving ≡ joined replies ++ rest
      → options.key_count * 2 + (w.sequence + options.pipeline) < 2 ^ 64
      → (w' : Worker G) × (run_round random options measure round w ≡ ok w')
        × (w'.stream.arriving ≡ rest)
        × (w'.sequence ≡ w.sequence + options.pipeline)
        × (w'.result ≡ (
            if measure then count_responses round 0 (map succeeded replies) w.result else w.result))
  run_round-answered measure round w replies rest count readable arriving small =
      let (commands, g, built, sized, requests) =
        build_commands-AllRequests random options u some_key known options.pipeline w.sequence
          w.generator small in
      (
        behind_round measure round w commands replies rest (w.sequence + options.pipeline) g,
        run_round-read random options measure round w commands replies rest
            (w.sequence + options.pipeline) g built (sized ∙ sym count) readable arriving,
        refl,
        refl,
        refl,
      )

  run_until-answered :
      (measure : Bool) (exchanges : List (Round × List Bytes)) (w : Worker G) (rest : Bytes)
      → All (IsAnswered options) exchanges
      → w.stream.arriving ≡ joined (replies_of exchanges) ++ rest
      → options.key_count * 2 + (w.sequence + length (replies_of exchanges)) < 2 ^ 64
      → w.result.errors ≤ w.sequence
      → (w' : Worker G) × (run_until random options measure (rounds_of exchanges) w ≡ ok w')
        × (w'.stream.arriving ≡ rest)
        × (w'.sequence ≡ w.sequence + length (replies_of exchanges))
        × (w'.result.errors ≤ w'.sequence)
        × Counts measure (replies_of exchanges) w.result w'.result
  unfolding run_until
  run_until-answered measure [] w rest h arriving small few =
      (w, refl, arriving, omega arith, few, none measure)
    where
      none : (measure : Bool) → Counts measure [] w.result w.result
      none true = (omega arith, omega arith)
      none false = refl
  run_until-answered measure ((round, replies) ∷ exchanges) w rest h arriving small few =
      let count = length-append replies (replies_of exchanges) in
      let (w', ran, left, number, result) =
        run_round-answered measure round w replies (joined (replies_of exchanges) ++ rest) h.0.0
          h.0.1 (arriving ∙ joined-replies replies (replies_of exchanges) rest)
          (omega (arith, h.0.0)) in
      let counted =
        subst (Counts measure replies w.result) (sym result)
          (round-Counts measure round replies w.result (omega (arith, h.0.0))) in
      let (w'', ran', left', number', few', counted') =
        run_until-answered measure exchanges w' rest h.1 left (omega (arith, h.0.0)) (
          errors-Counts measure replies w.result w'.result w'.sequence counted
            (omega (arith, h.0.0))) in
      (
        w'',
        rw (ran) ran',
        left',
        omega (arith, h.0.0),
        few',
        Counts-append measure replies (replies_of exchanges) w.result w'.result w''.result counted
            counted',
      )

  -- Let the random numbers that are drawn be in their ranges, the workload be known and there
  -- be at least one key. If every round of the warm-up and of the measurement is answered by
  -- as many whole replies as the pipeline has commands, and the indices of the keys stay
  -- below 2^64, a worker ends without an exception, has read exactly these replies, has built
  -- one command for each, and has one latency for each success and one error for each other
  -- reply of the measured rounds, and nothing of the warm-up.
  pub run_worker-counts :
      (worker_id : ℕ) (warmup measured : List (Round × List Bytes)) (s : Stream) (rest : Bytes)
      → All (IsAnswered options) warmup
      → All (IsAnswered options) measured
      → s.arriving ≡ joined (replies_of warmup ++ replies_of measured) ++ rest
      → options.key_count * 2 + (length (replies_of warmup) + length (replies_of measured)) < 2 ^ 64
      → (w : Worker G) × (run_worker random options worker_id
            (rounds_of warmup)
            (rounds_of measured)
            s
          ≡ ok w)
        × (w.stream.arriving ≡ rest)
        × (w.sequence ≡ length (replies_of warmup) + length (replies_of measured))
        × (length w.result.latencies ≡ count_successes (replies_of measured))
        × (w.result.errors ≡ count_errors (replies_of measured))
  unfolding run_worker
  run_worker-counts worker_id warmup measured s rest h k arriving small =
      let (w, ran, left, number, few, unmeasured) =
        run_until-answered false warmup (start_worker random options worker_id s)
          (joined (replies_of measured) ++ rest) h
          (arriving ∙ joined-replies (replies_of warmup) (replies_of measured) rest) (omega arith)
          (omega arith) in
      let (w', ran', left', number', few', counted) =
        run_until-answered true measured w rest k left (omega arith) few in
      (
        w',
        rw (ran) ran',
        left',
        omega arith,
        counted.0
            ∙ ap (λ r. length r.latencies + count_successes (replies_of measured)) unmeasured
            ∙ omega arith,
        omega (arith, ap (λ r. r.errors) unmeasured, counted.1),
      )

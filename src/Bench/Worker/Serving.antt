-- ===== src/Bench/Worker/Serving.antt =====
-- A measured round of a worker against a session of the server.
use radish.Shared.{
  ℕ, ◌+◌, ◌*◌, ◌^◌, ◌<◌, ◌≤◌, true, false, List, [], ◌∷◌, ◌++◌, ◌≡◌, ◌≢◌, refl, sym, ap, ◌∙◌, subst,
  arith, Bytes, codes, length, joined, All, ok,
}
use radish.Store.Valid.{IsValid}
use radish.RespCodec.{max_bulk_length, max_buffered_input}
use radish.Commands.{Context}
use radish.Session.{Session, Environment}
use radish.Session.Pipeline.{Answers, answered}
use radish.Session.Feeding.{feed}
use radish.Session.Steps.Liveness.{IsHealthy, write_all}
use radish.Bench.Connection.{pipeline_request}
use radish.Bench.Connection.Readable.{succeeded}
use radish.Bench.Pipeline.{pipeline-answered, Answers-IsReadable, length-Answers}
use radish.Bench.Options.{BenchOptions}
use radish.Bench.Workload.{Random, IsUniform, build_commands}
use radish.Bench.Workload.Requests.{is_workload}
use radish.Bench.Workload.Pipelines.{
  AllRequests, AllRequests-IsSendable, requests-succeed, build_commands-AllRequests,
}
use radish.Bench.Worker.{Round, Worker, run_round}
use radish.Bench.Worker.Counting.{count_successes, count_responses-counts}
use radish.Bench.Worker.Running.{behind_round, run_round-read}

count_successes-All :
    (replies : List Bytes)
    → All (λ reply. succeeded reply ≡ true) replies
    → count_successes replies ≡ length replies
count_successes-All [] h = refl
count_successes-All (reply ∷ replies) h = ground (arith, h, count_successes-All replies h.1)

module _ {ℓ} {G : Type ℓ} (random : Random G) (options : BenchOptions) (u : IsUniform random)
    (some_key : 1 ≤ options.key_count) (known : is_workload options.workload ≡ true) where
  -- What is built is as many requests as the pipeline has.
  built-AllRequests :
      (w : Worker G) (commands : List (List Bytes)) (sequence' : ℕ) (g : G)
      → build_commands random options options.pipeline w.sequence w.generator
        ≡ ok (commands, sequence', g)
      → options.key_count * 2 + (w.sequence + options.pipeline) < 2 ^ 64
      → (length commands ≡ options.pipeline) × AllRequests options w.sequence commands
  built-AllRequests w commands sequence' g built small =
      let (commands', g', built', sized, requests) =
        build_commands-AllRequests random options u some_key known options.pipeline w.sequence
          w.generator small in
      let same =
        same_commands (commands', w.sequence + options.pipeline, g') (commands, sequence', g)
          (sym built' ∙ built) in
      subst (λ cs. (length cs ≡ options.pipeline) × AllRequests options w.sequence cs) same
        (sized, requests)
    where
      same_commands : (p q : List (List Bytes) × ℕ × G) → ok p ≡ ok q → p.0 ≡ q.0
      same_commands p q e = ap (λ r. r.0) (the_same e)
        where
          the_same : ok p ≡ ok q → p ≡ q
          the_same e = cc

  -- Let the random numbers that are drawn be in their ranges, the workload be known and not
  -- RENAME, there be at least one key, the indices stay below 2^64, keys and values have at
  -- most 4 MiB, and the worker have counted no more errors than it has built commands. Let a
  -- session wait for input with nothing queued, its operations in flight be as its queue and
  -- flag have them, its store valid, and let it dispatch the commands that the worker builds
  -- in turn without an exception or a close, with responses of less than 2^63 bytes in all.
  -- If their bytes are at most 8 MiB and arrive in any pieces, the session queues the
  -- responses and its completed writes send them in order; a measured round of the worker to
  -- which they arrive ends without an exception, has sent these bytes and read exactly the
  -- responses, and adds a latency for each command of the pipeline and no error.
  pub run_round-served :
      (calls : Environment) (pieces : List Bytes) {m : ℕ} {d : Context}
      {commands : List (List Bytes)} {responses : List Bytes} (s : Session) (round : Round)
      (w : Worker G) (rest : Bytes) {sequence' : ℕ} {g : G}
      → build_commands random options options.pipeline w.sequence w.generator
        ≡ ok (commands, sequence', g)
      → Answers calls s.served s.context commands m d responses
      → IsHealthy s
      → s.m_input ≡ []
      → s.m_output ≡ []
      → s.m_close_after_write ≡ false
      → IsValid s.context.m_database.m_store
      → (options.key_size ≤ max_bulk_length) × (options.value_size ≤ max_bulk_length)
      → options.workload ≢ codes "RENAME"
      → options.key_count * 2 + (w.sequence + options.pipeline) < 2 ^ 64
      → w.result.errors ≤ w.sequence
      → joined pieces ≡ pipeline_request commands
      → length (joined pieces) ≤ max_buffered_input
      → length (joined responses) < 2 ^ 63
      → w.stream.arriving ≡ joined responses ++ rest
      → let t = answered [] m d responses s in
        (feed calls pieces (s, ok tt) ≡ (t, ok tt))
        × ((write_all (length responses) t).sent ≡ s.sent ++ responses)
        × ((w' : Worker G) × (run_round random options true round w ≡ ok w')
            × (w'.stream.sent ≡ w.stream.sent ++ joined pieces)
            × (w'.stream.arriving ≡ rest)
            × (length w'.result.latencies ≡ length w.result.latencies + options.pipeline)
            × (w'.result.errors ≡ w.result.errors))
  run_round-served calls pieces {m} {d} {commands} {responses} s round w rest {sequence'} {g} built
        answers healthy empty quiet going valid sizes other small few cut room short arriving =
      let (sized, requests) = built-AllRequests w commands sequence' g built small in
      let sendable = AllRequests-IsSendable options w.sequence commands requests sizes.0 sizes.1 in
      let (fed, sent, read) =
        pipeline-answered calls pieces s rest answers healthy empty quiet going valid sendable cut
          room short in
      let good =
        count_successes-All responses
          (requests-succeed options w.sequence answers requests other valid) in
      let count = length-Answers answers in
      let counted =
        count_responses-counts round 0 responses w.result (omega (arith, sized, count)) in
      (
        fed,
        sent,
        (
          behind_round true round w commands responses rest sequence' g,
          run_round-read random options true round w commands responses rest sequence' g built count
              (Answers-IsReadable answers valid sendable short) arriving,
          ap (λ b. w.stream.sent ++ b) (sym cut),
          refl,
          omega (arith, counted, good, count, sized),
          omega (arith, counted, good),
        ),
      )

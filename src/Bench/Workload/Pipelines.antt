-- ===== src/Bench/Workload/Pipelines.antt =====
-- The loop that builds the commands of a pipeline, and the server's answers to them.
use radish.Shared.{
  ℕ, zero, suc, ◌+◌, ◌*◌, ◌^◌, ◌<◌, ◌≤◌, true, false, List, [], ◌∷◌, ◌≡◌, ◌≢◌, refl, ap, arith,
  Bytes, codes, length, All, Result, ok, err,
}
use radish.Store.Valid.{IsValid}
use radish.RespCodec.{max_bulk_length}
use radish.Commands.{Context}
use radish.Commands.Effects.{dispatch-Becomes_wrapped}
use radish.Session.{Environment}
use radish.Session.Pipeline.{Answers, no_commands, next_command, IsSendable}
use radish.Bench.Connection.Readable.{succeeded}
use radish.Bench.Options.{BenchOptions}
use radish.Bench.Workload.{Random, IsUniform, wrap, build_command, build_commands}
use radish.Bench.Workload.Requests.{Requests, Outcome, build_command-Outcome, is_workload}
use radish.Bench.Workload.Succeeding.{request-succeeds, request-IsSendable}

-- The commands are requests of the workload with the numbers from `sequence` on.
abbrev pub AllRequests : BenchOptions → ℕ → List (List Bytes) → Type 0
AllRequests options sequence [] = Unit
AllRequests options sequence (command ∷ commands) =
    Requests options sequence command × AllRequests options (suc sequence) commands

pub AllRequests-IsSendable :
    (options : BenchOptions) (sequence : ℕ) (commands : List (List Bytes))
    → AllRequests options sequence commands
    → options.key_size ≤ max_bulk_length
    → options.value_size ≤ max_bulk_length
    → All IsSendable commands
AllRequests-IsSendable options sequence [] h small light = tt
AllRequests-IsSendable options sequence (command ∷ commands) h small light = (
  request-IsSendable options sequence command h.0 small light,
  AllRequests-IsSendable options (suc sequence) commands h.1 small light,
)

-- The server answers requests of a workload other than RENAME without an error.
pub requests-succeed :
    {calls : Environment} (options : BenchOptions) (sequence : ℕ) {n m : ℕ} {c d : Context}
    {commands : List (List Bytes)} {responses : List Bytes}
    → Answers calls n c commands m d responses
    → AllRequests options sequence commands
    → options.workload ≢ codes "RENAME"
    → IsValid c.m_database.m_store
    → All (λ response. succeeded response ≡ true) responses
requests-succeed options sequence no_commands h e v = tt
requests-succeed {calls} options sequence
      (next_command {n = n} {b = b} {c = c} {arguments = []} answer answers) h e v =
    elim h.0 [ ]
requests-succeed {calls} options sequence
      (next_command {n = n} {b = b} {c = c} {arguments = command ∷ arguments} {response = r} answer
        answers)
      h e v =
    (
      request-succeeds options sequence (calls n) (command ∷ arguments) b c (r, false) h.0 e v
          answer,
      requests-succeed options (suc sequence) answers h.1 e
          (dispatch-Becomes_wrapped (calls n) command arguments b c (r, false) v answer).valid,
    )

module _ {ℓ} {G : Type ℓ} (random : Random G) (options : BenchOptions) (u : IsUniform random)
    (some_key : 1 ≤ options.key_count) (known : is_workload options.workload ≡ true) where
  built :
      (sequence : ℕ) (small : options.key_count * 2 + sequence < 2 ^ 64)
      (r : Result (List Bytes × G))
      → Outcome random options sequence u some_key small r
      → (command : List Bytes) × (g : G) × (r ≡ ok (command, g)) × Requests options sequence command
  built sequence small (err e) h = absurd (cc)
  built sequence small (ok (command, g)) h = (command, g, refl, h)

  -- Let the random numbers that are drawn be in their ranges, the workload be known, there be
  -- at least one key and the indices stay below 2^64. Then as many commands are built as
  -- asked for, without an exception, each of them one that the workload may send under its
  -- number, and the number behind them is the next.
  pub build_commands-AllRequests :
      (n sequence : ℕ) (g : G)
      → options.key_count * 2 + (sequence + n) < 2 ^ 64
      → (commands : List (List Bytes)) × (g' : G) × (build_commands random options n sequence g
          ≡ ok (commands, sequence + n, g'))
        × (length commands ≡ n)
        × AllRequests options sequence commands
  unfolding build_commands
  build_commands-AllRequests zero sequence g small =
      ([], g, ap (λ k. ok ([], k, g)) (omega arith), refl, tt)
  build_commands-AllRequests (suc n) sequence g small =
      let (command, g', e, request) =
        built sequence (omega arith) (build_command random options sequence g)
          (build_command-Outcome random options sequence u some_key (omega arith) g) in
      let (commands, g'', e', count, requests) =
        build_commands-AllRequests n (suc sequence) g' (omega arith) in
      (
        command ∷ commands,
        g'',
        rw (e, next sequence (omega arith), e')
            (ap (λ k. ok (command ∷ commands, k, g'')) (omega arith)),
        ap suc count,
        (request, requests),
      )
    where
      next : (sequence : ℕ) → suc sequence < 2 ^ 64 → wrap (suc sequence) ≡ suc sequence
      next sequence h = omega arith

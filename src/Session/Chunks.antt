-- ===== src/Session/Chunks.antt =====
-- `Process` on an input that arrives in pieces.
use radish.Shared.{
  ℕ, zero, suc, ◌<◌, ◌≤◌, Bool, true, false, ◌||◌, [], ◌∷◌, ◌++◌, ◌≡◌, ◌≢◌, ◌⊎◌, inl, inr, refl,
  sym, ap, ◌∙◌, arith, Bytes, length, drop, length-append, drop-append_le, Bool-cases, Result, ok,
  err,
}
use radish.RespCodec.{Status, complete, incomplete, error, RespParseResult, parse_command}
use radish.RespCodec.Replies.{error_reply}
use radish.RespCodec.Progress.{AdmittedAt, parse_command-Admitted}
use radish.RespCodec.Stable.{parse_command-append}
use radish.Commands.{CommandResult}
use radish.Session.{
  Session, Environment, has_none, receive, queue, run_command, after_command, after_parse, round,
  process_loop, process,
}
use radish.Session.Fuel.{process_loop_fuel, m_input-queue, m_input-run_command, shorter}

-- More input behind what has been processed: after an exception it is left where it is.
unfoldable pub resume :
    Environment → Bytes → Session × Result (Unit {0}) → Session × Result (Unit {0})
resume calls bytes (s, err e) = (receive bytes s, err e)
resume calls bytes (s, ok u) = process calls (receive bytes s)

queue-receive :
    (response : Bytes) (close : Bool) (bytes : Bytes) (s : Session)
    → queue response close (receive bytes s) ≡ receive bytes (queue response close s)
unfolding queue receive
queue-receive response close bytes s = ground arith

-- A session that is to be closed processes nothing.
pub process-closing :
    (calls : Environment) (s : Session)
    → s.m_close_after_write ≡ true
    → process calls s ≡ (s, ok tt)
unfolding process process_loop round
process-closing calls s h = rw (over s h) refl
  where
    over :
        (s : Session)
        → s.m_close_after_write ≡ true
        → (has_none s.m_input || s.m_close_after_write) ≡ true
    over s h = ground arith

closing-queue :
    (response : Bytes) (s : Session) → (queue response true s).m_close_after_write ≡ true
unfolding queue
closing-queue response s = ground arith

pub closing-receive :
    (bytes : Bytes) (s : Session) → (receive bytes s).m_close_after_write ≡ s.m_close_after_write
unfolding receive
closing-receive bytes s = refl

-- What the rest of the loop does with more input, for sessions with little input left.
module _ (calls : Environment) (bytes : Bytes) (f g : Session → Session × Result (Unit {0})) (m : ℕ)
    (same : (s : Session)
      → length s.m_input < m
      → g (receive bytes s) ≡ resume calls bytes (f s)) where
  after_command-receive :
      (s : Session) (r : Result CommandResult)
      → length s.m_input < m
      → after_command g (receive bytes s, r) ≡ resume calls bytes (after_command f (s, r))
  unfolding after_command
  after_command-receive s (err e) h = unfold resume in refl
  after_command-receive s (ok (response, close)) h =
      ap g (queue-receive response close bytes s)
      ∙ same (queue response close s) (rw (m_input-queue response close s) h)

  run_receive :
      (r : RespParseResult) (s : Session)
      → r.consumed ≤ length s.m_input
      → run_command calls r.arguments
          (record (receive bytes s) { m_input = drop r.consumed (s.m_input ++ bytes) })
        ≡ (let r' =
              run_command calls r.arguments (record s { m_input = drop r.consumed s.m_input }) in
            (receive bytes r'.0, r'.1))
  unfolding run_command receive
  run_receive r s h = rw (drop-append_le r.consumed s.m_input bytes h) refl

  after_parse-receive :
      (status : Status) (r : RespParseResult) (s : Session)
      → length s.m_input ≡ m
      → status ≢ incomplete
      → AdmittedAt status (length s.m_input) (length r.arguments) r.consumed
      → after_parse calls g status r (receive bytes s)
        ≡ resume calls bytes (after_parse calls f status r s)
  unfolding after_parse receive
  after_parse-receive incomplete r s e ne a = absurd (ne refl)
  after_parse-receive error r s e ne a =
      ap (λ s'. (s', ok tt)) (queue-receive (error_reply r.message) true bytes s)
      ∙ sym (
          process-closing calls (receive bytes (queue (error_reply r.message) true s)) (
            closing-receive bytes (queue (error_reply r.message) true s)
            ∙ closing-queue (error_reply r.message) s))
      ∙ (unfold resume in refl)
  after_parse-receive complete r s e ne a =
      let rest = record s { m_input = drop r.consumed s.m_input } in
      let r' = run_command calls r.arguments rest in
      ap (after_command g) (run_receive r s a.3)
      ∙ after_command-receive r'.0 r'.1 (
          rw (← e)
            (shorter r.consumed s.m_input _ (m_input-run_command calls r.arguments rest) a.2 a.3))

still_more :
    (bytes : Bytes) (s : Session)
    → (has_none s.m_input || s.m_close_after_write) ≡ false
    → (has_none (receive bytes s).m_input || (receive bytes s).m_close_after_write) ≡ false
unfolding receive
still_more bytes s h = go s.m_input h
  where
    go :
        (input : Bytes)
        → (has_none input || s.m_close_after_write) ≡ false
        → (has_none (input ++ bytes) || s.m_close_after_write) ≡ false
    go [] h = cc
    go (c ∷ input) h = h

status_cases : (status : Status) → (status ≡ incomplete) ⊎ (status ≢ incomplete)
status_cases incomplete = inl refl
status_cases complete = inr (λ e. cc)
status_cases error = inr (λ e. cc)

pub round_over :
    (calls : Environment) (loop : Session → Session × Result (Unit {0})) (s : Session)
    → (has_none s.m_input || s.m_close_after_write) ≡ true
    → round calls loop s ≡ (s, ok tt)
unfolding round
round_over calls loop s h = rw h refl

pub round_parsed :
    (calls : Environment) (loop : Session → Session × Result (Unit {0})) (s : Session)
    → (has_none s.m_input || s.m_close_after_write) ≡ false
    → round calls loop s
      ≡ after_parse calls loop (parse_command s.m_input).status (parse_command s.m_input) s
unfolding round
round_parsed calls loop s h = rw h refl

round_waits :
    (calls : Environment) (loop : Session → Session × Result (Unit {0})) (s : Session)
    → (has_none s.m_input || s.m_close_after_write) ≡ false
    → (parse_command s.m_input).status ≡ incomplete
    → round calls loop s ≡ (s, ok tt)
round_waits calls loop s h e =
    round_parsed calls loop s h
    ∙ ap (λ status. after_parse calls loop status (parse_command s.m_input) s) e
    ∙ (unfold after_parse in refl)

pub m_input-receive : (bytes : Bytes) (s : Session) → (receive bytes s).m_input ≡ s.m_input ++ bytes
unfolding receive
m_input-receive bytes s = refl

pub process_loop-round :
    (f : ℕ) (calls : Environment) (s : Session)
    → process_loop (suc f) calls s ≡ round calls (process_loop f calls) s
unfolding process_loop
process_loop-round f calls s = refl

resume-ok :
    (calls : Environment) (bytes : Bytes) (s : Session)
    → resume calls bytes (s, ok tt)
      ≡ process_loop (suc (length (receive bytes s).m_input)) calls (receive bytes s)
unfolding resume process
resume-ok calls bytes s = refl

process_loop-receive :
    (f g : ℕ) (calls : Environment) (bytes : Bytes) (s : Session)
    → length s.m_input < f
    → length (receive bytes s).m_input < g
    → process_loop g calls (receive bytes s) ≡ resume calls bytes (process_loop f calls s)
process_loop-receive zero g calls bytes s h k = absurd (omega arith)
process_loop-receive (suc f) zero calls bytes s h k = absurd (omega arith)
process_loop-receive (suc f) (suc g) calls bytes s h k =
    elim (Bool-cases (has_none s.m_input || s.m_close_after_write)) [
      | inl over ↦ stopped (round_over calls (process_loop f calls) s over)
      | inr more ↦ elim (parse_command-append s.m_input bytes) [
        | inl e ↦ stopped (round_waits calls (process_loop f calls) s more (ap (λ r. r.status) e))
        | inr same ↦ elim (status_cases (parse_command s.m_input).status) [
          | inl e ↦ stopped (round_waits calls (process_loop f calls) s more e)
          | inr ne ↦
              process_loop-round g calls (receive bytes s)
              ∙ round_parsed calls (process_loop g calls) (receive bytes s)
                  (still_more bytes s more)
              ∙ ap (λ r. after_parse calls (process_loop g calls) r.status r (receive bytes s))
                  (ap parse_command (m_input-receive bytes s) ∙ same)
              ∙ after_parse-receive calls bytes (process_loop f calls) (process_loop g calls)
                  (length s.m_input)
                  (λ s' lt. process_loop-receive f g calls bytes s' (omega arith) (
                    omega (
                      arith,
                      length-append s.m_input bytes,
                      length-append s'.m_input bytes,
                      ap length (m_input-receive bytes s),
                      ap length (m_input-receive bytes s'),
                    )))
                  (parse_command s.m_input).status (parse_command s.m_input) s refl ne
                  (parse_command-Admitted s.m_input)
              ∙ ap (resume calls bytes) (
                  sym (
                    process_loop-round f calls s
                    ∙ round_parsed calls (process_loop f calls) s more))
        ]
      ]
    ]
  where
    -- A loop that stops at once leaves all the work to the rest of the input.
    stopped :
        round calls (process_loop f calls) s ≡ (s, ok tt)
        → process_loop (suc g) calls (receive bytes s)
          ≡ resume calls bytes (process_loop (suc f) calls s)
    stopped e =
        process_loop_fuel (suc g) (suc (length (receive bytes s).m_input)) calls (receive bytes s) k
          (omega arith)
        ∙ sym (ap (resume calls bytes) (process_loop-round f calls s ∙ e) ∙ resume-ok calls bytes s)

-- Bytes that arrive behind the processed input are processed as if they had been there.
pub process-receive :
    (calls : Environment) (bytes : Bytes) (s : Session)
    → process calls (receive bytes s) ≡ resume calls bytes (process calls s)
unfolding process
process-receive calls bytes s =
    process_loop-receive (suc (length s.m_input)) (suc (length (receive bytes s).m_input)) calls
      bytes s (omega arith) (omega arith)

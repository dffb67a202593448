-- ===== src/Session/Pipeline.antt =====
-- A pipeline of commands, sent in any pieces, against the commands dispatched one after another.
use radish.Shared.{
  ℕ, suc, ◌<◌, ◌≤◌, false, ◌||◌, List, [], ◌∷◌, ◌++◌, ◌≡◌, refl, sym, ap, ◌∙◌, arith, Bytes, length,
  length-append, drop, drop-append, append_assoc, append-nil, All, Result, ok,
}
use radish.RespCodec.{complete, complete_result, max_arguments, parse_command, encode_command}
use radish.RespCodec.RoundTrip.{IsBulk, parse_command-encode_command}
use radish.Commands.{Context, dispatch}
use radish.Session.{
  Session, Environment, has_none, queue, run_command, after_command, after_parse, process_loop,
  process,
}
use radish.Session.Fuel.{process_loop_fuel, m_input-queue}
use radish.Session.Chunks.{process_loop-round, round_parsed}

-- The commands from number n on, dispatched one after another, none of them throwing or closing the
-- session: the responses, and where they lead.
pub data Answers (calls : Environment)
    : ℕ → Context → List (List Bytes) → ℕ → Context → List Bytes → Type 0 where
  no_commands : {n : ℕ} {c : Context} → Answers calls n c [] n c []
  next_command :
      {n m : ℕ} {b c d : Context} {arguments : List Bytes} {commands : List (List Bytes)}
      {response : Bytes} {responses : List Bytes}
      → dispatch (calls n) arguments b ≡ (c, ok (response, false))
      → Answers calls (suc n) c commands m d responses
      → Answers calls n b (arguments ∷ commands) m d (response ∷ responses)

-- What a client may send: one to 1024 arguments, none longer than 4 MiB.
abbrev pub IsSendable : List Bytes → Type 0
IsSendable arguments =
    (0 < length arguments) × (length arguments ≤ max_arguments) × All IsBulk arguments

abbrev pub encode_all : List (List Bytes) → Bytes
encode_all [] = []
encode_all (arguments ∷ commands) = encode_command arguments ++ encode_all commands

-- Writing starts with the first response that finds the queue empty.
abbrev pub started : List Bytes → List Bytes → ℕ → ℕ
started [] [] writes = writes
started [] (response ∷ responses) writes = suc writes
started (first ∷ output) responses writes = writes

-- The session after the given responses, with the input that is left.
abbrev pub answered : Bytes → ℕ → Context → List Bytes → Session → Session
answered rest m d responses s = record s {
  context = d;
  served = m;
  m_input = rest;
  m_output = s.m_output ++ responses;
  writes = started s.m_output responses s.writes;
}

encode_command-ne-nil : (arguments : List Bytes) → has_none (encode_command arguments) ≡ false
unfolding encode_command
encode_command-ne-nil arguments = refl

pub process_loop-process :
    (calls : Environment) (s : Session)
    → process calls s ≡ process_loop (suc (length s.m_input)) calls s
unfolding process
process_loop-process calls s = refl

after_complete :
    (calls : Environment) (loop : Session → Session × Result (Unit {0})) (arguments : List Bytes)
    (consumed : ℕ) (s : Session)
    → after_parse calls loop complete (complete_result arguments consumed) s
      ≡ after_command loop
          (run_command calls arguments (record s { m_input = drop consumed s.m_input }))
unfolding after_parse
after_complete calls loop arguments consumed s = refl

module _ (calls : Environment) (arguments : List Bytes) (rest : Bytes)
    (sendable : IsSendable arguments) (c : Context) (response : Bytes) where
  parsed :
      (input : Bytes)
      → input ≡ encode_command arguments ++ rest
      → parse_command input ≡ complete_result arguments (length (encode_command arguments))
  parsed input e =
      ap parse_command e
      ∙ parse_command-encode_command arguments rest sendable.0 sendable.1 sendable.2

  ran :
      (t : Session)
      → t.m_input ≡ encode_command arguments ++ rest
      → dispatch (calls t.served) arguments t.context ≡ (c, ok (response, false))
      → run_command calls arguments
          (record t { m_input = drop (length (encode_command arguments)) t.m_input })
        ≡ (record t { m_input = rest; context = c; served = suc t.served }, ok (response, false))
  unfolding run_command
  ran t e answer =
      ap
        (λ input. (
          record t {
            m_input = input;
            context = (dispatch (calls t.served) arguments t.context).0;
            served = suc t.served;
          },
          (dispatch (calls t.served) arguments t.context).1,
        ))
        (ap (drop (length (encode_command arguments))) e
          ∙ drop-append (encode_command arguments) rest)
      ∙ ap (λ r. (record t { m_input = rest; context = r.0; served = suc t.served }, r.1)) answer

  fewer :
      (t : Session) → t.m_input ≡ encode_command arguments ++ rest → length rest < length t.m_input
  fewer t e = omega (
    arith,
    ap length e,
    length-append (encode_command arguments) rest,
    positive (encode_command arguments) (encode_command-ne-nil arguments),
  )
    where
      positive : (text : Bytes) → has_none text ≡ false → 0 < length text
      positive [] h = absurd (cc)
      positive (x ∷ text) h = omega arith

  -- One command in front of an input.
  step_command :
      (t : Session)
      → t.m_input ≡ encode_command arguments ++ rest
      → t.m_close_after_write ≡ false
      → dispatch (calls t.served) arguments t.context ≡ (c, ok (response, false))
      → process calls t
        ≡ process calls
            (queue response false (record t { m_input = rest; context = c; served = suc t.served }))
  unfolding after_command
  step_command t e going answer =
      let loop = process_loop (length t.m_input) calls in
      let next =
        queue response false (record t { m_input = rest; context = c; served = suc t.served }) in
      process_loop-process calls t
      ∙ process_loop-round (length t.m_input) calls t
      ∙ round_parsed calls loop t (going_on t e going)
      ∙ ap (λ r. after_parse calls loop r.status r t) (parsed t.m_input e)
      ∙ after_complete calls loop arguments (length (encode_command arguments)) t
      ∙ ap (after_command loop) (ran t e answer)
      ∙ process_loop_fuel (length t.m_input) (suc (length next.m_input)) calls next
          (rw
            (m_input-queue response false
              (record t { m_input = rest; context = c; served = suc t.served }))
            (fewer t e))
          (omega arith)
      ∙ sym (process_loop-process calls next)
    where
      going_on :
          (t : Session)
          → t.m_input ≡ encode_command arguments ++ rest
          → t.m_close_after_write ≡ false
          → (has_none t.m_input || t.m_close_after_write) ≡ false
      going_on t e h =
          rw (h, e) (nonempty (encode_command arguments) (encode_command-ne-nil arguments))
        where
          nonempty :
              (text : Bytes) → has_none text ≡ false → (has_none (text ++ rest) || false) ≡ false
          nonempty [] h = cc
          nonempty (x ∷ text) h = refl

queue-answered :
    (response : Bytes) (s : Session)
    → s.m_close_after_write ≡ false
    → queue response false s ≡ answered s.m_input s.served s.context (response ∷ []) s
unfolding queue
queue-answered response s h = ground arith

started-append :
    (output : List Bytes) (response : Bytes) (responses : List Bytes) (writes : ℕ)
    → started (output ++ response ∷ []) responses (started output (response ∷ []) writes)
      ≡ started output (response ∷ responses) writes
started-append [] response responses writes = refl
started-append (first ∷ output) response responses writes = refl

-- The responses one after another, or all at once.
answered_again :
    (rest rest' : Bytes) (n m : ℕ) (c d : Context) (response : Bytes) (responses : List Bytes)
    (s : Session)
    → answered rest m d responses (answered rest' n c (response ∷ []) s)
      ≡ answered rest m d (response ∷ responses) s
answered_again rest rest' n m c d response responses s i = record s {
  context = d;
  served = m;
  m_input = rest;
  m_output = append_assoc s.m_output (response ∷ []) responses i;
  writes = started-append s.m_output response responses s.writes i;
}

answered_none :
    (s : Session) (rest : Bytes) (n : ℕ) (c : Context)
    → s.m_input ≡ rest
    → s.served ≡ n
    → s.context ≡ c
    → s ≡ answered rest n c [] s
answered_none s rest n c h k l i = record s {
  context = l i;
  served = k i;
  m_input = h i;
  m_output = sym (append-nil s.m_output) i;
  writes = none_started s.m_output s.writes i;
}
  where
    none_started : (output : List Bytes) (writes : ℕ) → writes ≡ started output [] writes
    none_started [] writes = refl
    none_started (first ∷ output) writes = refl

-- Commands in the input that are dispatched in turn without an exception or a close are answered,
-- and the rest of the input is processed behind them.
pub process-Answers :
    (calls : Environment) (rest : Bytes) {n m : ℕ} {c d : Context} {commands : List (List Bytes)}
    {responses : List Bytes} (s : Session)
    → Answers calls n c commands m d responses
    → s.served ≡ n
    → s.context ≡ c
    → s.m_close_after_write ≡ false
    → All IsSendable commands
    → s.m_input ≡ encode_all commands ++ rest
    → process calls s ≡ process calls (answered rest m d responses s)
process-Answers calls rest {n} {c} s no_commands served context going sendable input =
    ap (process calls) (answered_none s rest n c input served context)
process-Answers calls rest s
      (next_command {n = n} {m = m} {c = c} {d = d} {arguments = a} {commands = commands}
        {response = r} {responses = responses} answer answers)
      served context going sendable input =
    let rest' = encode_all commands ++ rest in
    let t = record s { m_input = rest'; context = c; served = suc s.served } in
    let t' = answered rest' (suc s.served) c (r ∷ []) s in
    step_command calls a rest' sendable.0 c r s
      (input ∙ append_assoc (encode_command a) (encode_all commands) rest) going
      (ap (λ k. dispatch (calls k) a s.context) served ∙ ap (dispatch (calls n) a) context ∙ answer)
    ∙ ap (process calls) (queue-answered r t going)
    ∙ process-Answers calls rest t' answers (ap suc served) refl going sendable.1 refl
    ∙ ap (process calls) (answered_again rest rest' (suc s.served) m c d r responses s)

-- ===== src/Session/Fuel.antt =====
-- The rounds of `Process`: what each takes from the input, and that the fuel is enough.
use radish.Shared.{
  ℕ, zero, suc, ◌<◌, ◌≤◌, Bool, true, ◌||◌, List, [], ◌∷◌, ◌≡◌, ◌⊎◌, inl, inr, refl, ap, arith,
  Bytes, length, drop, length-drop, Bool-cases, Result, ok, err,
}
use radish.RespCodec.{Status, complete, incomplete, error, RespParseResult, parse_command}
use radish.RespCodec.Replies.{error_reply}
use radish.RespCodec.Progress.{AdmittedAt, parse_command-Admitted}
use radish.Commands.{CommandResult}
use radish.Session.{
  Session, Environment, has_none, queue, run_command, after_command, after_parse, round,
  process_loop, process,
}

pub m_input-queue :
    (response : Bytes) (close : Bool) (s : Session) → (queue response close s).m_input ≡ s.m_input
unfolding queue
m_input-queue response close s = ground arith

pub m_input-run_command :
    (calls : Environment) (arguments : List Bytes) (s : Session)
    → (run_command calls arguments s).0.m_input ≡ s.m_input
unfolding run_command
m_input-run_command calls arguments s = refl

pub shorter :
    (n : ℕ) (input rest : Bytes)
    → rest ≡ drop n input
    → 0 < n
    → n ≤ length input
    → length rest < length input
shorter n input rest e h k = omega (arith, ap length e, length-drop n input)

-- Two loops that agree on shorter inputs.
module _ (calls : Environment) (f g : Session → Session × Result (Unit {0})) (m : ℕ)
    (same : (s : Session) → length s.m_input < m → f s ≡ g s) where
  after_command-eq :
      (r : Session × Result CommandResult)
      → length r.0.m_input < m
      → after_command f r ≡ after_command g r
  unfolding after_command
  after_command-eq (s, err e) h = refl
  after_command-eq (s, ok (response, close)) h =
      same (queue response close s) (rw (m_input-queue response close s) h)

  after_parse-eq :
      (status : Status) (r : RespParseResult) (s : Session)
      → length s.m_input ≡ m
      → AdmittedAt status (length s.m_input) (length r.arguments) r.consumed
      → after_parse calls f status r s ≡ after_parse calls g status r s
  unfolding after_parse
  after_parse-eq incomplete r s e a = refl
  after_parse-eq error r s e a = refl
  after_parse-eq complete r s e a =
      let rest = record s { m_input = drop r.consumed s.m_input } in
      after_command-eq (run_command calls r.arguments rest) (
        rw (← e)
          (shorter r.consumed s.m_input _ (m_input-run_command calls r.arguments rest) a.2 a.3))

  round-eq : (s : Session) → length s.m_input ≡ m → round calls f s ≡ round calls g s
  unfolding round
  round-eq s e = elim (Bool-cases (has_none s.m_input || s.m_close_after_write)) [
    | inl over ↦ rw over refl
    | inr more ↦ rw more (
        after_parse-eq (parse_command s.m_input).status (parse_command s.m_input) s e
          (parse_command-Admitted s.m_input))
  ]

-- Any two amounts of fuel above the length of the input give the same.
pub process_loop_fuel :
    (f g : ℕ) (calls : Environment) (s : Session)
    → length s.m_input < f
    → length s.m_input < g
    → process_loop f calls s ≡ process_loop g calls s
unfolding process_loop
process_loop_fuel zero g calls s h k = absurd (omega arith)
process_loop_fuel (suc f) zero calls s h k = absurd (omega arith)
process_loop_fuel (suc f) (suc g) calls s h k =
    round-eq calls (process_loop f calls) (process_loop g calls) (length s.m_input)
      (λ s' lt. process_loop_fuel f g calls s' (omega arith) (omega arith)) s refl

-- What the loop leaves when it ends by itself: no input, a session that is to be closed, or an
-- input for which the parser asks for more.
abbrev pub Done : Session → Type 0
Done s =
    (s.m_input ≡ [])
    ⊎ ((s.m_close_after_write ≡ true) ⊎ ((parse_command s.m_input).status ≡ incomplete))

module _ (calls : Environment) (loop : Session → Session × Result (Unit {0})) (m : ℕ)
    (done : (s : Session) → length s.m_input < m → (loop s).1 ≡ ok tt → Done (loop s).0) where
  after_command-Done :
      (r : Session × Result CommandResult)
      → length r.0.m_input < m
      → (after_command loop r).1 ≡ ok tt
      → Done (after_command loop r).0
  unfolding after_command
  after_command-Done (s, err e) h k = absurd (cc)
  after_command-Done (s, ok (response, close)) h k =
      done (queue response close s) (rw (m_input-queue response close s) h) k

  after_parse-Done :
      (status : Status) (r : RespParseResult) (s : Session)
      → length s.m_input ≡ m
      → (parse_command s.m_input).status ≡ status
      → AdmittedAt status (length s.m_input) (length r.arguments) r.consumed
      → (after_parse calls loop status r s).1 ≡ ok tt
      → Done (after_parse calls loop status r s).0
  unfolding after_parse
  after_parse-Done incomplete r s e p a k = inr (inr p)
  after_parse-Done error r s e p a k = inr (inl (closing (error_reply r.message) s))
    where
      closing :
          (response : Bytes) (s : Session) → (queue response true s).m_close_after_write ≡ true
      closing response s = unfold queue in ground arith
  after_parse-Done complete r s e p a k =
      let rest = record s { m_input = drop r.consumed s.m_input } in
      after_command-Done (run_command calls r.arguments rest)
        (rw (← e)
          (shorter r.consumed s.m_input _ (m_input-run_command calls r.arguments rest) a.2 a.3))
        k

nothing_left : (s : Session) → (has_none s.m_input || s.m_close_after_write) ≡ true → Done s
nothing_left s h = go s.m_input refl h
  where
    go :
        (input : Bytes)
        → s.m_input ≡ input
        → (has_none input || s.m_close_after_write) ≡ true
        → Done s
    go [] e h = inl e
    go (c ∷ input) e h = inr (inl h)

process_loop-Done :
    (f : ℕ) (calls : Environment) (s : Session)
    → length s.m_input < f
    → (process_loop f calls s).1 ≡ ok tt
    → Done (process_loop f calls s).0
unfolding process_loop round
process_loop-Done zero calls s h k = absurd (omega arith)
process_loop-Done (suc f) calls s h k =
    elim (Bool-cases (has_none s.m_input || s.m_close_after_write)) [
      | inl over ↦ rw over (nothing_left s over)
      | inr more ↦ rw more (
          after_parse-Done calls (process_loop f calls) (length s.m_input)
            (λ s' lt. process_loop-Done f calls s' (omega arith)) (parse_command s.m_input).status
            (parse_command s.m_input) s refl refl (parse_command-Admitted s.m_input) (rw more at k))
    ]

-- Where `Process` throws no exception, its loop does not stop for lack of fuel: it ends with no
-- input, with a session that is to be closed, or with a command that has not arrived whole.
pub process-Done :
    (calls : Environment) (s : Session) → (process calls s).1 ≡ ok tt → Done (process calls s).0
unfolding process
process-Done calls s h = process_loop-Done (suc (length s.m_input)) calls s (omega arith) h

-- ===== src/Session/Total.antt =====
-- A session whose database calls meet no fault.
use radish.Shared.{
  ℕ, zero, suc, ◌-◌, ◌<◌, ◌||◌, Option, none, some, List, ◌≡◌, refl, Bytes, All, length, drop, ltb,
  Bool-cases, inl, inr, Result, ok, err,
}
use radish.RespCodec.{
  Status, complete, incomplete, error, RespParseResult, max_buffered_input, parse_command,
}
use radish.RespCodec.RoundTrip.{IsBulk}
use radish.RespCodec.Progress.{AdmittedAt, parse_command-Admitted}
use radish.RespCodec.Bulks.{parse_command-IsBulk}
use radish.Commands.{CommandResult}
use radish.Commands.Total.{IsFaultless, dispatch-answers}
use radish.Session.{
  Session, Environment, has_none, queue, receive, run_command, after_command, after_parse, round,
  process_loop, process, read_on, after_receive, on_read,
}

module _ (calls : Environment) (well : (n : ℕ) → IsFaultless (calls n)) where
  run_command-answers :
      (arguments : List Bytes) (s : Session)
      → 0 < length arguments
      → All IsBulk arguments
      → (r : CommandResult) × ((run_command calls arguments s).1 ≡ ok r)
  unfolding run_command
  run_command-answers arguments s h k =
      dispatch-answers (calls s.served) arguments s.context (well s.served) h k

  after_command-ok :
      (loop : Session → Session × Result (Unit {0})) (r : Session × Result CommandResult)
      (x : CommandResult)
      → ((s : Session) → (loop s).1 ≡ ok tt)
      → r.1 ≡ ok x
      → (after_command loop r).1 ≡ ok tt
  unfolding after_command
  after_command-ok loop (s, err e) x keep h = absurd (cc)
  after_command-ok loop (s, ok (response, close)) x keep h = keep (queue response close s)

  after_parse-ok :
      (loop : Session → Session × Result (Unit {0})) (status : Status) (r : RespParseResult)
      (s : Session)
      → ((s : Session) → (loop s).1 ≡ ok tt)
      → AdmittedAt status (length s.m_input) (length r.arguments) r.consumed
      → All IsBulk r.arguments
      → (after_parse calls loop status r s).1 ≡ ok tt
  unfolding after_parse
  after_parse-ok loop incomplete r s keep a k = refl
  after_parse-ok loop error r s keep a k = refl
  after_parse-ok loop complete r s keep a k =
      let rest = record s { m_input = drop r.consumed s.m_input } in
      let (x, e) = run_command-answers r.arguments rest a.0 k in
      after_command-ok loop (run_command calls r.arguments rest) x keep e

  pub process_loop-ok : (fuel : ℕ) (s : Session) → (process_loop fuel calls s).1 ≡ ok tt
  unfolding process_loop round
  process_loop-ok zero s = refl
  process_loop-ok (suc fuel) s = elim (Bool-cases (has_none s.m_input || s.m_close_after_write)) [
    | inl over ↦ rw over refl
    | inr more ↦ rw more (
        after_parse-ok (process_loop fuel calls) (parse_command s.m_input).status
          (parse_command s.m_input) s (process_loop-ok fuel) (parse_command-Admitted s.m_input)
          (parse_command-IsBulk s.m_input))
  ]

  read_on-ok : (r : Session × Result (Unit {0})) → r.1 ≡ ok tt → (read_on r).1 ≡ ok tt
  unfolding read_on
  read_on-ok (s, err e) h = h
  read_on-ok (s, ok u) h = refl

  after_receive-ok : (s : Session) → (after_receive calls s).1 ≡ ok tt
  unfolding after_receive process
  after_receive-ok s = elim (Bool-cases (ltb max_buffered_input (length s.m_input))) [
    | inl large ↦ rw large refl
    | inr small ↦ rw small (read_on-ok _ (process_loop-ok (suc (length s.m_input)) s))
  ]

  -- If the database calls of the commands meet no fault, the handler of a read ends without
  -- an exception, whatever bytes arrive and whatever state the session is in.
  pub on_read-ok : (input : Option Bytes) (s : Session) → (on_read calls input s).1 ≡ ok tt
  unfolding on_read
  on_read-ok none s = refl
  on_read-ok (some bytes) s = after_receive-ok (receive bytes (record s { reads = s.reads - 1 }))

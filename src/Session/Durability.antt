-- ===== src/Session/Durability.antt =====
-- A session on a durable database.
use radish.Shared.{
  ℕ, zero, suc, ◌-◌, Bool, true, false, ◌||◌, List, [], ◌∷◌, ◌++◌, ◌≡◌, refl, sym, ap, arith, Bytes,
  length, drop, ltb, Bool-cases, inl, inr, if◌then◌else◌, Result, ok, err, subst,
}
use radish.Binary.{string_value}
use radish.Database.Durable.{IsDurable}
use radish.RespCodec.{
  Status, complete, incomplete, error, RespParseResult, max_buffered_input, parse_command,
}
use radish.RespCodec.Replies.{error_reply}
use radish.Commands.{CommandResult}
use radish.Commands.Durability.{dispatch-IsDurable}
use radish.Session.{
  Session, Environment, has_none, read, write, queue, receive, run_command, after_command,
  after_parse, round, process_loop, process, read_on, after_receive, on_read, after_write,
  pop_output, on_write,
}
use radish.Session.Steps.{Step, reads_bytes, reads_error, writes_response, writes_error}

abbrev pub IsDurableSession : Session → Type 0
IsDurableSession s = IsDurable s.context.m_database

queue-IsDurable :
    (response : Bytes) (close : Bool) (s : Session)
    → IsDurableSession s
    → IsDurableSession (queue response close s)
queue-IsDurable response close s d = subst IsDurable (sym (same response close s)) d
  where
    same :
        (response : Bytes) (close : Bool) (s : Session)
        → (queue response close s).context.m_database ≡ s.context.m_database
    same response close s = unfold queue write in ground arith

run_command-IsDurable :
    (calls : Environment) (arguments : List Bytes) (s : Session) (r : CommandResult)
    → IsDurableSession s
    → (run_command calls arguments s).1 ≡ ok r
    → IsDurableSession (run_command calls arguments s).0
unfolding run_command
run_command-IsDurable calls arguments s r d h =
    dispatch-IsDurable (calls s.served) arguments s.context r d h

module _ (calls : Environment) where
  after_command-IsDurable :
      (loop : Session → Session × Result (Unit {0})) (r : Session × Result CommandResult)
      → ((s : Session) → IsDurableSession s → (loop s).1 ≡ ok tt → IsDurableSession (loop s).0)
      → ((x : CommandResult) → r.1 ≡ ok x → IsDurableSession r.0)
      → (after_command loop r).1 ≡ ok tt
      → IsDurableSession (after_command loop r).0
  unfolding after_command
  after_command-IsDurable loop (s, err e) keep d h = absurd (cc)
  after_command-IsDurable loop (s, ok (response, close)) keep d h =
      keep (queue response close s) (queue-IsDurable response close s (d (response, close) refl)) h

  after_parse-IsDurable :
      (loop : Session → Session × Result (Unit {0})) (status : Status) (r : RespParseResult)
      (s : Session)
      → ((s : Session) → IsDurableSession s → (loop s).1 ≡ ok tt → IsDurableSession (loop s).0)
      → IsDurableSession s
      → (after_parse calls loop status r s).1 ≡ ok tt
      → IsDurableSession (after_parse calls loop status r s).0
  unfolding after_parse
  after_parse-IsDurable loop incomplete r s keep d h = d
  after_parse-IsDurable loop error r s keep d h = queue-IsDurable (error_reply r.message) true s d
  after_parse-IsDurable loop complete r s keep d h =
      let rest = record s { m_input = drop r.consumed s.m_input } in
      after_command-IsDurable loop (run_command calls r.arguments rest) keep
        (λ x. run_command-IsDurable calls r.arguments rest x d) h

  process_loop-IsDurable :
      (fuel : ℕ) (s : Session)
      → IsDurableSession s
      → (process_loop fuel calls s).1 ≡ ok tt
      → IsDurableSession (process_loop fuel calls s).0
  unfolding process_loop round
  process_loop-IsDurable zero s d h = d
  process_loop-IsDurable (suc fuel) s d h =
      elim (Bool-cases (has_none s.m_input || s.m_close_after_write)) [
        | inl over ↦ rw over d
        | inr more ↦ rw more (
            after_parse-IsDurable (process_loop fuel calls) (parse_command s.m_input).status
              (parse_command s.m_input) s (process_loop-IsDurable fuel) d (rw more at h))
      ]

  read_on-IsDurable :
      (r : Session × Result (Unit {0}))
      → (r.1 ≡ ok tt → IsDurableSession r.0)
      → (read_on r).1 ≡ ok tt
      → IsDurableSession (read_on r).0
  unfolding read_on read
  read_on-IsDurable (s, err e) d h = absurd (cc)
  read_on-IsDurable (s, ok u) d h = choose s.m_close_after_write
    where
      choose : (b : Bool) → IsDurableSession (if b then s else read s)
      choose true = d refl
      choose false = d refl

  after_receive-IsDurable :
      (s : Session)
      → IsDurableSession s
      → (after_receive calls s).1 ≡ ok tt
      → IsDurableSession (after_receive calls s).0
  unfolding after_receive process
  after_receive-IsDurable s d h = elim (Bool-cases (ltb max_buffered_input (length s.m_input))) [
    | inl large ↦ rw large (queue-IsDurable _ true s d)
    | inr small ↦ rw small (
        read_on-IsDurable (process_loop (suc (length s.m_input)) calls s)
          (process_loop-IsDurable (suc (length s.m_input)) s d) (rw small at h))
  ]

database-on_write :
    (done : Bool) (s : Session) → (on_write done s).context.m_database ≡ s.context.m_database
unfolding on_write
database-on_write false s = refl
database-on_write true s = popped s.m_output
  where
    popped :
        (output : List Bytes)
        → (after_write (pop_output output (record s { writes = s.writes - 1 }))).context.m_database
          ≡ s.context.m_database
    popped [] = unfold after_write pop_output write in ground arith
    popped (response ∷ rest) = unfold after_write pop_output write in ground arith

pub Step-IsDurable :
    (calls : Environment) {s t : Session} → Step calls s t → IsDurableSession s → IsDurableSession t
unfolding on_read receive
Step-IsDurable calls {s} (reads_bytes bytes h e) d = subst IsDurableSession (ap (λ r. r.0) e) (
    after_receive-IsDurable calls (record s { reads = s.reads - 1; m_input = s.m_input ++ bytes }) d
      (ap (λ r. r.1) e))
Step-IsDurable calls (reads_error h e) d = subst IsDurableSession (ap (λ r. r.0) e) d
Step-IsDurable calls {s} (writes_response h e) d =
    subst IsDurableSession e (subst IsDurable (sym (database-on_write true s)) d)
Step-IsDurable calls {s} (writes_error h e) d =
    subst IsDurableSession e (subst IsDurable (sym (database-on_write false s)) d)

-- ===== src/Session/Frames.antt =====
-- `Process` beside the reads in flight, which it does not touch, and the input that it leaves.
use radish.Shared.{
  ℕ, zero, suc, ◌-◌, ◌<◌, ◌≤◌, Bool, true, false, ◌||◌, ◌≡◌, refl, sym, ap, ◌∙◌, arith, some, Bytes,
  length, drop, ltb, length-drop, Bool-cases, inl, inr, Result, ok, err,
}
use radish.RespCodec.{
  Status, complete, incomplete, error, RespParseResult, parse_command, max_buffered_input,
}
use radish.RespCodec.Replies.{error_reply}
use radish.Commands.{CommandResult}
use radish.Session.{
  Session, Environment, has_none, receive, queue, run_command, after_command, after_parse, round,
  read, read_on, process_loop, process, after_receive, on_read,
}
use radish.Session.Fuel.{m_input-queue, m_input-run_command}

abbrev at_reads : ℕ → Session → Session
at_reads k s = record s { reads = k }

abbrev pub both_at : {A : Type 0} → ℕ → Session × A → Session × A
both_at k (s, r) = (at_reads k s, r)

queue-at_reads :
    (response : Bytes) (close : Bool) (k : ℕ) (s : Session)
    → queue response close (at_reads k s) ≡ at_reads k (queue response close s)
unfolding queue
queue-at_reads response close k s = ground arith

run_command-at_reads :
    (calls : Environment) (arguments : _) (k : ℕ) (s : Session)
    → run_command calls arguments (at_reads k s) ≡ both_at k (run_command calls arguments s)
unfolding run_command
run_command-at_reads calls arguments k s = refl

module _ (calls : Environment) (k : ℕ) (loop : Session → Session × Result (Unit {0}))
    (same : (s : Session) → loop (at_reads k s) ≡ both_at k (loop s)) where
  after_command-at_reads :
      (r : Session × Result CommandResult)
      → after_command loop (both_at k r) ≡ both_at k (after_command loop r)
  unfolding after_command
  after_command-at_reads (s, err e) = refl
  after_command-at_reads (s, ok (response, close)) =
      ap loop (queue-at_reads response close k s) ∙ same (queue response close s)

  after_parse-at_reads :
      (status : Status) (r : RespParseResult) (s : Session)
      → after_parse calls loop status r (at_reads k s)
        ≡ both_at k (after_parse calls loop status r s)
  unfolding after_parse
  after_parse-at_reads incomplete r s = refl
  after_parse-at_reads error r s =
      ap (λ t. (t, ok tt)) (queue-at_reads (error_reply r.message) true k s)
  after_parse-at_reads complete r s =
      let rest = record s { m_input = drop r.consumed s.m_input } in
      ap (after_command loop) (run_command-at_reads calls r.arguments k rest)
      ∙ after_command-at_reads (run_command calls r.arguments rest)

  round-at_reads : (s : Session) → round calls loop (at_reads k s) ≡ both_at k (round calls loop s)
  unfolding round
  round-at_reads s = elim (Bool-cases (has_none s.m_input || s.m_close_after_write)) [
    | inl over ↦ rw over refl
    | inr more ↦
        rw more (after_parse-at_reads (parse_command s.m_input).status (parse_command s.m_input) s)
  ]

process_loop-at_reads :
    (fuel : ℕ) (calls : Environment) (k : ℕ) (s : Session)
    → process_loop fuel calls (at_reads k s) ≡ both_at k (process_loop fuel calls s)
unfolding process_loop
process_loop-at_reads zero calls k s = refl
process_loop-at_reads (suc fuel) calls k s =
    round-at_reads calls k (process_loop fuel calls) (process_loop-at_reads fuel calls k) s

pub process-at_reads :
    (calls : Environment) (k : ℕ) (s : Session)
    → process calls (at_reads k s) ≡ both_at k (process calls s)
unfolding process
process-at_reads calls k s = process_loop-at_reads (suc (length s.m_input)) calls k s

module _ (calls : Environment) (loop : Session → Session × Result (Unit {0})) (m : ℕ)
    (keep : (s : Session) → length s.m_input ≤ m → length (loop s).0.m_input ≤ m) where
  after_command-le :
      (r : Session × Result CommandResult)
      → length r.0.m_input ≤ m
      → length (after_command loop r).0.m_input ≤ m
  unfolding after_command
  after_command-le (s, err e) h = h
  after_command-le (s, ok (response, close)) h =
      keep (queue response close s) (rw (m_input-queue response close s) h)

  after_parse-le :
      (status : Status) (r : RespParseResult) (s : Session)
      → length s.m_input ≤ m
      → length (after_parse calls loop status r s).0.m_input ≤ m
  unfolding after_parse
  after_parse-le incomplete r s h = h
  after_parse-le error r s h = rw (m_input-queue (error_reply r.message) true s) h
  after_parse-le complete r s h =
      let rest = record s { m_input = drop r.consumed s.m_input } in
      after_command-le (run_command calls r.arguments rest) (
        rw (m_input-run_command calls r.arguments rest)
          (omega (arith, length-drop r.consumed s.m_input)))

process_loop-le :
    (fuel : ℕ) (calls : Environment) (m : ℕ) (s : Session)
    → length s.m_input ≤ m
    → length (process_loop fuel calls s).0.m_input ≤ m
unfolding process_loop round
process_loop-le zero calls m s h = h
process_loop-le (suc fuel) calls m s h =
    elim (Bool-cases (has_none s.m_input || s.m_close_after_write)) [
      | inl over ↦ rw over h
      | inr more ↦ rw more (
          after_parse-le calls (process_loop fuel calls) m (process_loop-le fuel calls m)
            (parse_command s.m_input).status (parse_command s.m_input) s h)
    ]

-- No round adds to the input.
pub process-le :
    (calls : Environment) (s : Session) → length (process calls s).0.m_input ≤ length s.m_input
unfolding process
process-le calls s =
    process_loop-le (suc (length s.m_input)) calls (length s.m_input) s (omega arith)

-- The reads in flight are those of before.
pub process-reads : (calls : Environment) (s : Session) → (process calls s).0.reads ≡ s.reads
process-reads calls s = ap (λ r. r.0.reads) (process-at_reads calls s.reads s)

-- The handler of a read where the buffer has room: it processes what it received, and reads on.
pub on_read-process :
    (calls : Environment) (bytes : Bytes) (s : Session)
    → length (receive bytes s).m_input ≤ max_buffered_input
    → on_read calls (some bytes) s
      ≡ read_on (both_at (s.reads - 1) (process calls (receive bytes s)))
unfolding on_read after_receive receive
on_read-process calls bytes s h =
    rw (room (length (receive bytes s).m_input) (unfold receive in h))
      (ap read_on (process-at_reads calls (s.reads - 1) (receive bytes s)))
  where
    room : (n : ℕ) → n ≤ max_buffered_input → ltb max_buffered_input n ≡ false
    room n h = ground arith

read_on-at_reads :
    (k : ℕ) (s : Session)
    → s.m_close_after_write ≡ false
    → read_on (at_reads k s, ok tt) ≡ (at_reads (suc k) s, ok tt)
unfolding read_on read
read_on-at_reads k s going = rw going refl

read_back :
    (s : Session)
    → 0 < s.reads
    → s.m_close_after_write ≡ false
    → read_on (at_reads (s.reads - 1) s, ok tt) ≡ (s, ok tt)
read_back s h going =
    let again : suc (s.reads - 1) ≡ s.reads = omega arith in
    read_on-at_reads (s.reads - 1) s going ∙ ap (λ n. (at_reads n s, ok tt)) again

read_on-closing :
    (k : ℕ) (s : Session)
    → (read_on (at_reads k s, ok tt)).0.m_close_after_write ≡ s.m_close_after_write
unfolding read_on read
read_on-closing k s = ground arith

-- With a read in flight, such a handler that leaves a session that is not to be closed has
-- done what `Process` does, and the other way round.
pub read_on-same :
    (r : Session × Result (Unit {0})) (t : Session)
    → 0 < r.0.reads
    → t.m_close_after_write ≡ false
    → (r ≡ (t, ok tt) → read_on (both_at (r.0.reads - 1) r) ≡ (t, ok tt))
      × (read_on (both_at (r.0.reads - 1) r) ≡ (t, ok tt) → r ≡ (t, ok tt))
read_on-same (s, err e) t h k = (λ e'. absurd (cc), λ e'. absurd (unfold read_on in cc))
read_on-same (s, ok u) t h k = (
  λ e. read_back s h (ap (λ r. r.0.m_close_after_write) e ∙ k) ∙ e,
  λ e.
      let going = sym (read_on-closing (s.reads - 1) s) ∙ ap (λ r. r.0.m_close_after_write) e ∙ k in
      sym (read_back s h going) ∙ e,
)

-- ===== src/Session/Feeding.antt =====
-- A session that is fed the pieces of its input one after another.
use radish.Shared.{
  Bool, ◌+◌, ◌-◌, ◌<◌, ◌≤◌, some, err, length, length-append, arith, Bool-cases, inl, inr, joined,
  ℕ, true, false, ◌||◌, List, [], ◌∷◌, ◌++◌, ◌≡◌, refl, sym, ap, ◌∙◌, Bytes, append_assoc,
  append-nil, All, Result, ok,
}
use radish.Commands.{Context}
use radish.RespCodec.{max_buffered_input}
use radish.Session.{Session, Environment, has_none, receive, process, read_on, on_read}
use radish.Session.Frames.{both_at, process-le, process-reads, on_read-process, read_on-same}
use radish.Session.Chunks.{
  resume, process-receive, process_loop-round, round_over, m_input-receive, process-closing,
  closing-receive,
}
use radish.Session.Pipeline.{
  Answers, IsSendable, encode_all, answered, process-Answers, process_loop-process,
}

-- The handler of a read for each piece in turn, until one throws.
unfoldable pub feed :
    Environment → List Bytes → Session × Result (Unit {0}) → Session × Result (Unit {0})
unfolding on_read
feed calls [] r = r
feed calls (piece ∷ pieces) (s, err e) = (s, err e)
feed calls (piece ∷ pieces) (s, ok u) = feed calls pieces (on_read calls (some piece) s)

receive-nil : (s : Session) → s ≡ receive [] s
unfolding receive
receive-nil s i = record s { m_input = sym (append-nil s.m_input) i }

receive-receive : (a b : Bytes) (s : Session) → receive b (receive a s) ≡ receive (a ++ b) s
unfolding receive
receive-receive a b s i = record s { m_input = append_assoc s.m_input a b i }

-- A session that has processed its input.
abbrev pub IsSettled : Environment → Session → Type 0
IsSettled calls s = process calls s ≡ (s, ok tt)

reads-receive : (bytes : Bytes) (s : Session) → (receive bytes s).reads ≡ s.reads
unfolding receive
reads-receive bytes s = refl

length-receive :
    (bytes : Bytes) (s : Session)
    → length (receive bytes s).m_input ≡ length s.m_input + length bytes
unfolding receive
length-receive bytes s = length-append s.m_input bytes

-- The handler of a read where the buffer has room, for a session that is not to be closed behind it.
on_read-same :
    (calls : Environment) (bytes : Bytes) (s t : Session)
    → 0 < s.reads
    → length s.m_input + length bytes ≤ max_buffered_input
    → t.m_close_after_write ≡ false
    → (process calls (receive bytes s) ≡ (t, ok tt) → on_read calls (some bytes) s ≡ (t, ok tt))
      × (on_read calls (some bytes) s ≡ (t, ok tt) → process calls (receive bytes s) ≡ (t, ok tt))
on_read-same calls bytes s t going room stays =
    let r = process calls (receive bytes s) in
    let same : r.0.reads ≡ s.reads =
      process-reads calls (receive bytes s) ∙ reads-receive bytes s in
    let handled : on_read calls (some bytes) s ≡ read_on (both_at (r.0.reads - 1) r) =
      on_read-process calls bytes s (omega (arith, length-receive bytes s))
      ∙ ap (λ n. read_on (both_at (n - 1) r)) (sym same) in
    let (there, back) = read_on-same r t (omega (arith, same)) stays in
    (λ e. handled ∙ there e, λ e. back (sym handled ∙ e))

-- A session that is to be closed stays so.
keeps_closing :
    (calls : Environment) (bytes : Bytes) (s t : Session)
    → s.m_close_after_write ≡ true
    → process calls (receive bytes s) ≡ (t, ok tt)
    → t.m_close_after_write ≡ true
keeps_closing calls bytes s t closing h =
    let still = closing-receive bytes s ∙ closing in
    ap (λ r. r.0.m_close_after_write) (sym h ∙ process-closing calls (receive bytes s) still)
    ∙ still

differ : {b : Bool} → b ≡ true → b ≡ false → ⊥
differ h k = cc

-- What `Process` leaves without an exception is settled.
settled : (calls : Environment) (s t : Session) → process calls s ≡ (t, ok tt) → IsSettled calls t
settled calls s t h =
    ap (process calls) (receive-nil t)
    ∙ sym (ap (resume calls []) h ∙ (unfold resume in refl))
    ∙ sym (process-receive calls [] s)
    ∙ ap (process calls) (sym (receive-nil s))
    ∙ h

-- What is processed in two parts: the first is settled, and does not close where the whole does not.
process_two :
    (calls : Environment) (a b : Bytes) (s t : Session) (r : Session × Result (Unit {0}))
    → process calls (receive a s) ≡ r
    → process calls (receive b (receive a s)) ≡ (t, ok tt)
    → t.m_close_after_write ≡ false
    → (r ≡ (r.0, ok tt))
      × (r.0.m_close_after_write ≡ false)
      × IsSettled calls r.0
      × (process calls (receive b r.0) ≡ (t, ok tt))
process_two calls a b s t (x, err e) first h stays =
    absurd (thrown (sym (process-receive calls b (receive a s) ∙ ap (resume calls b) first) ∙ h))
  where
    thrown : resume calls b (x, err e) ≡ (t, ok tt) → ⊥
    thrown h = unfold resume in cc
process_two calls a b s t (x, ok u) first h stays =
    let rest : process calls (receive b x) ≡ (t, ok tt) =
      sym (
        process-receive calls b (receive a s) ∙ ap (resume calls b) first ∙ (unfold resume in refl))
      ∙ h in
    (
      refl,
      elim (Bool-cases x.m_close_after_write) [
        | inl closing ↦ absurd (differ (keeps_closing calls b x t closing rest) stays)
        | inr going ↦ going
      ],
      settled calls (receive a s) x first,
      rest,
    )

process-empty : (calls : Environment) (s : Session) → s.m_input ≡ [] → process calls s ≡ (s, ok tt)
process-empty calls s h =
    process_loop-process calls s ∙ process_loop-round _ calls s ∙ round_over calls _ s (over s h)
  where
    over : (s : Session) → s.m_input ≡ [] → (has_none s.m_input || s.m_close_after_write) ≡ true
    over s h = rw h refl

answered-receive :
    (bytes : Bytes) (m : ℕ) (d : Context) (responses : List Bytes) (s : Session)
    → answered [] m d responses (receive bytes s) ≡ answered [] m d responses s
unfolding receive
answered-receive bytes m d responses s = refl

-- While the buffer has room, a session that has processed its input and is not to be closed at the
-- end does for the pieces what it does for all of them.
feed-process :
    (calls : Environment) (pieces : List Bytes) (s t : Session)
    → IsSettled calls s
    → 0 < s.reads
    → length s.m_input + length (joined pieces) ≤ max_buffered_input
    → t.m_close_after_write ≡ false
    → process calls (receive (joined pieces) s) ≡ (t, ok tt)
    → feed calls pieces (s, ok tt) ≡ (t, ok tt)
unfolding feed
feed-process calls [] s t calm going room stays h =
    sym calm ∙ ap (process calls) (receive-nil s) ∙ h
feed-process calls (piece ∷ pieces) s t calm going room stays h =
    let r = process calls (receive piece s) in
    let (fine, still_open, calm', rest) =
      process_two calls piece (joined pieces) s t r refl
        (ap (process calls) (receive-receive piece (joined pieces) s) ∙ h) stays in
    let (handled, back) =
      on_read-same calls piece s r.0 going (omega (arith, length-append piece (joined pieces)))
        still_open in
    ap (feed calls pieces) (handled fine)
    ∙ feed-process calls pieces r.0 t calm'
        (omega (arith, process-reads calls (receive piece s), reads-receive piece s))
        (omega (
          arith,
          process-le calls (receive piece s),
          length-receive piece s,
          length-append piece (joined pieces),
        ))
        stays rest

-- Let a session have processed its input and have a read in flight, and let its input have at
-- most 8 MiB with the bytes that arrive. If the handler of one read that receives all of these,
-- whatever they are, throws nothing and leaves a session that is not to be closed, then the
-- handlers of reads that receive them in pieces leave the same session, responses and database,
-- commands of the same number meeting the same clock and faults.
pub feed-joined :
    (calls : Environment) (pieces : List Bytes) (s t : Session)
    → IsSettled calls s
    → 0 < s.reads
    → length s.m_input + length (joined pieces) ≤ max_buffered_input
    → t.m_close_after_write ≡ false
    → on_read calls (some (joined pieces)) s ≡ (t, ok tt)
    → feed calls pieces (s, ok tt) ≡ (t, ok tt)
feed-joined calls pieces s t calm going room stays h =
    feed-process calls pieces s t calm going room stays
      ((on_read-same calls (joined pieces) s t going room stays).1 h)

-- Let a session have a read in flight and no input left and not be about to close, and let its
-- client send commands of one to 1024 arguments, none longer than 4 MiB, that can be dispatched
-- one after another without an exception or a close, in at most 8 MiB, which the input buffer
-- admits. In whatever pieces their bytes arrive, the handlers of the reads of these pieces end
-- with the responses of these dispatches queued in order, in their final state, with no input
-- left, and with a write in flight if the queue was empty and there is a response.
pub feed-Answers :
    (calls : Environment) (pieces : List Bytes) {m : ℕ} {d : Context} {commands : List (List Bytes)}
    {responses : List Bytes} (s : Session)
    → Answers calls s.served s.context commands m d responses
    → s.m_input ≡ []
    → s.m_close_after_write ≡ false
    → 0 < s.reads
    → All IsSendable commands
    → joined pieces ≡ encode_all commands
    → length (joined pieces) ≤ max_buffered_input
    → feed calls pieces (s, ok tt) ≡ (answered [] m d responses s, ok tt)
feed-Answers calls pieces {m} {d} {commands} {responses} s answers empty going reading sendable cut
      room =
    let t = receive (joined pieces) s in
    feed-process calls pieces s (answered [] m d responses s) (process-empty calls s empty) reading
      (omega (arith, room, ap length empty)) going
      (process-Answers calls [] t answers (served s) (context s) (closing s ∙ going) sendable (
          m_input-receive (joined pieces) s
          ∙ ap (λ x. x ++ joined pieces) empty
          ∙ cut
          ∙ sym (append-nil (encode_all commands)))
        ∙ process-empty calls (answered [] m d responses t) refl
        ∙ ap (λ s'. (s', ok tt)) (answered-receive (joined pieces) m d responses s))
  where
    served : (s : Session) → (receive (joined pieces) s).served ≡ s.served
    served s = unfold receive in refl

    context : (s : Session) → (receive (joined pieces) s).context ≡ s.context
    context s = unfold receive in refl

    closing :
        (s : Session) → (receive (joined pieces) s).m_close_after_write ≡ s.m_close_after_write
    closing s = unfold receive in refl

-- ===== src/Session/Steps.antt =====
-- The steps of a session: a completed read or write, with its result. They may come in any order.
pub mod Invariant
pub mod Delivery
pub mod Liveness
use radish.Shared.{
  ℕ, zero, suc, ◌+◌, ◌-◌, ◌<◌, ◌≤◌, Bool, true, false, not, ◌&&◌, ◌||◌, Option, none, some, List,
  [], ◌∷◌, ◌++◌, ◌≡◌, ◌⊎◌, inl, inr, refl, sym, ap, ◌∙◌, arith, Bytes, codes, length, drop,
  append_assoc, append-nil, ltb, Bool-cases, if◌then◌else◌, Result, ok, err, subst,
}
use radish.RespCodec.{
  Status, complete, incomplete, error, RespParseResult, max_buffered_input, parse_command,
}
use radish.RespCodec.Replies.{error_reply}
use radish.Database.{RadishDb}
use radish.Commands.{Context, CommandResult, dispatch}
use radish.Session.{
  Session, Environment, has_none, start, read, write, queue, push_output, receive, run_command,
  after_command, after_parse, round, process_loop, process, read_on, after_receive, on_read,
  after_write, pop_output, on_write,
}

-- One step of a session whose handlers do not throw: a handler runs for an operation in flight.
pub data Step (calls : Environment) : Session → Session → Type 0 where
  reads_bytes :
      {s s' : Session} (bytes : Bytes)
      → 0 < s.reads
      → on_read calls (some bytes) s ≡ (s', ok tt)
      → Step calls s s'
  reads_error :
      {s s' : Session} → 0 < s.reads → on_read calls none s ≡ (s', ok tt) → Step calls s s'
  writes_response : {s s' : Session} → 0 < s.writes → on_write true s ≡ s' → Step calls s s'
  writes_error : {s s' : Session} → 0 < s.writes → on_write false s ≡ s' → Step calls s s'

pub data Steps (calls : Environment) : Session → Session → Type 0 where
  here : {s : Session} → Steps calls s s
  then_step : {s t u : Session} → Steps calls s t → Step calls t u → Steps calls s u

-- What the loop of `Process` keeps: what a queued response and a dispatched command keep.
module _ {ℓ} (P : Session → Type ℓ)
    (queued : (response : Bytes) (close : Bool) (s : Session) → P s → P (queue response close s))
    (moved : (c : Context) (input : Bytes) (n : ℕ) (s : Session)
      → P s
      → P (record s { context = c; m_input = input; served = n }))
    (calls : Environment) where
  after_command-keeps :
      (loop : Session → Session × Result (Unit {0})) (r : Session × Result CommandResult)
      → ((s : Session) → P s → P (loop s).0)
      → P r.0
      → P (after_command loop r).0
  unfolding after_command
  after_command-keeps loop (s, err e) keep h = h
  after_command-keeps loop (s, ok (response, close)) keep h = keep _ (queued response close s h)

  after_parse-keeps :
      (loop : Session → Session × Result (Unit {0})) (status : Status) (r : RespParseResult)
      (s : Session)
      → ((s : Session) → P s → P (loop s).0)
      → P s
      → P (after_parse calls loop status r s).0
  unfolding after_parse
  after_parse-keeps loop incomplete r s keep h = h
  after_parse-keeps loop error r s keep h = queued (error_reply r.message) true s h
  after_parse-keeps loop complete r s keep h =
      after_command-keeps loop (run_command calls r.arguments rest) keep (
        unfold run_command in
        moved (dispatch (calls s.served) r.arguments s.context).0 (drop r.consumed s.m_input)
          (suc s.served) s h)
    where
      rest : Session
      rest = record s { m_input = drop r.consumed s.m_input }

  pub process_loop-keeps : (fuel : ℕ) (s : Session) → P s → P (process_loop fuel calls s).0
  unfolding process_loop round
  process_loop-keeps zero s h = h
  process_loop-keeps (suc fuel) s h =
      elim (Bool-cases (has_none s.m_input || s.m_close_after_write)) [
        | inl over ↦ rw over h
        | inr more ↦ rw more (
            after_parse-keeps (process_loop fuel calls) (parse_command s.m_input).status
              (parse_command s.m_input) s (process_loop-keeps fuel) h)
      ]

  -- What the handler of a read leaves: a session that is to be closed, or one that reads on.
  abbrev pub Left : Session → Type ℓ
  Left s' =
      (P s' × (s'.m_close_after_write ≡ true))
      ⊎ ((t : Session) × P t × (t.m_close_after_write ≡ false) × (s' ≡ read t))

  read_on-Left :
      (r : Session × Result (Unit {0})) → P r.0 → (read_on r).1 ≡ ok tt → Left (read_on r).0
  unfolding read_on
  read_on-Left (t, err e) h k = absurd (cc)
  read_on-Left (t, ok u) h k = choose t.m_close_after_write refl
    where
      choose : (b : Bool) → t.m_close_after_write ≡ b → Left (if b then t else read t)
      choose true e = inl (h, e)
      choose false e = inr (t, h, e, refl)

  process-keeps : (s : Session) → P s → P (process calls s).0
  unfolding process
  process-keeps s h = process_loop-keeps (suc (length s.m_input)) s h

  pub after_receive-Left :
      (s : Session) → P s → (after_receive calls s).1 ≡ ok tt → Left (after_receive calls s).0
  unfolding after_receive
  after_receive-Left s h k = elim (Bool-cases (ltb max_buffered_input (length s.m_input))) [
    | inl large ↦ rw large (inl (queued _ true s h, closing _ s))
    | inr small ↦ rw small (read_on-Left (process calls s) (process-keeps s h) (rw small at k))
  ]
    where
      closing :
          (response : Bytes) (s : Session) → (queue response true s).m_close_after_write ≡ true
      closing response s = unfold queue in ground arith

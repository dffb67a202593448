-- ===== src/Session.antt =====
-- `TcpServer::Session` of src/network/TcpServer.cpp: the buffers of a connection, and what the
-- completion handlers of its asynchronous reads and writes do. asio runs the handlers one at a time
-- and calls each once; the operations in flight are counted, since asio forbids two writes at once.
pub mod Fuel
pub mod Chunks
pub mod Pipeline
pub mod Frames
pub mod Feeding
pub mod Steps
pub mod Total
pub mod Durability
mod Tests
use radish.Shared.{
  ℕ, zero, suc, ◌-◌, Bool, true, false, not, ◌&&◌, ◌||◌, Option, none, some, List, [], ◌∷◌, ◌++◌,
  Bytes, codes, length, drop, ltb, if◌then◌else◌, Result, ok, err,
}
use radish.RespCodec.{
  RespVersion, resp2, Status, complete, incomplete, error, RespParseResult, max_buffered_input,
  parse_command,
}
use radish.RespCodec.Replies.{error_reply}
use radish.Database.{RadishDb}
use radish.Commands.{Context, Calls, CommandResult, dispatch}

-- `context` holds m_database and m_version, `is_open` whether m_socket is open. The last four fields
-- are not in the source: the operations in flight, the responses whose write has completed, and the
-- number of commands dispatched, which picks the calls of the next one.
pub record Session : Type 0 where
  pub context : Context
  pub m_input : Bytes
  pub m_output : List Bytes
  pub m_close_after_write : Bool
  pub is_open : Bool
  pub reads : ℕ
  pub writes : ℕ
  pub sent : List Bytes
  pub served : ℕ

-- For each command of a session, the clock readings and faults of its database calls.
abbrev pub Environment : Type 0
Environment = ℕ → Calls

abbrev pub has_none {ℓ} : {A : Type ℓ} → List A → Bool
has_none [] = true
has_none (x ∷ xs) = false

-- async_read_some
unfoldable pub read : Session → Session
read s = record s { reads = suc s.reads }

-- async_write of m_output.front()
unfoldable pub write : Session → Session
write s = record s { writes = suc s.writes }

-- A new session, started.
unfoldable pub start : RadishDb Bytes → Session
unfolding read
start db = read (record {
  context = record { m_database = db; m_version = resp2 };
  m_input = [];
  m_output = [];
  m_close_after_write = false;
  is_open = true;
  reads = 0;
  writes = 0;
  sent = [];
  served = 0;
})

abbrev push_output : Bytes → Bool → Session → Session
push_output response close_after_write s = record s {
  m_output = s.m_output ++ response ∷ [];
  m_close_after_write = s.m_close_after_write || close_after_write;
}

unfoldable pub queue : Bytes → Bool → Session → Session
unfolding write
queue response close_after_write s =
    if has_none s.m_output
    then write (push_output response close_after_write s)
    else push_output response close_after_write s

-- One command: dispatched over the fields that its handler touches.
unfoldable pub run_command : Environment → List Bytes → Session → Session × Result CommandResult
run_command calls arguments s =
    let (context', result) = dispatch (calls s.served) arguments s.context in
    (record s { context = context'; served = suc s.served }, result)

-- The rest of a round of the loop: `loop` is the rounds behind it.
unfoldable pub after_command :
    (Session → Session × Result (Unit {0}))
    → Session × Result CommandResult
    → Session × Result (Unit {0})
after_command loop (s, err e) = (s, err e)
after_command loop (s, ok (response, close)) = loop (queue response close s)

unfoldable pub after_parse :
    Environment
    → (Session → Session × Result (Unit {0}))
    → Status
    → RespParseResult
    → Session
    → Session × Result (Unit {0})
unfolding after_command
after_parse calls loop incomplete r s = (s, ok tt)
after_parse calls loop error r s = (queue (error_reply r.message) true s, ok tt)
after_parse calls loop complete r s =
    after_command loop
      (run_command calls r.arguments (record s { m_input = drop r.consumed s.m_input }))

unfoldable pub round :
    Environment → (Session → Session × Result (Unit {0})) → Session → Session × Result (Unit {0})
round calls loop s =
    if has_none s.m_input || s.m_close_after_write
    then (s, ok tt)
    else after_parse calls loop (parse_command s.m_input).status (parse_command s.m_input) s

-- The loop of `Process`, on fuel: a round in which it goes on takes at least one byte.
unfoldable pub process_loop : ℕ → Environment → Session → Session × Result (Unit {0})
process_loop zero calls s = (s, ok tt)
process_loop (suc fuel) calls s = round calls (process_loop fuel calls) s

unfoldable pub process : Environment → Session → Session × Result (Unit {0})
process calls s = process_loop (suc (length s.m_input)) calls s

-- The next read, unless `Process` has thrown or the session is to be closed.
unfoldable pub read_on : Session × Result (Unit {0}) → Session × Result (Unit {0})
unfolding read
read_on (s, err e) = (s, err e)
read_on (s, ok u) = (if s.m_close_after_write then s else read s, ok u)

-- m_input.append
unfoldable pub receive : Bytes → Session → Session
receive bytes s = record s { m_input = s.m_input ++ bytes }

unfoldable pub after_receive : Environment → Session → Session × Result (Unit {0})
unfolding read_on
after_receive calls s =
    if ltb max_buffered_input (length s.m_input)
    then (queue (error_reply (codes "Protocol error: input buffer limit exceeded")) true s, ok tt)
    else read_on (process calls s)

-- The handler of a read: `none` is an error.
unfoldable pub on_read : Environment → Option Bytes → Session → Session × Result (Unit {0})
unfolding after_receive
on_read calls none s = (record s { reads = s.reads - 1 }, ok tt)
on_read calls (some bytes) s =
    after_receive calls (receive bytes (record s { reads = s.reads - 1 }))

-- The end of the handler of a write, behind `pop_front`.
unfoldable pub after_write : Session → Session
unfolding write
after_write s =
    if not (has_none s.m_output)
    then write s
    else if s.m_close_after_write
    then record s { is_open = false }
    else s

-- `m_output.pop_front()`, which has no defined result on an empty queue.
unfoldable pub pop_output : List Bytes → Session → Session
pop_output [] s = s
pop_output (response ∷ rest) s = record s { m_output = rest; sent = s.sent ++ response ∷ [] }

-- The handler of a write: false is an error.
unfoldable pub on_write : Bool → Session → Session
unfolding after_write pop_output
on_write false s = record s { writes = s.writes - 1 }
on_write true s = after_write (pop_output s.m_output (record s { writes = s.writes - 1 }))

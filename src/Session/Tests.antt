-- ===== src/Session/Tests.antt =====
-- Instances of the theorems on sessions, from an empty database.
use radish.Shared.{
  append-nil, ap, ◌∙◌, ◌≤◌, joined, ℕ, ◌<◌, true, false, not, none, some, List, [], ◌∷◌, ◌++◌, ◌≡◌,
  refl, arith, Bytes, codes, bytes_eq, length, All, minus_one, pos, ok,
}
use radish.Store.{new_store}
use radish.LogReader.{header}
use radish.LogWriter.{no_fault}
use radish.Database
use radish.Database.{RadishDb}
use radish.Dict.{lookup}
use radish.Decimal.{to_string, digits}
use radish.Store
use radish.RespCodec.{encode_command, encode_bulk, encode_arguments, resp2, max_buffered_input}
use radish.RespCodec.Replies.{simple_string, bulk_string}
use radish.Commands.{
  Context, uppercase, handle_ping, handle_get, run_handler, command_handlers, dispatch,
}
use radish.Commands.Total.{IsFaultless}
use radish.Session.{
  Session, Environment, start, read, receive, process, process_loop, round, on_read,
}
use radish.Session.Pipeline.{IsSendable, Answers, no_commands, next_command, encode_all, answered}
use radish.Session.Feeding.{feed, feed-joined, feed-Answers}
use radish.Session.Steps.{here}
use radish.Session.Steps.Liveness
use radish.Session.Steps.Liveness.{
  SmoothSteps, then_read, IsHealthy, reachable-IsHealthy, write_all, write_all-delivers,
}
use radish.Session.Total.{process_loop-ok, on_read-ok}

abbrev new_database : RadishDb Bytes
new_database = record {
  m_store = new_store minus_one;
  m_persistence = true;
  disk = record { log_file = some header; temporary_file = none };
}

abbrev calls : Environment
calls command index = (pos 5, no_fault)

abbrev calls-IsFaultless : (n : ℕ) → IsFaultless (calls n)
calls-IsFaultless n index = refl

abbrev ping_text : Bytes
ping_text = codes "*1" ++ 13 ∷ 10 ∷ codes "$4" ++ 13 ∷ 10 ∷ codes "PING" ++ 13 ∷ 10 ∷ []

on_read-ok_example : (on_read calls (some ping_text) (start new_database)).1 ≡ ok tt
on_read-ok_example = on_read-ok calls calls-IsFaultless (some ping_text) (start new_database)

process-ok : (process calls (receive ping_text (start new_database))).1 ≡ ok tt
unfolding process
process-ok = process_loop-ok calls calls-IsFaultless _ (receive ping_text (start new_database))

-- The session behind the first read.
abbrev pinged : Session
pinged = (on_read calls (some ping_text) (start new_database)).0

start_reads : 0 < (start new_database).reads
unfolding start read
start_reads = omega arith

ping_read : on_read calls (some ping_text) (start new_database) ≡ (pinged, ok tt)
ping_read i = (pinged, on_read-ok calls calls-IsFaultless (some ping_text) (start new_database) i)

abbrev pinging : SmoothSteps calls (start new_database) pinged
pinging = then_read ping_text Liveness.here start_reads ping_read

reachable-IsHealthy_example : IsHealthy pinged
reachable-IsHealthy_example = reachable-IsHealthy calls new_database pinged pinging

pinged-IsHealthy : IsHealthy pinged
pinged-IsHealthy = reachable-IsHealthy calls new_database pinged pinging

write_all-delivers_example :
    ((write_all (length pinged.m_output) pinged).sent ≡ pinged.sent ++ pinged.m_output)
    × ((write_all (length pinged.m_output) pinged).m_output ≡ [])
    × ((write_all (length pinged.m_output) pinged).is_open ≡ not pinged.m_close_after_write)
write_all-delivers_example = write_all-delivers pinged pinged-IsHealthy

abbrev two_commands : List (List Bytes)
two_commands = (codes "PING" ∷ []) ∷ (codes "get" ∷ codes "k" ∷ []) ∷ []

abbrev new_context : Context
new_context = record { m_database = new_database; m_version = resp2 }

abbrev two_responses : List Bytes
two_responses = simple_string (codes "PONG") ∷ bulk_string none resp2 ∷ []

ping_answer :
    dispatch (calls 0) (codes "PING" ∷ []) new_context
    ≡ (new_context, ok (simple_string (codes "PONG"), false))
unfolding dispatch command_handlers uppercase run_handler handle_ping lookup bytes_eq
ping_answer = refl

get_answer :
    dispatch (calls 1) (codes "get" ∷ codes "k" ∷ []) new_context
    ≡ (new_context, ok (bulk_string none resp2, false))
unfolding dispatch command_handlers uppercase run_handler handle_get lookup bytes_eq Database.get
    Store.get
get_answer = refl

abbrev two_answers : Answers calls 0 new_context two_commands 2 new_context two_responses
two_answers = next_command ping_answer (next_command get_answer no_commands)

abbrev waiting : Session
waiting = record {
  context = new_context;
  m_input = [];
  m_output = [];
  m_close_after_write = false;
  is_open = true;
  reads = 1;
  writes = 0;
  sent = [];
  served = 0;
}

-- The two commands, cut within the first.
abbrev pieces : List Bytes
pieces =
    (codes "*1" ++ 13 ∷ 10 ∷ codes "$4" ++ 13 ∷ [])
    ∷ (10 ∷ codes "PING" ++ 13 ∷ 10 ∷ encode_command (codes "get" ∷ codes "k" ∷ []))
    ∷ []

cut : joined pieces ≡ encode_all two_commands
unfolding encode_command encode_arguments encode_bulk to_string digits
cut = refl

sendable : All IsSendable two_commands
sendable = (
  (omega arith, omega arith, (omega arith, tt)),
  ((omega arith, omega arith, (omega arith, (omega arith, tt))), tt),
)

fits : length (joined pieces) ≤ max_buffered_input
unfolding encode_command encode_arguments encode_bulk to_string digits
fits = omega arith

feed-Answers_example :
    feed calls pieces (waiting, ok tt) ≡ (answered [] 2 new_context two_responses waiting, ok tt)
feed-Answers_example =
    feed-Answers calls pieces waiting two_answers refl refl (omega arith) sendable cut fits

settled : process calls waiting ≡ (waiting, ok tt)
unfolding process process_loop round
settled = refl

-- All of the two commands at once.
read_at_once :
    on_read calls (some (joined pieces)) waiting
    ≡ (answered [] 2 new_context two_responses waiting, ok tt)
read_at_once = feed-one (joined pieces) (
    feed-Answers calls (joined pieces ∷ []) waiting two_answers refl refl (omega arith) sendable
      (append-nil (joined pieces) ∙ cut)
      (omega (arith, ap length (append-nil (joined pieces)), fits)))
  where
    feed-one :
        (bytes : Bytes) {r : _}
        → feed calls (bytes ∷ []) (waiting, ok tt) ≡ r
        → on_read calls (some bytes) waiting ≡ r
    feed-one bytes h = unfold feed in h

feed-joined_example :
    feed calls pieces (waiting, ok tt) ≡ (answered [] 2 new_context two_responses waiting, ok tt)
feed-joined_example =
    feed-joined calls pieces waiting (answered [] 2 new_context two_responses waiting) settled
      (omega arith) (omega (arith, fits)) refl read_at_once

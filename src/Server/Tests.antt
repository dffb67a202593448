-- ===== src/Server/Tests.antt =====
-- Instances of the theorems on the server, from an empty log.
use radish.Shared.{
  ℕ, ◌<◌, true, false, none, some, [], ◌∷◌, ◌++◌, ◌≡◌, refl, arith, Bytes, codes, minus_one, pos,
  ok, err, cannot_open, bytes_eq,
}
use radish.Binary.{string_value, read_exact}
use radish.Store.{Timestamp, new_store, limited}
use radish.Store.Valid.{new_store-IsValid}
use radish.LogReader.{header, get_events, read_header, read_records, continue, read_record}
use radish.LogReader.Records.{nothing}
use radish.LogWriter
use radish.LogWriter.{collect, rewrite_history, no_fault, cannot_be_opened, apply_events}
use radish.Database
use radish.Database.{RadishDb}
use radish.Database.Durable.{IsDurable}
use radish.Commands.Total.{IsFaultless}
use radish.Session
use radish.Session.{Session, Environment, on_read, read}
use radish.Session.Total.{on_read-ok}
use radish.Session.Steps.{Step, reads_bytes}
use radish.Options.{default_options, make_database, shut_down}
use radish.Server.{
  Server, start, accept, admit, on_accept, with_database, served_by, ServerSteps,
  accepts_connection, serves, here, then_step,
}
use radish.Server.Invariant.{IsSoundServer, reachable-IsSoundServer}
use radish.Server.Durability.{restart_server, shut_down_failed}

abbrev new_database : RadishDb Bytes
new_database = record {
  m_store = new_store minus_one;
  m_persistence = true;
  disk = record { log_file = some header; temporary_file = none };
}

without_ttl : limited minus_one ≡ false
unfolding limited
without_ttl = refl

nothing_applied :
    (now : Timestamp)
    → apply_events now (new_store {V = Bytes} minus_one) [] ≡ ok (new_store minus_one)
unfolding apply_events
nothing_applied now = refl

abbrev new_database-IsDurable : IsDurable new_database
new_database-IsDurable = record {
  events = [];
  body = [];
  logged = refl;
  unlimited = without_ttl;
  valid = new_store-IsValid minus_one;
  holds = nothing;
  file = refl;
  replays = nothing_applied;
}

abbrev calls : Environment
calls command index = (pos 5, no_fault)

calls-IsFaultless : (n : ℕ) → IsFaultless (calls n)
calls-IsFaultless n index = refl

abbrev flush_text : Bytes
flush_text = codes "*1" ++ 13 ∷ 10 ∷ codes "$7" ++ 13 ∷ 10 ∷ codes "FLUSHDB" ++ 13 ∷ 10 ∷ []

abbrev connected : Server
connected = on_accept true (start new_database)

-- The session of the connection, and the same behind the command.
abbrev opened : Session
opened = with_database connected.m_database (Session.start new_database)

abbrev flushed : Session
flushed = (on_read calls (some flush_text) opened).0

abbrev served : Server
served = served_by [] flushed [] connected

one_session : connected.sessions ≡ [] ++ Session.start new_database ∷ []
unfolding start accept on_accept admit
one_session = refl

opened_reads : 0 < opened.reads
unfolding with_database Session.start read
opened_reads = omega arith

started_accepts : 0 < (start new_database).accepts
unfolding start accept
started_accepts = omega arith

flushing : Step calls opened flushed
flushing =
    reads_bytes flush_text opened_reads
      (λ i. (flushed, on_read-ok calls calls-IsFaultless (some flush_text) opened i))

abbrev steps : ServerSteps (start new_database) served
steps =
    then_step (then_step here (accepts_connection true started_accepts refl))
      (serves calls [] [] (Session.start new_database) flushed one_session flushing refl)

start_database : (start new_database).m_database ≡ new_database
unfolding start accept
start_database = refl

reachable-IsSoundServer_example : IsSoundServer served
reachable-IsSoundServer_example = reachable-IsSoundServer new_database served steps

start-IsDurable : IsDurable (start new_database).m_database
unfolding start accept
start-IsDurable = new_database-IsDurable

restart_server_example :
    make_database (pos 9) no_fault default_options served.m_database.disk
    ≡ (served.m_database.disk, ok served.m_database)
restart_server_example =
    restart_server (pos 9) default_options (start new_database) served refl refl start-IsDurable
      steps

-- The server is stopped behind its first connection, and the log cannot be rewritten.
abbrev shut : RadishDb Bytes
shut = (shut_down (pos 8) cannot_be_opened default_options connected.m_database).0

shut_down_throws :
    (shut_down (pos 8) cannot_be_opened default_options connected.m_database).1 ≡ err cannot_open
unfolding shut_down Database.compact on_accept start LogWriter.compact get_events read_header
    read_exact bytes_eq read_records continue read_record collect rewrite_history
shut_down_throws = refl

shut_down_failed_example :
    (shut.m_store ≡ connected.m_database.m_store)
    × (make_database (pos 9) no_fault default_options shut.disk ≡ (shut.disk, ok shut))
shut_down_failed_example =
    shut_down_failed (pos 8) (pos 9) cannot_be_opened default_options (start new_database) connected
      refl refl start-IsDurable (then_step here (accepts_connection true started_accepts refl))
      (λ i. (shut, shut_down_throws i))

-- ===== src/Server.antt =====
-- `TcpServer` of src/network/TcpServer.cpp: it accepts connections until it is stopped, and its
-- sessions share one database. The acceptor is asio's: it is open or not, and its operations in
-- flight are counted.
pub mod Invariant
pub mod Durability
mod Tests
use radish.Shared.{
  ℕ, zero, suc, ◌-◌, ◌<◌, Bool, true, false, List, [], ◌∷◌, ◌++◌, ◌≡◌, Bytes, if◌then◌else◌,
}
use radish.Database.{RadishDb}
use radish.Session
use radish.Session.{Session, Environment}
use radish.Session.Steps.{Step}

-- `is_listening` is whether m_acceptor is open. The connections that were accepted are not in the
-- source: they are kept alive by the handlers that wait for them.
pub record Server : Type 0 where
  pub m_database : RadishDb Bytes
  pub m_stopped : Bool
  pub is_listening : Bool
  pub accepts : ℕ
  pub sessions : List Session

-- async_accept
unfoldable pub accept : Server → Server
accept s = if s.m_stopped then s else record s { accepts = suc s.accepts }

-- A new server, started.
unfoldable pub start : RadishDb Bytes → Server
start db =
    accept (record {
      m_database = db;
      m_stopped = false;
      is_listening = true;
      accepts = 0;
      sessions = [];
    })

unfoldable pub stop : Server → Server
stop s = if s.m_stopped then s else record s { m_stopped = true; is_listening = false }

-- A session for the new connection, unless there was an error.
unfoldable pub admit : Bool → Server → Server
admit false s = s
admit true s = record s { sessions = s.sessions ++ Session.start s.m_database ∷ [] }

-- The handler of `async_accept`: false is an error.
unfoldable pub on_accept : Bool → Server → Server
unfolding admit accept
on_accept connected s =
    let t = admit connected (record s { accepts = s.accepts - 1 }) in
    if t.m_stopped then t else accept t

-- A session refers to the database of the server, whatever session has changed it.
unfoldable pub with_database : RadishDb Bytes → Session → Session
with_database db t = record t { context = record t.context { m_database = db } }

-- The server behind a step of one of its sessions.
unfoldable pub served_by : List Session → Session → List Session → Server → Server
served_by before u after s = record s {
  m_database = u.context.m_database;
  sessions = before ++ u ∷ after;
}

-- One handler runs at a time.
pub data ServerStep : Server → Server → Type 0 where
  accepts_connection :
      {s s' : Server} (connected : Bool)
      → 0 < s.accepts
      → on_accept connected s ≡ s'
      → ServerStep s s'
  stops : {s s' : Server} → stop s ≡ s' → ServerStep s s'
  serves :
      {s s' : Server} (calls : Environment) (before after : List Session) (t u : Session)
      → s.sessions ≡ before ++ t ∷ after
      → Step calls (with_database s.m_database t) u
      → served_by before u after s ≡ s'
      → ServerStep s s'

pub data ServerSteps : Server → Server → Type 0 where
  here : {s : Server} → ServerSteps s s
  then_step : {s t u : Server} → ServerSteps s t → ServerStep t u → ServerSteps s u

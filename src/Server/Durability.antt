-- ===== src/Server/Durability.antt =====
-- A server on a durable database, and a restart behind any of its steps.
use radish.Shared.{
  Bool, true, false, none, ◌≡◌, refl, sym, ap, ◌∙◌, arith, subst, ok, err, Exception, Bytes,
  minus_one, pos, negsuc,
}
use radish.Binary.{string_value}
use radish.Event.RoundTrip.{string-IsReadBack}
use radish.Store.{Timestamp, limited}
use radish.LogWriter
use radish.LogWriter.{Disk, Fault, no_fault}
use radish.LogWriter.Rewriting.{compact_failed}
use radish.Database
use radish.Database.{RadishDb, flush, open_database, compact_if}
use radish.Database.Durable.{IsDurable, reopen}
use radish.Session.Durability.{Step-IsDurable}
use radish.Options.{ServerOptions, make_database, shut_down}
use radish.Server.{
  Server, accept, stop, admit, on_accept, with_database, served_by, ServerStep, accepts_connection,
  stops, serves, ServerSteps, here, then_step,
}

database-on_accept :
    (connected : Bool) (s : Server) → (on_accept connected s).m_database ≡ s.m_database
unfolding on_accept admit accept
database-on_accept false s = ground arith
database-on_accept true s = ground arith

step-IsDurableServer :
    {s s' : Server} → ServerStep s s' → IsDurable s.m_database → IsDurable s'.m_database
unfolding stop served_by with_database
step-IsDurableServer {s} (accepts_connection connected h e) d =
    subst IsDurable (sym (database-on_accept connected s) ∙ ap (λ t. t.m_database) e) d
step-IsDurableServer {s} (stops e) d = subst IsDurable (stopped ∙ ap (λ t. t.m_database) e) d
  where
    stopped : s.m_database ≡ (stop s).m_database
    stopped = unfold stop in ground arith
step-IsDurableServer {s} (serves calls before after t u e step e') d =
    subst IsDurable (ap (λ t. t.m_database) e') (Step-IsDurable calls step d)

steps-IsDurableServer :
    {s t : Server} → ServerSteps s t → IsDurable s.m_database → IsDurable t.m_database
steps-IsDurableServer here d = d
steps-IsDurableServer (then_step steps step) d =
    step-IsDurableServer step (steps-IsDurableServer steps d)

make_database-flush :
    (now : Timestamp) (options : ServerOptions) (disk : Disk)
    → options.persistence_enabled ≡ true
    → options.ttl ≡ none
    → make_database now no_fault options disk ≡ open_database now no_fault minus_one flush disk
unfolding make_database
make_database-flush now options disk e h = rw (h, e) refl

unlimited-minus_one : (ttl : Timestamp) → limited ttl ≡ false → ttl ≡ minus_one
unfolding limited
unlimited-minus_one (pos n) h = absurd (ground arith)
unlimited-minus_one (negsuc n) h = ap negsuc (ground arith)

-- A durable database is the one that `main` makes from its disk.
make_database-durable :
    (now : Timestamp) (options : ServerOptions) (db : RadishDb Bytes)
    → options.persistence_enabled ≡ true
    → options.ttl ≡ none
    → IsDurable db
    → make_database now no_fault options db.disk ≡ (db.disk, ok db)
make_database-durable now options db e h d =
    make_database-flush now options db.disk e h
    ∙ ap (λ ttl. open_database now no_fault ttl flush db.disk)
        (sym (unlimited-minus_one db.m_store.m_ttl d.unlimited))
    ∙ reopen string-IsReadBack now db d

-- Let persistence be enabled and no time to live be given, and let the database of the server
-- be durable. After any connections, stops and steps of sessions that share the database, in
-- any order and without an exception, if the process is killed before the compaction with which
-- `main` ends, the next `main` makes from the log, at any time and without a fault, the
-- database that the server had, and leaves the disk as it is.
pub restart_server :
    (now : Timestamp) (options : ServerOptions) (s t : Server)
    → options.persistence_enabled ≡ true
    → options.ttl ≡ none
    → IsDurable s.m_database
    → ServerSteps s t
    → make_database now no_fault options t.m_database.disk ≡ (t.m_database.disk, ok t.m_database)
restart_server now options s t e h d steps =
    make_database-durable now options t.m_database e h (steps-IsDurableServer steps d)

shut_down-compact :
    (now : Timestamp) (fault : Fault) (options : ServerOptions) (db : RadishDb Bytes)
    → options.persistence_enabled ≡ true
    → db.m_persistence ≡ true
    → shut_down now fault options db ≡ (
      record db { disk = (LogWriter.compact Bytes now fault db.disk).0 },
      (LogWriter.compact Bytes now fault db.disk).1,
    )
unfolding shut_down Database.compact compact_if
shut_down-compact now fault options db e logged = rw (e, logged) refl

-- Let persistence be enabled and no time to live be given, and let the database of the server
-- be durable. If the compaction with which `main` ends throws, at whatever point, behind any
-- connections, stops and steps of sessions that share the database, in any order and without an
-- exception, then the store is that of the server and the next start makes this database from
-- the log, at any time and without a fault.
pub shut_down_failed :
    (now later : Timestamp) (fault : Fault) (options : ServerOptions) (s t : Server)
    {db : RadishDb Bytes} {x : Exception}
    → options.persistence_enabled ≡ true
    → options.ttl ≡ none
    → IsDurable s.m_database
    → ServerSteps s t
    → shut_down now fault options t.m_database ≡ (db, err x)
    → (db.m_store ≡ t.m_database.m_store)
      × (make_database later no_fault options db.disk ≡ (db.disk, ok db))
shut_down_failed now later fault options s t {db} {x} e h d steps failed =
    let d' = steps-IsDurableServer steps d in
    let compacted = sym (shut_down-compact now fault options t.m_database e d'.logged) ∙ failed in
    let same = ap (λ r. r.0) compacted in
    let kept = compact_failed Bytes now fault t.m_database.disk (ap (λ r. r.1) compacted) in
    subst
      (λ db.
        (db.m_store ≡ t.m_database.m_store)
        × (make_database later no_fault options db.disk ≡ (db.disk, ok db)))
      same
      (
        refl,
        make_database-durable later options _ e h record {
          events = d'.events;
          body = d'.body;
          logged = d'.logged;
          unlimited = d'.unlimited;
          valid = d'.valid;
          holds = d'.holds;
          file = kept ∙ d'.file;
          replays = d'.replays;
        },
      )

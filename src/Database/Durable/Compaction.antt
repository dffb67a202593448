-- ===== src/Database/Durable/Compaction.antt =====
-- `RadishDB::Compact`, and a restart from the compacted log.
use radish.Shared.{◌≡◌, ap, ◌∙◌, sym, ok, All}
use radish.Binary.{BinaryValue}
use radish.Store.{Timestamp}
use radish.Event.RoundTrip.{IsReadBack}
use radish.LogWriter
use radish.LogWriter.{Disk, Fault, no_fault, apply_events}
use radish.LogWriter.Entries.{creates, plain_store, apply_events-creates}
use radish.LogWriter.Compacting.{IsPlain}
use radish.LogWriter.Rewriting.{compact-ok}
use radish.Database.{RadishDb, flush, compact, compact_if, open_database}
use radish.Database.Durable.{IsDurable, reopen}

module _ {ℓ} {V : Type ℓ} ⦃b : BinaryValue V⦄ (law : IsReadBack V) (now : Timestamp) (fault : Fault)
    (db : RadishDb V) (d : IsDurable db) where
  plain_again : db.m_store ≡ plain_store db.m_store.m_ttl db.m_store.m_data
  plain_again i = record {
    m_ttl = db.m_store.m_ttl;
    m_data = db.m_store.m_data;
    m_ttl_data = d.valid.without_ttl d.unlimited i;
  }

  log_compacted :
      compact_if V db.m_persistence now fault db.disk ≡ LogWriter.compact V now fault db.disk
  unfolding compact_if
  log_compacted = ap (λ p. compact_if V p now fault db.disk) d.logged

  -- Compaction keeps a database durable, if no rename in its log is one of a key to itself.
  pub compact-IsDurable :
      All IsPlain d.events → (compact now fault db).1 ≡ ok tt → IsDurable (compact now fault db).0
  unfolding compact
  compact-IsDurable plain h =
      let (body, holds, file) =
        compact-ok now law now fault db.disk db.m_store.m_ttl {s = db.m_store} d.unlimited d.holds
          d.file plain (d.replays now) (ap (λ r. r.1) (sym log_compacted) ∙ h) in
      record {
        events = creates db.m_store.m_data;
        body = body;
        logged = d.logged;
        unlimited = d.unlimited;
        valid = d.valid;
        holds = holds;
        file = ap (λ r. r.0.log_file) log_compacted ∙ file;
        replays = λ later.
            apply_events-creates later db.m_store.m_ttl db.m_store.m_data d.unlimited
              d.valid.distinct
            ∙ ap ok (sym plain_again);
      }

  -- Let the values be read back as they are written. After a compaction of a durable
  -- database, which is without a time to live, that succeeded, opening the log without a
  -- fault gives the database with the store of before the compaction, if every event of the
  -- old log is without a deadline and no rename in it is one of a key to itself.
  pub restart_compacted :
      (later : Timestamp)
      → All IsPlain d.events
      → (compact now fault db).1 ≡ ok tt
      → (open_database later no_fault db.m_store.m_ttl flush (compact now fault db).0.disk).1
        ≡ ok (record (compact now fault db).0 { m_store = db.m_store })
  restart_compacted later plain h =
      unfold compact in
      ap (λ r. r.1) (reopen law later (compact now fault db).0 (compact-IsDurable plain h))

-- ===== src/Database/Atomic.antt =====
-- `RadishDB::Commit`: the store and the log after each of its results.
use radish.Shared.{Bool, true, false, ◌≡◌, Result, ok, err}
use radish.Binary.{BinaryValue}
use radish.Store.{Timestamp}
use radish.Event.{RadishEvent}
use radish.LogWriter.{Fault, apply_event}
use radish.Database.{RadishDb, append_if}

module _ {ℓ} {V : Type ℓ} ⦃b : BinaryValue V⦄ (now : Timestamp) (fault : Fault)
    (event : RadishEvent V) (db : RadishDb V) where
  -- What a commit leaves, for each of its results.
  abbrev pub Outcome : RadishDb V × Result Bool → Type ℓ
  Outcome (db', err e) = db'.m_store ≡ db.m_store
  Outcome (db', ok false) = db' ≡ db
  Outcome (db', ok true) =
      (apply_event now db.m_store event ≡ ok (db'.m_store, true))
      × (append_if db.m_persistence fault event db.disk ≡ (db'.disk, ok tt))

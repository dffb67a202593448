-- ===== src/Database.antt =====
-- include/RadishDB.h: the store together with its log. The mutex makes every operation below one
-- step.
pub mod Applying
pub mod Tables
pub mod Atomic
pub mod Durable
mod Tests
use radish.Shared.{
  ℕ, Bool, true, false, Option, none, some, List, [], ◌∷◌, Bytes, minus_one, if◌then◌else◌, Result,
  ok, err, ◌>>=◌, unknown_event_type,
}
use radish.Binary.{BinaryValue}
use radish.Store
use radish.Store.{RadishStore, Timestamp, new_store, new_expiry_timestamp}
use radish.CompactStrategy.{deref}
use radish.Event.{EventType, RadishEvent, create_event, rename_event, delete_event, clear_event}
use radish.LogWriter.{Disk, Fault, ensure_initialized}
use radish.PersistenceLog

pub data PersistenceMode : Type 0 where
  flush disabled : PersistenceMode

-- `m_persistence` is present or not; the file that it writes to is on the disk.
pub record RadishDb {ℓ} (V : Type ℓ) : Type ℓ where
  pub m_store : RadishStore V
  pub m_persistence : Bool
  pub disk : Disk

-- `if (m_persistence) m_persistence->Compact()`
unfoldable pub compact_if {ℓ} :
    (V : Type ℓ) ⦃b : BinaryValue V⦄ → Bool → Timestamp → Fault → Disk → Disk × Result (Unit {0})
compact_if V true now fault disk = PersistenceLog.compact V now fault disk
compact_if V false now fault disk = (disk, ok tt)

module _ {ℓ} {V : Type ℓ} where
  -- The switch of `ApplyEvent`, for a database without a log.
  unfoldable pub apply_switch :
      EventType → Timestamp → RadishStore V → RadishEvent V → Result (RadishStore V × Bool)
  unfolding deref
  apply_switch EventType.create now store event = do
    key ← deref event.m_key
    payload ← deref event.m_payload
    ok ((Store.create now store key payload (some event.m_timestamp)).0, true)
  apply_switch EventType.rename now store event = do
    key ← deref event.m_key
    rename_key ← deref event.m_rename_key
    ok (Store.rename now store key rename_key)
  apply_switch EventType.delete now store event = do
    key ← deref event.m_key
    ok (Store.delete store key)
  apply_switch EventType.clear now store event = ok (Store.clear store)
  apply_switch (EventType.other n) now store event = err unknown_event_type

  unfoldable pub apply_event :
      Timestamp → RadishStore V → RadishEvent V → Result (RadishStore V × Bool)
  unfolding apply_switch
  apply_event now store event = apply_switch event.m_type now store event

  -- `m_persistence ? m_persistence->Apply(stagedStore, event) : ApplyEvent(stagedStore, event)`
  unfoldable pub apply_if :
      Bool → Timestamp → RadishStore V → RadishEvent V → Result (RadishStore V × Bool)
  unfolding apply_event
  apply_if true now store event = PersistenceLog.apply now store event
  apply_if false now store event = apply_event now store event

module _ {ℓ} {V : Type ℓ} ⦃b : BinaryValue V⦄ where
  -- The end of `Commit`: `m_store.Swap(stagedStore)`, unless `Append` has thrown.
  unfoldable pub swap_in :
      RadishDb V → RadishStore V → Disk × Result (Unit {0}) → RadishDb V × Result Bool
  unfolding Store.swap
  swap_in db staged (disk', err e) = (record db { disk = disk' }, err e)
  swap_in db staged (disk', ok u) =
      (record db { disk = disk'; m_store = (Store.swap db.m_store staged).0 }, ok true)

  -- `if (m_persistence) m_persistence->Append(event)`
  unfoldable pub append_if : Bool → Fault → RadishEvent V → Disk → Disk × Result (Unit {0})
  append_if true fault event disk = PersistenceLog.append fault event disk
  append_if false fault event disk = (disk, ok tt)

  unfoldable pub finish_commit :
      Fault → RadishEvent V → RadishDb V → Result (RadishStore V × Bool) → RadishDb V × Result Bool
  unfolding swap_in append_if
  finish_commit fault event db (err e) = (db, err e)
  finish_commit fault event db (ok (staged, false)) = (db, ok false)
  finish_commit fault event db (ok (staged, true)) =
      swap_in db staged (append_if db.m_persistence fault event db.disk)

  unfoldable pub commit : Timestamp → Fault → RadishEvent V → RadishDb V → RadishDb V × Result Bool
  unfolding finish_commit apply_if
  commit now fault event db =
      finish_commit fault event db (apply_if db.m_persistence now db.m_store event)

  -- The result of `Commit` is dropped, but an exception is not.
  unfoldable pub create : Timestamp → Fault → Bytes → V → RadishDb V → RadishDb V × Result Bool
  create now fault key value db =
      commit now fault (create_event (new_expiry_timestamp now db.m_store) key value) db

  unfoldable pub rename : Timestamp → Fault → Bytes → Bytes → RadishDb V → RadishDb V × Result Bool
  rename now fault old_key new_key db = commit now fault (rename_event minus_one old_key new_key) db

  unfoldable pub delete : Timestamp → Fault → Bytes → RadishDb V → RadishDb V × Result Bool
  delete now fault key db = commit now fault (delete_event minus_one key) db

  unfoldable pub clear : Timestamp → Fault → RadishDb V → RadishDb V × Result Bool
  clear now fault db = commit now fault (clear_event minus_one) db

  unfoldable pub compact : Timestamp → Fault → RadishDb V → RadishDb V × Result (Unit {0})
  unfolding compact_if
  compact now fault db =
      let (disk', result) = compact_if V db.m_persistence now fault db.disk in
      (record db { disk = disk' }, result)

  -- The constructors, with the time to live -1 for the one that takes none. An exception leaves no
  -- object behind, and the disk as it is then.
  unfoldable pub initialize :
      Timestamp → Fault → PersistenceMode → RadishStore V → Disk → Disk × Result (RadishDb V)
  initialize now fault disabled store disk =
      (disk, ok (record { m_store = store; m_persistence = false; disk = disk }))
  initialize now fault flush store disk =
      let (disk', initialized) = ensure_initialized fault disk in
      (
        disk',
        do
          u ← initialized
          replayed ← PersistenceLog.replay now store disk'
          ok (record { m_store = replayed; m_persistence = true; disk = disk' }),
      )

  unfoldable pub open_database :
      Timestamp → Fault → Timestamp → PersistenceMode → Disk → Disk × Result (RadishDb V)
  unfolding initialize
  open_database now fault ttl mode disk = initialize now fault mode (new_store ttl) disk

module _ {ℓ} {V : Type ℓ} where
  unfoldable pub get : Timestamp → RadishDb V → Bytes → Option V
  get now db key = Store.get now db.m_store key

  unfoldable pub scan : Timestamp → RadishDb V → List Bytes
  scan now db = Store.scan now db.m_store

  unfoldable pub size : Timestamp → RadishDb V → ℕ
  size now db = Store.size now db.m_store

  unfoldable pub exists : Timestamp → RadishDb V → Bytes → Bool
  exists now db key = Store.exists now db.m_store key

  unfoldable pub is_expired : Timestamp → RadishDb V → Bytes → Bool
  is_expired now db key = Store.is_expired now db.m_store key

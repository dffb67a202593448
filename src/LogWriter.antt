-- ===== src/LogWriter.antt =====
-- include/persistence/LogWriter.h: appending to the log, replaying it and compacting it.
pub mod Appending
pub mod Replaying
pub mod Entries
pub mod Compacting
pub mod Rewriting
pub mod SelfRename
pub mod Reopening
mod Tests
use radish.Shared.{
  ℕ, zero, suc, ◌+◌, ◌*◌, ◌%◌, ◌^◌, Bool, true, false, not, ◌&&◌, ◌||◌, Option, none, some, List,
  [], ◌∷◌, ◌++◌, ◌≡◌, Bytes, length, take, ltb, ◌==◌, if◌then◌else◌, minus_one, eqb_ℤ, ltb_ℤ,
  Result, ok, err, ◌>>=◌, ◌>>◌, guard, bad_header, cannot_open, write_failed, record_invalid_size,
  unknown_event_type, bytes_eq, Exception,
}
use radish.Dict.{Dict}
use radish.Binary.{BinaryValue, le_bytes, write_arithmetic, read_exact, binary_size_width}
use radish.Store
use radish.Store.{RadishStore, Timestamp}
use radish.Event.{EventType, create, rename, delete, clear, other, RadishEvent, serialize}
use radish.LogReader.{header, max_record_size, get_events}
use radish.CompactStrategy.{EventsMap, deref, execute}

-- The two files of a log: m_filename and m_filename + ".tmp"; `none` is a file that is not there.
pub record Disk : Type 0 where
  pub log_file : Option Bytes
  pub temporary_file : Option Bytes

-- What the file system does to one operation: it goes well, a file cannot be opened, or only some
-- of the bytes get written before a write or the flush fails.
pub data Fault : Type 0 where
  no_fault cannot_be_opened : Fault
  short_write : ℕ → Fault

-- The bytes that reach a file, and the result of the checks on the stream.
unfoldable pub put_bytes : Fault → Bytes → Bytes × Result (Unit {0})
put_bytes (short_write n) bytes = (take n bytes, err write_failed)
put_bytes _ bytes = (bytes, ok tt)

-- The bytes of a file that is opened to append to it.
abbrev pub contents : Option Bytes → Bytes
contents none = []
contents (some bytes) = bytes

unfoldable pub ensure_initialized : Fault → Disk → Disk × Result (Unit {0})
ensure_initialized cannot_be_opened disk = (disk, err cannot_open)
ensure_initialized fault disk = elim disk.log_file [
  | some file ↦ (
    disk,
    elim (read_exact (length header) file) [
      | none ↦ err bad_header
      | some (bytes, rest) ↦ if bytes_eq bytes header then ok tt else err bad_header
    ],
  )
  | none ↦ (record disk { log_file = some (put_bytes fault header).0 }, (put_bytes fault header).1)
]

-- What `WriteRecord` writes for the bytes of an event.
unfoldable pub frame_bytes : Bytes → Result Bytes
frame_bytes bytes =
    if length bytes == 0 || ltb (64 * 1024 * 1024) (length bytes)
    then err record_invalid_size
    else ok (write_arithmetic binary_size_width (length bytes % 2 ^ 32) ++ bytes)

-- The rest of `Append` once the file is open with the given bytes in it.
unfoldable pub put_row : Fault → Bytes → Disk → Result Bytes → Disk × Result (Unit {0})
unfolding put_bytes
put_row fault opened disk (err e) = (record disk { log_file = some opened }, err e)
put_row fault opened disk (ok bytes) = (
  record disk { log_file = some (opened ++ (put_bytes fault bytes).0) },
  (put_bytes fault bytes).1,
)

module _ {ℓ} {V : Type ℓ} ⦃b : BinaryValue V⦄ where
  unfoldable pub write_record : RadishEvent V → Result Bytes
  write_record event = do bytes ← serialize event; frame_bytes bytes

  -- The stream is opened first: in the mode `app` that creates a missing file.
  unfoldable pub append : Fault → RadishEvent V → Disk → Disk × Result (Unit {0})
  unfolding put_row
  append cannot_be_opened row disk = (disk, err cannot_open)
  append fault row disk = put_row fault (contents disk.log_file) disk (write_record row)

abbrev pub is_create : EventType → Bool
is_create create = true
is_create _ = false

module _ {ℓ} {V : Type ℓ} where
  -- The cases of the switch.
  unfoldable pub apply_case :
      EventType → Timestamp → RadishStore V → RadishEvent V → Result (RadishStore V × Bool)
  unfolding deref
  apply_case create now store event = do
    key ← deref event.m_key
    payload ← deref event.m_payload
    ok ((Store.create now store key payload (some event.m_timestamp)).0, true)
  apply_case rename now store event = do
    key ← deref event.m_key
    rename_key ← deref event.m_rename_key
    ok (Store.rename now store key rename_key)
  apply_case delete now store event = do key ← deref event.m_key; ok (Store.delete store key)
  apply_case clear now store event = ok (Store.clear store)
  apply_case (other n) now store event = err unknown_event_type

  unfoldable pub apply_event :
      Timestamp → RadishStore V → RadishEvent V → Result (RadishStore V × Bool)
  unfolding apply_case
  apply_event now store event = apply_case event.m_type now store event

  -- The loop of `Replay`, which drops the results.
  unfoldable pub apply_events :
      Timestamp → RadishStore V → List (RadishEvent V) → Result (RadishStore V)
  apply_events now store [] = ok store
  apply_events now store (event ∷ events) = do
    (store', applied) ← apply_event now store event
    apply_events now store' events

  -- The test by which compaction passes an event over.
  unfoldable pub is_outdated : Timestamp → RadishEvent V → Bool
  is_outdated now event = not (eqb_ℤ event.m_timestamp minus_one) && ltb_ℤ event.m_timestamp now

  -- The loop of `Compact` over the events of the log.
  unfoldable pub collect : Timestamp → EventsMap V → List (RadishEvent V) → Result (EventsMap V)
  unfolding is_outdated
  collect now events [] = ok events
  collect now events (event ∷ rest) =
      if is_create event.m_type && is_outdated now event
      then collect now events rest
      else do events' ← execute event.m_type events event; collect now events' rest

-- A record behind which the given ones follow: none of them is written once one has thrown.
unfoldable pub put_record : Result Bytes → Bytes × Result (Unit {0}) → Bytes × Result (Unit {0})
put_record (err e) rest = ([], err e)
put_record (ok bytes) (written, result) = (bytes ++ written, result)

-- The end of `RewriteHistory`: the checks on the stream, and the renaming over the log.
unfoldable pub replace_log : Disk → Bytes → Result (Unit {0}) → Disk × Result (Unit {0})
replace_log disk bytes (err e) = (record disk { temporary_file = some bytes }, err e)
replace_log disk bytes (ok u) = (record { log_file = some bytes; temporary_file = none }, ok tt)

module _ {ℓ} {V : Type ℓ} ⦃b : BinaryValue V⦄ where
  unfoldable pub replay : Timestamp → RadishStore V → Disk → Result (RadishStore V)
  replay now store disk = do events ← get_events disk.log_file; apply_events now store events

  -- The records of the loop of `RewriteHistory`.
  unfoldable pub write_records : Timestamp → EventsMap V → Bytes × Result (Unit {0})
  unfolding is_outdated put_record
  write_records now [] = ([], ok tt)
  write_records now ((key, event) ∷ events) =
      let rest = write_records now events in
      if is_outdated now event then rest else put_record (write_record event) rest

  unfoldable pub rewrite_history : Timestamp → Fault → EventsMap V → Disk → Disk × Result (Unit {0})
  unfolding put_bytes replace_log
  rewrite_history now cannot_be_opened events disk = (disk, err cannot_open)
  rewrite_history now fault events disk =
      let (written, result) = write_records now events in
      let (bytes, flushed) = put_bytes fault (header ++ written) in
      replace_log disk bytes (do result; flushed)

-- `V` is the type of the values, which the bytes of the file do not show.
module _ {ℓ} (V : Type ℓ) ⦃b : BinaryValue V⦄ where
  -- `RewriteHistory`, unless the loop before it has thrown.
  unfoldable pub rewrite_if :
      Timestamp → Fault → Disk → Result (EventsMap V) → Disk × Result (Unit {0})
  rewrite_if now fault disk (err e) = (disk, err e)
  rewrite_if now fault disk (ok events) = rewrite_history now fault events disk

  unfoldable pub compact : Timestamp → Fault → Disk → Disk × Result (Unit {0})
  unfolding rewrite_if
  compact now fault disk =
      let survivors : Result (EventsMap V) = do
        events ← get_events disk.log_file
        collect now [] events
      in rewrite_if now fault disk survivors

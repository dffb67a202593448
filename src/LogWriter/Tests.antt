-- ===== src/LogWriter/Tests.antt =====
-- Instances of the theorems on the writer, on logs of no record and of one.
use radish.Shared.{
  length, sym, ap, ◌∙◌, append-nil, ◌>>=◌, true, false, [], ◌∷◌, ◌++◌, ◌≡◌, ◌⊎◌, refl, arith, Bytes,
  bytes_eq, codes, minus_one, ok, err, none, some, map, pos, write_failed,
}
use radish.Binary.{string_value, write_optional, write_container, le_bytes, to_bits}
use radish.Store.{RadishStore, Timestamp, new_store, limited}
use radish.Store
use radish.Event.{RadishEvent, create_event, serialize, serialize_fields, validate_type, to_tag}
use radish.Event.RoundTrip.{canonical, string-IsReadBack}
use radish.LogReader.{header, get_events}
use radish.LogReader.Records.{frame, IsRecord, Holds, nothing, first}
use radish.LogReader.Logs.{get_events-Holds}
use radish.Dict.{lookup, insert, erase}
use radish.CompactStrategy.{execute}
use radish.LogWriter.Reopening.{append_lost}
use radish.LogWriter.{
  Disk, no_fault, short_write, append, put_row, put_bytes, write_record, frame_bytes, contents,
  apply_event, apply_events, collect, compact, rewrite_if, rewrite_history, replace_log,
  write_records, ensure_initialized, put_record,
}
use radish.LogWriter.SelfRename.{self_renaming, self_rename_diverges}
use radish.LogWriter.Appending.{append-ok, append_failed}
use radish.LogWriter.Entries.{creates, entries_of}
use radish.LogWriter.Compacting.{IsPlain}
use radish.LogWriter.Rewriting.{compact-ok}

abbrev event : RadishEvent Bytes
event = create_event minus_one (codes "k") (codes "v")

abbrev new_disk : Disk
new_disk = record { log_file = some header; temporary_file = none }

appended : (append no_fault event new_disk).1 ≡ ok tt
unfolding append put_row put_bytes write_record frame_bytes serialize serialize_fields validate_type
    write_optional write_container le_bytes to_bits to_tag
appended = refl

torn : (append (short_write 7) event new_disk).1 ≡ err write_failed
unfolding append put_row put_bytes write_record frame_bytes serialize serialize_fields validate_type
    write_optional write_container le_bytes to_bits to_tag
torn = refl

append-ok_example :
    (bytes : Bytes) × (write_record event ≡ ok bytes)
    × ((append no_fault event new_disk).0
        ≡ record new_disk { log_file = some (contents new_disk.log_file ++ bytes) })
append-ok_example = append-ok event no_fault new_disk appended

append_failed_example :
    (get_events {V = Bytes} (append (short_write 7) event new_disk).0.log_file
      ≡ ok (map canonical []))
    ⊎ (get_events {V = Bytes} (append (short_write 7) event new_disk).0.log_file
        ≡ ok (map canonical (event ∷ [])))
append_failed_example =
    append_failed event string-IsReadBack (short_write 7) new_disk nothing refl (omega arith) torn

-- The bytes of a creation of a key and a value of one letter each.
abbrev bytes_of : Bytes → Bytes → Bytes
bytes_of key value =
    (0 ∷ 255 ∷ 255 ∷ 255 ∷ 255 ∷ 255 ∷ 255 ∷ 255 ∷ 255 ∷ []) ++ (write_bulk key ++ write_bulk value)
  where
    write_bulk : Bytes → Bytes
    write_bulk s = length s ∷ 0 ∷ 0 ∷ 0 ∷ s

abbrev event_bytes : Bytes
event_bytes = bytes_of (codes "k") (codes "v")

event-IsRecord : IsRecord event event_bytes
unfolding serialize serialize_fields validate_type write_optional write_container le_bytes to_bits
    to_tag
event-IsRecord = record {
  written = refl;
  not_empty = omega arith;
  fits = omega arith;
  in_range = omega arith;
}

one_record : Holds (event ∷ []) (frame event_bytes)
one_record = first event-IsRecord nothing (sym (append-nil (frame event_bytes)))

abbrev one_row : Disk
one_row = record { log_file = some (header ++ frame event_bytes); temporary_file = none }

-- A creation with a value of sixty bytes.
abbrev large : Bytes
large = codes "012345678901234567890123456789012345678901234567890123456789"

abbrev large_event : RadishEvent Bytes
large_event = create_event minus_one (codes "k") large

large-IsRecord : IsRecord large_event (bytes_of (codes "k") large)
unfolding serialize serialize_fields validate_type write_optional write_container le_bytes to_bits
    to_tag
large-IsRecord = record {
  written = refl;
  not_empty = omega arith;
  fits = omega arith;
  in_range = omega arith;
}

append_lost_example :
    let crashed = append (short_write 5) large_event one_row in
    let restarted = ensure_initialized no_fault crashed.0 in
    let appended = append no_fault event restarted.0 in
    (crashed.1 ≡ err write_failed)
    × (restarted ≡ (crashed.0, ok tt))
    × (appended.1 ≡ ok tt)
    × (get_events {V = Bytes} appended.0.log_file ≡ ok (map canonical (event ∷ [])))
unfolding le_bytes
append_lost_example =
    append_lost string-IsReadBack large_event event 5 one_row one_record refl large-IsRecord
      event-IsRecord (omega arith) (omega arith)

abbrev unlimited : RadishStore Bytes
unlimited = new_store minus_one

abbrev one_key : RadishStore Bytes
one_key = (Store.create (pos 3) unlimited (codes "k") (codes "v") (some minus_one)).0

without_ttl : limited minus_one ≡ false
unfolding limited
without_ttl = refl

applied : apply_event (pos 3) unlimited event ≡ ok (one_key, true)
unfolding apply_event
applied = refl

all_applied : apply_events (pos 3) unlimited (event ∷ []) ≡ ok one_key
unfolding apply_events apply_event
all_applied = refl

event-IsPlain : IsPlain event
event-IsPlain = record { no_deadline = refl; proper = tt }

survivors :
    (do l ← get_events {V = Bytes} one_row.log_file; collect (pos 9) [] l)
    ≡ ok (entries_of one_key.m_data)
unfolding collect Store.create lookup insert erase bytes_eq limited execute
survivors =
    ap (λ r. r >>= collect (pos 9) []) (get_events-Holds string-IsReadBack one_record) ∙ refl

compacted : (compact Bytes (pos 9) no_fault one_row).1 ≡ ok tt
unfolding compact rewrite_if rewrite_history replace_log put_bytes write_records put_record
    write_record frame_bytes serialize serialize_fields validate_type write_optional write_container
    le_bytes to_bits to_tag Store.create lookup insert erase bytes_eq limited
compacted = rw survivors refl

compact-ok_example :
    (body : Bytes) × Holds (creates one_key.m_data) body
    × ((compact Bytes (pos 9) no_fault one_row).0.log_file ≡ some (header ++ body))
compact-ok_example =
    compact-ok (pos 9) string-IsReadBack (pos 3) no_fault one_row minus_one {s = one_key}
      without_ttl one_record refl (event-IsPlain, tt) all_applied compacted

self_rename_diverges_example :
    (apply_events (pos 1) (new_store minus_one) (self_renaming (codes "k") (codes "v"))
      ≡ ok (new_store minus_one))
    × (collect (pos 2) [] (self_renaming (codes "k") (codes "v"))
        ≡ ok ((codes "k", create_event minus_one (codes "k") (codes "v")) ∷ []))
self_rename_diverges_example = self_rename_diverges (codes "k") (codes "v") (pos 1) (pos 2)

-- ===== src/Database/Tests.antt =====
-- Instances of the theorems on the database, from an empty log and from one of a creation.
use radish.Shared.{
  ◌++◌, ap, ◌∙◌, sym, append-nil, ◌>>=◌, true, false, List, [], ◌∷◌, ◌≡◌, refl, arith, Bytes,
  bytes_eq, codes, minus_one, ok, err, none, some, pos, write_failed,
}
use radish.Binary.{string_value, write_optional, write_container, le_bytes, to_bits}
use radish.Store.{RadishStore, Timestamp, new_store, limited, new_expiry_timestamp}
use radish.Store
use radish.Store.Valid.{IsValid, new_store-IsValid, create-IsValid}
use radish.Dict.{lookup, insert, erase}
use radish.Event.{RadishEvent, create_event, serialize, serialize_fields, validate_type, to_tag}
use radish.Event.RoundTrip.{string-IsReadBack}
use radish.LogReader.{header, get_events}
use radish.LogReader.Records.{frame, IsRecord, Holds, nothing, first}
use radish.LogReader.Logs.{get_events-Holds}
use radish.CompactStrategy.{execute}
use radish.LogWriter.Entries.{entries_of}
use radish.LogWriter.{
  Disk, Fault, no_fault, short_write, append, put_row, put_bytes, write_record, frame_bytes,
  apply_event, apply_events, collect, rewrite_if, rewrite_history, replace_log, write_records,
  put_record,
}
use radish.LogWriter
use radish.Database.{
  RadishDb, flush, commit, apply_if, finish_commit, swap_in, append_if, compact, compact_if,
  open_database, create, rename,
}
use radish.Database.Durable.{
  IsDurable, Request, create_request, rename_request, go_on, serve_all, restart,
}
use radish.Database.Durable.Failure.{Recovers, commit_failed}
use radish.Database.Durable.Compaction.{restart_compacted}
use radish.Database.Durable.Deadlines.{overwriting, rename_undone}

abbrev new_database : RadishDb Bytes
new_database = record {
  m_store = new_store minus_one;
  m_persistence = true;
  disk = record { log_file = some header; temporary_file = none };
}

without_ttl : limited minus_one ≡ false
unfolding limited
without_ttl = refl

nothing_applied :
    (now : Timestamp)
    → apply_events now (new_store {V = Bytes} minus_one) [] ≡ ok (new_store minus_one)
unfolding apply_events
nothing_applied now = refl

abbrev new_database-IsDurable : IsDurable new_database
new_database-IsDurable = record {
  events = [];
  body = [];
  logged = refl;
  unlimited = without_ttl;
  valid = new_store-IsValid minus_one;
  holds = nothing;
  file = refl;
  replays = nothing_applied;
}

abbrev requests : List (Timestamp × Fault × Request Bytes)
requests =
    (pos 1, no_fault, create_request (codes "a") (codes "1"))
    ∷ (pos 2, no_fault, rename_request (codes "a") (codes "b"))
    ∷ []

served : (serve_all requests new_database).1 ≡ ok tt
unfolding serve_all go_on create rename commit apply_if finish_commit swap_in append_if append
    put_row put_bytes write_record frame_bytes serialize serialize_fields validate_type
    write_optional write_container le_bytes to_bits to_tag apply_event Store.create Store.rename
    lookup insert erase bytes_eq limited new_expiry_timestamp Store.is_expired
served = refl

restart_example :
    open_database
      (pos 9)
      no_fault
      (serve_all requests new_database).0.m_store.m_ttl
      flush
      (serve_all requests new_database).0.disk
    ≡ ((serve_all requests new_database).0.disk, ok (serve_all requests new_database).0)
restart_example =
    restart string-IsReadBack (pos 9) requests new_database new_database-IsDurable served

abbrev event : RadishEvent Bytes
event = create_event minus_one (codes "k") (codes "v")

failed : (commit (pos 3) (short_write 7) event new_database).1 ≡ err write_failed
unfolding commit apply_if finish_commit swap_in append_if append put_row put_bytes write_record
    frame_bytes serialize serialize_fields validate_type write_optional write_container le_bytes
    to_bits to_tag apply_event
failed = refl

commit_failed_example :
    Recovers string-IsReadBack
      (pos 3)
      (pos 9)
      (short_write 7)
      event
      (omega arith)
      new_database
      new_database-IsDurable
      (commit (pos 3) (short_write 7) event new_database).0.disk
commit_failed_example =
    commit_failed string-IsReadBack (pos 3) (pos 9) (short_write 7) event (omega arith) new_database
      new_database-IsDurable failed

-- A database whose log holds one creation.
abbrev event_bytes : Bytes
event_bytes =
    (0 ∷ 255 ∷ 255 ∷ 255 ∷ 255 ∷ 255 ∷ 255 ∷ 255 ∷ 255 ∷ [])
    ++ ((1 ∷ 0 ∷ 0 ∷ 0 ∷ codes "k") ++ (1 ∷ 0 ∷ 0 ∷ 0 ∷ codes "v"))

event-IsRecord : IsRecord event event_bytes
unfolding serialize serialize_fields validate_type write_optional write_container le_bytes to_bits
    to_tag
event-IsRecord = record {
  written = refl;
  not_empty = omega arith;
  fits = omega arith;
  in_range = omega arith;
}

abbrev one_key : RadishStore Bytes
one_key = record { m_ttl = minus_one; m_data = (codes "k", codes "v") ∷ []; m_ttl_data = [] }

one_key-IsValid : IsValid one_key
unfolding Store.create insert bytes_eq limited
one_key-IsValid =
    create-IsValid (pos 1) (new_store minus_one) (codes "k") (codes "v") (some minus_one)
      (new_store-IsValid minus_one)

abbrev one_row : RadishDb Bytes
one_row = record {
  m_store = one_key;
  m_persistence = true;
  disk = record { log_file = some (header ++ frame event_bytes); temporary_file = none };
}

one_record : Holds (event ∷ []) (frame event_bytes)
one_record = first event-IsRecord nothing (sym (append-nil (frame event_bytes)))

event_applied : (now : Timestamp) → apply_events now (new_store minus_one) (event ∷ []) ≡ ok one_key
unfolding apply_events apply_event Store.create insert bytes_eq limited
event_applied now = refl

abbrev one_row-IsDurable : IsDurable one_row
one_row-IsDurable = record {
  events = event ∷ [];
  body = frame event_bytes;
  logged = refl;
  unlimited = without_ttl;
  valid = one_key-IsValid;
  holds = one_record;
  file = refl;
  replays = event_applied;
}

survivors :
    (do l ← get_events {V = Bytes} one_row.disk.log_file; collect (pos 5) [] l)
    ≡ ok (entries_of one_key.m_data)
unfolding collect execute lookup insert erase bytes_eq
survivors =
    ap (λ r. r >>= collect (pos 5) []) (get_events-Holds string-IsReadBack one_record) ∙ refl

compacted : (compact (pos 5) no_fault one_row).1 ≡ ok tt
unfolding compact compact_if LogWriter.compact rewrite_if rewrite_history replace_log put_bytes
    write_records put_record write_record frame_bytes serialize serialize_fields validate_type
    write_optional write_container le_bytes to_bits to_tag
compacted = rw survivors refl

restart_compacted_example :
    (open_database (pos 9) no_fault minus_one flush (compact (pos 5) no_fault one_row).0.disk).1
    ≡ ok (record (compact (pos 5) no_fault one_row).0 { m_store = one_row.m_store })
restart_compacted_example =
    restart_compacted string-IsReadBack (pos 5) no_fault one_row one_row-IsDurable (pos 9)
      (record { no_deadline = refl; proper = tt }, tt) compacted

-- A log under a time to live of 100: "a" until 10, "z" until 50, and the rename of "a" to "z".
with_ttl : limited (pos 100) ≡ true
unfolding limited
with_ttl = refl

other_names : bytes_eq (codes "a") (codes "z") ≡ false
unfolding bytes_eq
other_names = refl

abbrev running : RadishStore Bytes
running = record {
  m_ttl = pos 100;
  m_data = (codes "z", codes "1") ∷ [];
  m_ttl_data = (codes "z", pos 10) ∷ [];
}

abbrev replayed : RadishStore Bytes
replayed = record {
  m_ttl = pos 100;
  m_data = (codes "a", codes "1") ∷ (codes "z", codes "2") ∷ [];
  m_ttl_data = (codes "a", pos 10) ∷ (codes "z", pos 50) ∷ [];
}

ran :
    apply_events (pos 5) (new_store (pos 100)) (
      overwriting
        (pos 100)
        with_ttl
        (codes "a")
        (codes "z")
        other_names
        (codes "1")
        (codes "2")
        (pos 10)
        (pos 50))
    ≡ ok running
unfolding apply_events apply_event Store.create Store.rename Store.is_expired lookup insert erase
    bytes_eq limited
ran = refl

ran_again :
    apply_events (pos 20) (new_store (pos 100)) (
      overwriting
        (pos 100)
        with_ttl
        (codes "a")
        (codes "z")
        other_names
        (codes "1")
        (codes "2")
        (pos 10)
        (pos 50))
    ≡ ok replayed
unfolding apply_events apply_event Store.create Store.rename Store.is_expired lookup insert erase
    bytes_eq limited
ran_again = refl

rename_undone_example :
    (Store.get (pos 20) running (codes "z") ≡ none)
    × (Store.get (pos 20) replayed (codes "z") ≡ some (codes "2"))
rename_undone_example =
    rename_undone (pos 100) with_ttl (codes "a") (codes "z") other_names (codes "1") (codes "2")
      (pos 10) (pos 50) (pos 5) (pos 20) running replayed refl refl refl ran ran_again

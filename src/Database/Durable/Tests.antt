-- ===== src/Database/Durable/Tests.antt =====
-- A database of one entry, whose log is opened with a time to live.
use radish.Shared.{
  ℕ, true, false, none, some, [], ◌∷◌, ◌++◌, ◌≡◌, refl, sym, arith, Bytes, codes, append-nil,
  minus_one, pos, ok,
}
use radish.Binary.{string_value, write_optional, write_container, le_bytes, to_bits}
use radish.Store
use radish.Store.{RadishStore, Timestamp, new_store, limited}
use radish.Store.Valid.{new_store-IsValid, create-IsValid}
use radish.Event.{RadishEvent, create_event, serialize, serialize_fields, validate_type, to_tag}
use radish.Event.RoundTrip.{string-IsReadBack}
use radish.LogReader.{header}
use radish.LogReader.Records.{frame, IsRecord, nothing, first}
use radish.LogWriter.{no_fault, apply_event, apply_events}
use radish.Database
use radish.Database.{RadishDb, flush, open_database}
use radish.Database.Durable.{IsDurable}
use radish.Database.Durable.Enabling.{time_to_live_enabled}

abbrev event : RadishEvent Bytes
event = create_event minus_one (codes "k") (codes "v")

abbrev event_bytes : Bytes
event_bytes =
    (0 ∷ 255 ∷ 255 ∷ 255 ∷ 255 ∷ 255 ∷ 255 ∷ 255 ∷ 255 ∷ [])
    ++ ((1 ∷ 0 ∷ 0 ∷ 0 ∷ codes "k") ++ (1 ∷ 0 ∷ 0 ∷ 0 ∷ codes "v"))

serialized : serialize event ≡ ok event_bytes
unfolding serialize serialize_fields validate_type write_optional write_container le_bytes to_bits
    to_tag
serialized = refl

event-IsRecord : IsRecord event event_bytes
event-IsRecord = record {
  written = serialized;
  not_empty = omega arith;
  fits = omega arith;
  in_range = omega arith;
}

abbrev one_entry : RadishDb Bytes
one_entry = record {
  m_store = (Store.create (pos 1) (new_store minus_one) (codes "k") (codes "v") (some minus_one)).0;
  m_persistence = true;
  disk = record { log_file = some (header ++ frame event_bytes); temporary_file = none };
}

unlimited : limited one_entry.m_store.m_ttl ≡ false
unfolding Store.create limited
unlimited = refl

one_applied :
    (now : Timestamp)
    → apply_events now (new_store {V = Bytes} one_entry.m_store.m_ttl) (event ∷ [])
      ≡ ok one_entry.m_store
unfolding apply_events apply_event Store.create limited
one_applied now = refl

abbrev one_entry-IsDurable : IsDurable one_entry
one_entry-IsDurable = record {
  events = event ∷ [];
  body = frame event_bytes;
  logged = refl;
  unlimited = unlimited;
  valid =
      create-IsValid (pos 1) (new_store minus_one) (codes "k") (codes "v") (some minus_one)
        (new_store-IsValid minus_one);
  holds = first event-IsRecord nothing (sym (append-nil (frame event_bytes)));
  file = refl;
  replays = one_applied;
}

with_ttl : limited (pos 60000) ≡ true
unfolding limited
with_ttl = refl

time_to_live_enabled_example :
    (db' : RadishDb Bytes) × (open_database (pos 7) no_fault (pos 60000) flush one_entry.disk
      ≡ (one_entry.disk, ok db'))
    × ((later : ℕ) (key : Bytes) → Database.get (pos later) db' key ≡ none)
time_to_live_enabled_example =
    time_to_live_enabled string-IsReadBack (pos 60000) 7 one_entry one_entry-IsDurable with_ttl
      (refl, tt)

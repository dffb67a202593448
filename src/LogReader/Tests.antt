-- ===== src/LogReader/Tests.antt =====
-- Instances of the theorems on log files, on a log of one creation.
use radish.Shared.{
  [], ◌∷◌, ◌++◌, ◌≡◌, refl, arith, Bytes, codes, minus_one, ok, some, map, take, append-nil, sym,
}
use radish.Binary.{string_value, write_optional, write_container, le_bytes, to_bits}
use radish.Event.{RadishEvent, create_event, serialize, serialize_fields, validate_type, to_tag}
use radish.Event.RoundTrip.{canonical, string-IsReadBack}
use radish.LogReader.{header, get_events}
use radish.LogReader.Records.{frame, IsRecord, Holds, nothing, first}
use radish.LogReader.Logs.{get_events-torn}
use radish.LogReader.Total.{Ends, get_events-Ends, read_container-Ends}

abbrev event : RadishEvent Bytes
event = create_event minus_one (codes "k") (codes "v")

abbrev event_bytes : Bytes
event_bytes =
    (0 ∷ 255 ∷ 255 ∷ 255 ∷ 255 ∷ 255 ∷ 255 ∷ 255 ∷ 255 ∷ [])
    ++ ((1 ∷ 0 ∷ 0 ∷ 0 ∷ codes "k") ++ (1 ∷ 0 ∷ 0 ∷ 0 ∷ codes "v"))

serialized : serialize event ≡ ok event_bytes
unfolding serialize serialize_fields validate_type write_optional write_container le_bytes to_bits
    to_tag
serialized = refl

event-IsRecord : IsRecord event event_bytes
event-IsRecord = record {
  written = serialized;
  not_empty = omega arith;
  fits = omega arith;
  in_range = omega arith;
}

one_record : Holds (event ∷ []) (frame event_bytes)
one_record = first event-IsRecord nothing (sym (append-nil (frame event_bytes)))

get_events-torn_example :
    get_events (some (header ++ (frame event_bytes ++ take 9 (frame event_bytes))))
    ≡ ok (map canonical (event ∷ []))
unfolding le_bytes
get_events-torn_example =
    get_events-torn string-IsReadBack one_record event_bytes 9 (omega arith) (omega arith)
      (omega arith)

get_events-Ends_example : Ends (get_events {V = Bytes} (some (header ++ (7 ∷ 0 ∷ []))))
get_events-Ends_example =
    get_events-Ends Bytes (read_container-Ends 1) (some (header ++ (7 ∷ 0 ∷ [])))

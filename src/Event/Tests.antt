-- ===== src/Event/Tests.antt =====
-- Instances of the theorems on events.
use radish.Shared.{[], ◌∷◌, ◌++◌, ◌≡◌, refl, arith, Bytes, codes, minus_one, ok, some}
use radish.Binary.{string_value, write_optional, write_container, le_bytes, to_bits}
use radish.Event.{
  RadishEvent, delete, create_event, serialize, serialize_fields, deserialize, validate_type,
  to_tag, try_get_name_by_event_type,
}
use radish.Event.RoundTrip.{canonical, string-IsReadBack, deserialize-serialize}

abbrev event : RadishEvent Bytes
event = create_event minus_one (codes "k") (codes "v")

abbrev event_bytes : Bytes
event_bytes =
    (0 ∷ 255 ∷ 255 ∷ 255 ∷ 255 ∷ 255 ∷ 255 ∷ 255 ∷ 255 ∷ [])
    ++ ((1 ∷ 0 ∷ 0 ∷ 0 ∷ codes "k") ++ (1 ∷ 0 ∷ 0 ∷ 0 ∷ codes "v"))

serialized : serialize event ≡ ok event_bytes
unfolding serialize serialize_fields validate_type write_optional write_container le_bytes to_bits
    to_tag
serialized = refl

deserialize-serialize_example : deserialize (event_bytes ++ (7 ∷ [])) ≡ ok (canonical event, 7 ∷ [])
deserialize-serialize_example =
    deserialize-serialize string-IsReadBack event event_bytes (7 ∷ []) (omega arith) serialized

delete_name : try_get_name_by_event_type delete ≡ some (codes "DELETE")
unfolding try_get_name_by_event_type
delete_name = refl

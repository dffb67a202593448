-- ===== src/Event/Names.antt =====
-- The two tables of include/enums/EventType.h.
use radish.Shared.{Bytes, bytes_eq, Option, some, ◌≡◌, ap, sym}
use radish.Event.{
  EventType, create, rename, delete, clear, other, try_get_event_type_by_name,
  try_get_name_by_event_type,
}

some_name : (a b : Bytes) → ◌≡◌ {A = Option Bytes} (some a) (some b) → a ≡ b
some_name a b h = cc

-- If a type has a name, the type is found again under that name.
pub try_get_event_type-name :
    (type : EventType) (name : Bytes)
    → try_get_name_by_event_type type ≡ some name
    → try_get_event_type_by_name name ≡ some type
unfolding try_get_event_type_by_name try_get_name_by_event_type bytes_eq
try_get_event_type-name create name h = ap try_get_event_type_by_name (sym (some_name _ name h))
try_get_event_type-name rename name h = ap try_get_event_type_by_name (sym (some_name _ name h))
try_get_event_type-name delete name h = ap try_get_event_type_by_name (sym (some_name _ name h))
try_get_event_type-name clear name h = ap try_get_event_type_by_name (sym (some_name _ name h))
try_get_event_type-name (other n) name h = cc

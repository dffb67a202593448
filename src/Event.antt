-- ===== src/Event.antt =====
-- include/enums/EventType.h and include/RadishEvent.h: the event of the log and its binary form.
pub mod Names
pub mod RoundTrip
mod Tests
use radish.Shared.{
  ℕ, ◌+◌, Bool, true, false, ◌||◌, Option, none, some, [], ◌++◌, ◌≡◌, refl, Bytes, ℤ, pos, ◌==◌,
  if◌then◌else◌, Result, ok, err, ◌>>=◌, ◌>>◌, guard, invalid_event_type, codes, bytes_eq,
}
use radish.Binary.{
  BinaryValue, string_value, write_arithmetic, read_arithmetic, write_optional, read_optional,
  to_bits, from_bits, timestamp_width, write_container, read_container, le_bytes, from_le,
  read_exact,
}
use radish.Store.{Timestamp}

-- The enum over `uint8_t`: a tag that is read from a file may be none of the four.
pub data EventType : Type 0 where
  create rename delete clear : EventType
  other : ℕ → EventType

unfoldable pub to_tag : EventType → ℕ
to_tag create = 0
to_tag rename = 1
to_tag delete = 2
to_tag clear = 3
to_tag (other n) = n

unfoldable pub from_tag : ℕ → EventType
from_tag n =
    if n == 0
    then create
    else if n == 1
    then rename
    else if n == 2
    then delete
    else if n == 3
    then clear
    else other n

unfoldable pub try_get_event_type_by_name : Bytes → Option EventType
try_get_event_type_by_name name =
    if bytes_eq name (codes "CREATE")
    then some create
    else if bytes_eq name (codes "RENAME")
    then some rename
    else if bytes_eq name (codes "DELETE")
    then some delete
    else if bytes_eq name (codes "CLEAR")
    then some clear
    else none

unfoldable pub try_get_name_by_event_type : EventType → Option Bytes
try_get_name_by_event_type create = some (codes "CREATE")
try_get_name_by_event_type rename = some (codes "RENAME")
try_get_name_by_event_type delete = some (codes "DELETE")
try_get_name_by_event_type clear = some (codes "CLEAR")
try_get_name_by_event_type (other n) = none

pub record RadishEvent {ℓ} (V : Type ℓ) : Type ℓ where
  pub m_type : EventType
  pub m_timestamp : Timestamp
  pub m_key : Option Bytes
  pub m_rename_key : Option Bytes
  pub m_payload : Option V

unfoldable pub validate_type : EventType → Result (Unit {0})
validate_type (other n) = err invalid_event_type
validate_type _ = ok tt

module _ {ℓ} {V : Type ℓ} where
  unfoldable pub set_key : Bytes → RadishEvent V → RadishEvent V
  set_key key event = record event { m_key = some key }

module _ {ℓ} {V : Type ℓ} ⦃b : BinaryValue V⦄ where
  -- What `Serialize` writes behind the type and the timestamp: its early returns are the clauses.
  unfoldable pub serialize_fields : EventType → RadishEvent V → Result Bytes
  serialize_fields clear event = ok []
  serialize_fields rename event = do
    key ← write_optional (write_container 1) event.m_key
    rename_key ← write_optional (write_container 1) event.m_rename_key
    ok (key ++ rename_key)
  serialize_fields delete event = write_optional (write_container 1) event.m_key
  serialize_fields _ event = do
    key ← write_optional (write_container 1) event.m_key
    payload ← write_optional b.write event.m_payload
    ok (key ++ payload)

  unfoldable pub serialize : RadishEvent V → Result Bytes
  serialize event = do
    validate_type event.m_type
    fields ← serialize_fields event.m_type event
    ok (
        write_arithmetic 1 (to_tag event.m_type)
        ++ (write_arithmetic timestamp_width (to_bits event.m_timestamp) ++ fields))

  -- The optional fields are reset first, so that one which is not read stays empty.
  unfoldable pub deserialize_fields : EventType → Timestamp → Bytes → Result (RadishEvent V × Bytes)
  deserialize_fields clear timestamp file = ok (
    record {
      m_type = clear;
      m_timestamp = timestamp;
      m_key = none;
      m_rename_key = none;
      m_payload = none;
    },
    file,
  )
  deserialize_fields rename timestamp file = do
    (key, file₁) ← read_optional (read_container 1) file
    (rename_key, file₂) ← read_optional (read_container 1) file₁
    ok (
      record {
        m_type = rename;
        m_timestamp = timestamp;
        m_key = key;
        m_rename_key = rename_key;
        m_payload = none;
      },
      file₂,
    )
  deserialize_fields delete timestamp file = do
    (key, file₁) ← read_optional (read_container 1) file
    ok (
      record {
        m_type = delete;
        m_timestamp = timestamp;
        m_key = key;
        m_rename_key = none;
        m_payload = none;
      },
      file₁,
    )
  deserialize_fields type timestamp file = do
    (key, file₁) ← read_optional (read_container 1) file
    (payload, file₂) ← read_optional b.read file₁
    ok (
      record {
        m_type = type;
        m_timestamp = timestamp;
        m_key = key;
        m_rename_key = none;
        m_payload = payload;
      },
      file₂,
    )

  unfoldable pub deserialize : Bytes → Result (RadishEvent V × Bytes)
  deserialize file = do
    (tag, file₁) ← read_arithmetic 1 file
    validate_type (from_tag tag)
    (bits, file₂) ← read_arithmetic timestamp_width file₁
    deserialize_fields (from_tag tag) (from_bits bits) file₂

-- The events that the database commits.
module _ {ℓ} {V : Type ℓ} where
  abbrev pub create_event : Timestamp → Bytes → V → RadishEvent V
  create_event timestamp key value = record {
    m_type = create;
    m_timestamp = timestamp;
    m_key = some key;
    m_rename_key = none;
    m_payload = some value;
  }

  abbrev pub rename_event : Timestamp → Bytes → Bytes → RadishEvent V
  rename_event timestamp old_key new_key = record {
    m_type = rename;
    m_timestamp = timestamp;
    m_key = some old_key;
    m_rename_key = some new_key;
    m_payload = none;
  }

  abbrev pub delete_event : Timestamp → Bytes → RadishEvent V
  delete_event timestamp key = record {
    m_type = delete;
    m_timestamp = timestamp;
    m_key = some key;
    m_rename_key = none;
    m_payload = none;
  }

  abbrev pub clear_event : Timestamp → RadishEvent V
  clear_event timestamp = record {
    m_type = clear;
    m_timestamp = timestamp;
    m_key = none;
    m_rename_key = none;
    m_payload = none;
  }

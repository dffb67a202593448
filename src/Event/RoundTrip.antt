-- ===== src/Event/RoundTrip.antt =====
-- `Deserialize` on what `Serialize` wrote.
use radish.Shared.{
  ◌<◌, ◌^◌, pos, negsuc, ◌∙◌, Option, none, some, ◌++◌, ◌≡◌, refl, arith, Bytes, ℤ, append_assoc,
  Result, ok, err, ◌>>=◌, >>=-eq-ok,
}
use radish.Binary.{
  BinaryValue, string_value, write_arithmetic, write_optional, read_optional, to_bits,
  timestamp_width, write_container, read_container, le_bytes, from_le,
}
use radish.Binary.Numbers.{
  InRange, from_bits-to_bits, read_arithmetic-append, from_le-le_bytes_eight,
}
use radish.Binary.Containers.{read_container-write_container}
use radish.Event.{
  EventType, create, rename, delete, clear, other, RadishEvent, to_tag, from_tag, validate_type,
  serialize, serialize_fields, deserialize, deserialize_fields,
}

-- What the values of the map promise: a value that was written is read back, whatever follows it.
pub record IsReadBack {ℓ} (V : Type ℓ) ⦃b : BinaryValue V⦄ : Type ℓ where
  pub read-write :
      (value : V) (bytes rest : Bytes)
      → b.write value ≡ ok bytes
      → b.read (bytes ++ rest) ≡ ok (value, rest)

pub string-IsReadBack : IsReadBack Bytes
string-IsReadBack = record {
  read-write = λ v b rest h. read_container-write_container 1 v (omega arith, omega arith) b rest h;
}

-- The event without the fields that its type does not write.
abbrev pub canonical {ℓ} : {V : Type ℓ} → RadishEvent V → RadishEvent V
canonical event = elim event.m_type [
  | clear ↦ record event { m_key = none; m_rename_key = none; m_payload = none }
  | rename ↦ record event { m_payload = none }
  | delete ↦ record event { m_rename_key = none; m_payload = none }
  | _ ↦ record event { m_rename_key = none }
]

abbrev pub event_of {ℓ} :
    {V : Type ℓ} → EventType → ℤ → Option Bytes → Option Bytes → Option V → RadishEvent V
event_of type t k r p = record {
  m_type = type;
  m_timestamp = t;
  m_key = k;
  m_rename_key = r;
  m_payload = p;
}

two_parts :
    (m n : Result Bytes) {fields : Bytes}
    → (m >>= λ x. n >>= λ y. ok (x ++ y)) ≡ ok fields
    → (x y : Bytes) × (m ≡ ok x) × (n ≡ ok y) × (fields ≡ x ++ y)
two_parts (ok x) (ok y) h = (x, y, refl, refl, cc)
two_parts (ok x) (err e) h = cc
two_parts (err e) n h = cc

module _ {ℓ} {V : Type ℓ} (write : V → Result Bytes) (read : Bytes → Result (V × Bytes))
    (law : (v : V) (b rest : Bytes) → write v ≡ ok b → read (b ++ rest) ≡ ok (v, rest)) where
  read_optional-write_optional :
      (o : Option V) (bytes rest : Bytes)
      → write_optional write o ≡ ok bytes
      → read_optional read (bytes ++ rest) ≡ ok (o, rest)
  unfolding read_optional write_optional
  read_optional-write_optional none bytes rest h = cc
  read_optional-write_optional (some v) bytes rest h = rw (law v bytes rest h, ◌>>=◌)

tag_back :
    (type : EventType)
    → validate_type type ≡ ok tt
    → from_tag (from_le (le_bytes 1 (to_tag type))) ≡ type
unfolding from_tag to_tag validate_type from_le le_bytes
tag_back create h = refl
tag_back rename h = refl
tag_back delete h = refl
tag_back clear h = refl
tag_back (other n) h = cc

to_bits-lt : (t : ℤ) → to_bits t < 2 ^ 64
unfolding to_bits
to_bits-lt (pos n) = omega arith
to_bits-lt (negsuc n) = omega arith

-- What a successful `Serialize` has checked and written.
pub serialize-inversion {ℓ} :
    {V : Type ℓ} ⦃b : BinaryValue V⦄ (event : RadishEvent V) (bytes : Bytes)
    → serialize event ≡ ok bytes
    → (fields : Bytes) × (validate_type event.m_type ≡ ok tt)
      × (serialize_fields event.m_type event ≡ ok fields)
      × (bytes
          ≡ write_arithmetic 1 (to_tag event.m_type)
            ++ (write_arithmetic timestamp_width (to_bits event.m_timestamp) ++ fields))
unfolding serialize
serialize-inversion event bytes h =
    let (u, checked, h₁) = >>=-eq-ok _ _ h in
    let (fields, written, h₂) = >>=-eq-ok _ _ h₁ in (fields, checked, written, cc)

module _ {ℓ} {V : Type ℓ} ⦃b : BinaryValue V⦄ (law : IsReadBack V) where
  key_back :
      (o : Option Bytes) (bytes rest : Bytes)
      → write_optional (write_container 1) o ≡ ok bytes
      → read_optional (read_container 1) (bytes ++ rest) ≡ ok (o, rest)
  key_back =
      read_optional-write_optional (write_container 1) (read_container 1)
        (string-IsReadBack.read-write)

  payload_back :
      (o : Option V) (bytes rest : Bytes)
      → write_optional b.write o ≡ ok bytes
      → read_optional b.read (bytes ++ rest) ≡ ok (o, rest)
  payload_back = read_optional-write_optional b.write b.read law.read-write

  -- The fields behind the head, for each type.
  fields_back :
      (type : EventType) (t : ℤ) (k r : Option Bytes) (p : Option V) (fields rest : Bytes)
      → validate_type type ≡ ok tt
      → serialize_fields type (event_of type t k r p) ≡ ok fields
      → deserialize_fields type t (fields ++ rest) ≡ ok (canonical (event_of type t k r p), rest)
  unfolding serialize_fields deserialize_fields validate_type
  fields_back clear t k r p fields rest checked h = ground arith
  fields_back delete t k r p fields rest checked h = rw (key_back k fields rest h)
  fields_back rename t k r p fields rest checked h =
      let (x, y, hx, hy, e) = two_parts _ _ h in
      rw (e, append_assoc, key_back k x (y ++ rest) hx) (rw (key_back r y rest hy))
  fields_back create t k r p fields rest checked h =
      let (x, y, hx, hy, e) = two_parts _ _ h in
      rw (e, append_assoc, key_back k x (y ++ rest) hx) (rw (payload_back p y rest hy))
  fields_back (other n) t k r p fields rest checked h = cc

  head_back :
      (event : RadishEvent V) (fields rest : Bytes)
      → validate_type event.m_type ≡ ok tt
      → InRange event.m_timestamp
      → deserialize {V = V} (
          write_arithmetic 1 (to_tag event.m_type)
          ++ (write_arithmetic timestamp_width (to_bits event.m_timestamp) ++ (fields ++ rest)))
        ≡ deserialize_fields event.m_type event.m_timestamp (fields ++ rest)
  unfolding deserialize
  head_back event fields rest checked range =
      rw (read_arithmetic-append 1 (to_tag event.m_type), tag_back event.m_type checked, checked)
        (rw (
          read_arithmetic-append 8 (to_bits event.m_timestamp),
          from_le-le_bytes_eight (to_bits event.m_timestamp) (to_bits-lt event.m_timestamp),
          from_bits-to_bits event.m_timestamp range,
        ))

  -- If the values are read back as they are written and the timestamp is a 64-bit number,
  -- reading what `Serialize` wrote gives the event, less the fields that its type does not
  -- carry, and leaves what follows.
  pub deserialize-serialize :
      (event : RadishEvent V) (bytes rest : Bytes)
      → InRange event.m_timestamp
      → serialize event ≡ ok bytes
      → deserialize (bytes ++ rest) ≡ ok (canonical event, rest)
  deserialize-serialize event bytes rest range h =
      let (fields, checked, written, e) = serialize-inversion event bytes h in
      rw (e, append_assoc, append_assoc)
        (head_back event fields rest checked range
          ∙ fields_back event.m_type event.m_timestamp event.m_key event.m_rename_key
              event.m_payload fields rest checked written)

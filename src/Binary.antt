-- ===== src/Binary.antt =====
-- include/persistence/BinaryFile.h and the widths of include/helpers/Types.h: values written to and
-- read from a stream of bytes, in the byte order of a little-endian machine.
pub mod Numbers
pub mod Containers
mod Tests
use radish.Shared.{
  ℕ, zero, suc, ◌+◌, ◌-◌, ◌*◌, ◌/◌, ◌%◌, ◌^◌, Bool, true, false, Option, none, some, List, [], ◌∷◌,
  ◌++◌, ◌≡◌, refl, Bytes, ℤ, pos, negsuc, length, take, drop, ltb, ◌==◌, if◌then◌else◌, Result, ok,
  err, ◌>>=◌, ◌>>◌, guard, missing_field, value_too_large, invalid_value_length, unexpected_end,
  leb,
}

-- The bytes of a w-byte number in memory, and back.
unfoldable pub le_bytes : ℕ → ℕ → Bytes
le_bytes zero n = []
le_bytes (suc w) n = (n % 256) ∷ le_bytes w (n / 256)

unfoldable pub from_le : Bytes → ℕ
from_le [] = 0
from_le (c ∷ s) = c + 256 * from_le s

-- The two's complement pattern of a `long long`, and back.
unfoldable pub to_bits : ℤ → ℕ
to_bits (pos n) = n % 2 ^ 64
to_bits (negsuc n) = (2 ^ 64 - 1 - n) % 2 ^ 64

unfoldable pub from_bits : ℕ → ℤ
from_bits n = if ltb n (2 ^ 63) then pos n else negsuc (2 ^ 64 - 1 - n)

-- file.read(buffer, n): `none` where fewer than n bytes are left and the stream fails.
unfoldable pub read_exact : ℕ → Bytes → Option (Bytes × Bytes)
read_exact n s = if ltb (length s) n then none else some (take n s, drop n s)

-- The widths of `BinarySize`, `Timestamp` and `EventType`.
abbrev pub binary_size_width : ℕ
binary_size_width = 4

abbrev pub timestamp_width : ℕ
timestamp_width = 8

abbrev pub max_binary_size : ℕ
max_binary_size = 2 ^ 32 - 1

-- The branch of `Write` and `Read` for arithmetic types and enums of `width` bytes.
abbrev pub write_arithmetic : ℕ → ℕ → Bytes
write_arithmetic width value = le_bytes width value

unfoldable pub read_arithmetic : ℕ → Bytes → Result (ℕ × Bytes)
read_arithmetic width file = elim (read_exact width file) [
  | none ↦ err unexpected_end
  | some (bytes, rest) ↦ ok (from_le bytes, rest)
]

-- The branch for containers: a value is its image in memory, and `value.size()` is the length of
-- the image over `sizeof(ElementType)`.
unfoldable pub write_container : ℕ → Bytes → Result Bytes
write_container element_size value =
    let size = length value / element_size in
    let bytes = size * element_size % 2 ^ 32 in
    if ltb (max_binary_size / element_size) size
    then err value_too_large
    else ok (le_bytes binary_size_width bytes ++ take bytes value)

-- `bytes` elements of the buffer that `resize` made are overwritten.
unfoldable pub read_container : ℕ → Bytes → Result (Bytes × Bytes)
read_container element_size file = elim (read_exact binary_size_width file) [
  | none ↦ err invalid_value_length
  | some (prefix, rest) ↦
      if from_le prefix % element_size == 0
      then (elim (read_exact (from_le prefix) rest) [ none ↦ err unexpected_end | some r ↦ ok r ])
      else err invalid_value_length
]

-- What `TValue` is written and read by.
pub record BinaryValue {ℓ} (V : Type ℓ) : Type ℓ where
  pub write : V → Result Bytes
  pub read : Bytes → Result (V × Bytes)

-- `std::string`
instance abbrev pub string_value : BinaryValue Bytes
string_value = record { write = write_container 1; read = read_container 1 }

-- The overloads for `std::optional`.
unfoldable pub write_optional {ℓ} : {V : Type ℓ} → (V → Result Bytes) → Option V → Result Bytes
write_optional write none = err missing_field
write_optional write (some value) = write value

unfoldable pub read_optional {ℓ} :
    {V : Type ℓ} → (Bytes → Result (V × Bytes)) → Bytes → Result (Option V × Bytes)
read_optional read file = do (value, rest) ← read file; ok (some value, rest)

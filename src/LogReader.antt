-- ===== src/LogReader.antt =====
-- include/persistence/LogReader.h: the events of a log file.
pub mod Fuel
pub mod Records
pub mod Total
pub mod Logs
mod Tests
use radish.Shared.{
  ℕ, zero, suc, ◌*◌, Bool, true, false, ◌||◌, Option, none, some, List, [], ◌∷◌, ◌++◌, ◌≡◌, Bytes,
  codes, length, ltb, ◌==◌, if◌then◌else◌, Result, ok, err, ◌>>=◌, Exception, bad_header,
  truncated_log, invalid_record_length, trailing_bytes, out_of_fuel, bytes_eq,
}
use radish.Binary.{BinaryValue, read_exact, from_le, binary_size_width}
use radish.Event.{RadishEvent, deserialize}

-- kHeader
abbrev pub header : Bytes
header = codes "RADISH" ++ 0 ∷ 1 ∷ []

-- kMaxRecordSize
abbrev pub max_record_size : ℕ
max_record_size = 64 * 1024 * 1024

-- One round of the loop of `GetEvents`: it breaks, throws, or pushes an event.
pub data Round {ℓ} (V : Type ℓ) : Type ℓ where
  stop : Round V
  throw : Exception → Round V
  push : RadishEvent V → Bytes → Round V

module _ {ℓ} {V : Type ℓ} ⦃b : BinaryValue V⦄ where
  -- The record must be used up: `recordStream.peek() != EOF` throws.
  unfoldable pub finish_record : Bytes → Result (RadishEvent V × Bytes) → Round V
  finish_record file (err e) = throw e
  finish_record file (ok (event, [])) = push event file
  finish_record file (ok (event, c ∷ trailing)) = throw trailing_bytes

  unfoldable pub read_body : ℕ → Bytes → Round V
  read_body record_size file = elim (read_exact record_size file) [
    | none ↦ stop
    | some (record_bytes, rest) ↦ finish_record rest (deserialize record_bytes)
  ]

  unfoldable pub read_sized : ℕ → Bytes → Round V
  read_sized record_size file =
      if record_size == 0 || ltb max_record_size record_size
      then throw invalid_record_length
      else read_body record_size file

  unfoldable pub read_record : Bytes → Round V
  read_record file = elim (read_exact binary_size_width file) [
    | none ↦ stop
    | some (prefix, rest) ↦ read_sized (from_le prefix) rest
  ]

  -- What the loop does after a round: `loop` is the rest of it.
  unfoldable pub continue :
      Round V → (Bytes → Result (List (RadishEvent V))) → Result (List (RadishEvent V))
  continue stop loop = ok []
  continue (throw e) loop = err e
  continue (push event rest) loop = do events ← loop rest; ok (event ∷ events)

  -- `while (true)`: the fuel is more than the length of the file, and every round takes some bytes.
  unfoldable pub read_records : ℕ → Bytes → Result (List (RadishEvent V))
  read_records zero file = err out_of_fuel
  read_records (suc fuel) file = continue (read_record file) (read_records fuel)

unfoldable pub read_header : Bytes → Result Bytes
read_header file = elim (read_exact (length header) file) [
  | none ↦ err truncated_log
  | some (bytes, rest) ↦ if bytes_eq bytes header then ok rest else err bad_header
]

module _ {ℓ} {V : Type ℓ} ⦃b : BinaryValue V⦄ where
  -- `none` is a file that does not exist.
  unfoldable pub get_events : Option Bytes → Result (List (RadishEvent V))
  get_events none = ok []
  get_events (some file) = do rest ← read_header file; read_records (suc (length rest)) rest

-- ===== src/RespCodec.antt =====
-- include/network/RespCodec.h and the parser of src/network/RespCodec.cpp. An offset into the input
-- is the suffix of the input from there, beside the number where the number is used.
pub mod Replies
pub mod Lines
pub mod Numbers
pub mod RoundTrip
pub mod Prefixes
pub mod Progress
pub mod Reading
pub mod Bulks
pub mod Stable
mod Tests
use radish.Shared.{
  ℕ, zero, suc, ◌+◌, ◌-◌, ◌*◌, ◌<◌, Bool, true, false, ◌&&◌, ◌||◌, Option, none, some, List, [],
  ◌∷◌, ◌++◌, Bytes, ℤ, pos, negsuc, codes, length, take, drop, leb, ltb, ◌==◌, if◌then◌else◌,
}
use radish.Decimal.{FromChars, invalid_argument, result_out_of_range, parsed, from_chars, to_string}

pub data RespVersion : Type 0 where
  resp2 resp3 : RespVersion

pub data Status : Type 0 where
  complete incomplete error : Status

pub record RespParseResult : Type 0 where
  pub status : Status
  pub arguments : List Bytes
  pub consumed : ℕ
  pub message : Bytes

abbrev pub max_arguments : ℕ
max_arguments = 1024

abbrev pub max_bulk_length : ℕ
max_bulk_length = 4 * 1024 * 1024

abbrev pub max_buffered_input : ℕ
max_buffered_input = 8 * 1024 * 1024

abbrev pub cr : ℕ
cr = 13

abbrev pub lf : ℕ
lf = 10

-- input.find("\r\n", offset): the text in front of the first terminator, and the input behind it.
unfoldable pub split_crlf : Bytes → Option (Bytes × Bytes)
split_crlf [] = none
split_crlf (c ∷ []) = none
split_crlf (c ∷ d ∷ s) =
    if c == cr && d == lf
    then some ([], s)
    else elim (split_crlf (d ∷ s)) [ none ↦ none | some (text, rest) ↦ some (c ∷ text, rest) ]

-- The status, with the value and the input from `next` on where it is complete.
pub data ParsedNumber : Type 0 where
  no_terminator malformed : ParsedNumber
  number : ℤ → Bytes → ParsedNumber

-- The tests on the result of `from_chars`: the whole text must be the number.
unfoldable pub whole_number : Bytes → FromChars → ParsedNumber
whole_number rest (parsed value []) = number value rest
whole_number rest _ = malformed

-- A terminator at the offset itself is an error, and so is the number of an empty text.
unfoldable pub number_before : Option (Bytes × Bytes) → ParsedNumber
number_before none = no_terminator
number_before (some ([], rest)) = malformed
number_before (some (c ∷ text, rest)) = whole_number rest (from_chars (c ∷ text))

unfoldable pub parse_number : Bytes → ParsedNumber
parse_number input = number_before (split_crlf input)

-- What one round of the loop over the arguments does: it returns, or pushes an argument.
pub data Bulk : Type 0 where
  need_more : Bulk
  reject : Bytes → Bulk
  argument : Bytes → Bytes → Bulk

abbrev pub expected_array : Bytes
expected_array = codes "Protocol error: expected an array request"

abbrev pub invalid_count : Bytes
invalid_count = codes "Protocol error: invalid argument count"

abbrev pub expected_bulk : Bytes
expected_bulk = codes "Protocol error: expected a bulk string"

abbrev pub invalid_length : Bytes
invalid_length = codes "Protocol error: invalid bulk string length"

abbrev pub invalid_terminator : Bytes
invalid_terminator = codes "Protocol error: invalid bulk string terminator"

-- The two bytes behind the data.
unfoldable pub check_terminator : Bytes → Bytes → Bulk
check_terminator value (c ∷ d ∷ rest) =
    if c == cr && d == lf then argument value rest else reject invalid_terminator
check_terminator value _ = need_more

unfoldable pub read_bulk : ℕ → Bytes → Bulk
read_bulk bulk_length input =
    if ltb (length input) bulk_length
    then need_more
    else if ltb (length input - bulk_length) 2
    then need_more
    else check_terminator (take bulk_length input) (drop bulk_length input)

unfoldable pub after_length : ParsedNumber → Bulk
after_length no_terminator = need_more
after_length malformed = reject invalid_length
after_length (number (negsuc n) rest) = reject invalid_length
after_length (number (pos n) rest) =
    if ltb max_bulk_length n then reject invalid_length else read_bulk n rest

unfoldable pub parse_bulk : Bytes → Bulk
parse_bulk [] = need_more
parse_bulk (c ∷ input) =
    if c == b'$' then after_length (parse_number input) else reject expected_bulk

abbrev pub incomplete_result : RespParseResult
incomplete_result = record { status = incomplete; arguments = []; consumed = 0; message = [] }

abbrev pub error_result : Bytes → RespParseResult
error_result message = record { status = error; arguments = []; consumed = 0; message = message }

abbrev pub complete_result : List Bytes → ℕ → RespParseResult
complete_result arguments consumed = record {
  status = complete;
  arguments = arguments;
  consumed = consumed;
  message = [];
}

unfoldable pub after_bulk : Bulk → (Bytes → Bytes → RespParseResult) → RespParseResult
after_bulk need_more loop = incomplete_result
after_bulk (reject message) loop = error_result message
after_bulk (argument value rest) loop = loop value rest

-- The loop: the rounds left, the arguments so far, the size of the whole input and its suffix from
-- `offset`, so that `offset` is the difference of the sizes.
unfoldable pub parse_arguments : ℕ → List Bytes → ℕ → Bytes → RespParseResult
parse_arguments zero arguments size input = complete_result arguments (size - length input)
parse_arguments (suc count) arguments size input =
    after_bulk (parse_bulk input)
      (λ value rest. parse_arguments count (arguments ++ value ∷ []) size rest)

unfoldable pub after_count : ℕ → ParsedNumber → RespParseResult
after_count size no_terminator = incomplete_result
after_count size malformed = error_result invalid_count
after_count size (number (negsuc n) rest) = error_result invalid_count
after_count size (number (pos n) rest) =
    if n == 0 || ltb max_arguments n
    then error_result invalid_count
    else parse_arguments n [] size rest

unfoldable pub parse_command : Bytes → RespParseResult
parse_command [] = incomplete_result
parse_command (c ∷ input) =
    if c == b'*'
    then after_count (length (c ∷ input)) (parse_number input)
    else error_result expected_array

abbrev pub crlf : Bytes
crlf = cr ∷ lf ∷ []

-- One argument of `EncodeCommand`, and a bulk string of a reply.
unfoldable pub encode_bulk : Bytes → Bytes
encode_bulk value = b'$' ∷ (to_string (length value) ++ (cr ∷ lf ∷ (value ++ crlf)))

unfoldable pub encode_arguments : List Bytes → Bytes
encode_arguments [] = []
encode_arguments (value ∷ values) = encode_bulk value ++ encode_arguments values

unfoldable pub encode_command : List Bytes → Bytes
encode_command values = b'*' ∷ (to_string (length values) ++ (cr ∷ lf ∷ encode_arguments values))

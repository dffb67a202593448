-- ===== src/Bench/Connection.antt =====
-- `RespConnection` of benchmarks/RadishBench.cpp: a client that sends commands and reads the replies.
-- The bytes that arrive from the server until it closes the connection are a list; a read of more
-- than there are throws, as asio does at the end of the stream.
pub mod Lines
pub mod Replies
pub mod Hello
pub mod Readable
use radish.Shared.{
  ℕ, zero, suc, ◌+◌, ◌*◌, ◌^◌, Bool, true, false, ◌&&◌, ◌||◌, Option, none, some, List, [], ◌∷◌,
  ◌++◌, Bytes, ℤ, pos, negsuc, length, drop, leb, ltb, ◌==◌, if◌then◌else◌, Result, ok, err, ◌>>=◌,
  end_of_stream, empty_response, nesting_limit, unsupported_response, undefined_behaviour,
}
use radish.RespCodec.{lf, split_crlf, encode_command}
use radish.Options.{stoll}

-- std::getline: the text in front of the first line feed, and what is behind it.
unfoldable pub get_line : Bytes → Bytes × Bytes
get_line [] = ([], [])
get_line (c ∷ s) = let (line, rest) = get_line s in if c == lf then ([], s) else (c ∷ line, rest)

-- `line.pop_back()`, which has no defined result on an empty line.
unfoldable pub pop_back : Bytes → Result Bytes
pop_back [] = err undefined_behaviour
pop_back (c ∷ []) = ok []
pop_back (c ∷ d ∷ s) = do line ← pop_back (d ∷ s); ok (c ∷ line)

-- The line is not the text that `read_until` waits for, where a line feed stands alone in front.
unfoldable pub take_line : Option (Bytes × Bytes) → Bytes → Result (Bytes × Bytes)
unfolding get_line pop_back
take_line none input = err end_of_stream
take_line (some found) input = do line ← pop_back (get_line input).0; ok (line, (get_line input).1)

unfoldable pub read_line : Bytes → Result (Bytes × Bytes)
unfolding take_line
read_line input = take_line (split_crlf input) input

unfoldable pub consume_bytes : ℕ → Bytes → Result Bytes
consume_bytes size input =
    if ltb (length input) size then err end_of_stream else ok (drop size input)

-- A reply with a length: a negative one stands for no value.
unfoldable pub read_bulk : ℤ → Bytes → Result (Bool × Bytes)
unfolding consume_bytes
read_bulk (negsuc n) input = ok (true, input)
read_bulk (pos n) input = do rest ← consume_bytes (n + 2) input; ok (true, rest)

-- The loop over the elements: `read` reads one. All of them are read, whatever `success` is.
unfoldable pub read_elements :
    (Bytes → Result (Bool × Bytes)) → ℕ → Bool → Bytes → Result (Bool × Bytes)
read_elements read zero success input = ok (success, input)
read_elements read (suc n) success input = do
  (element, rest) ← read input
  read_elements read n (element && success) rest

-- `count * 2` has no defined result from 2^62 on.
unfoldable pub read_aggregate :
    (Bytes → Result (Bool × Bytes)) → Bool → ℤ → Bytes → Result (Bool × Bytes)
unfolding read_elements
read_aggregate read is_map (negsuc n) input = ok (true, input)
read_aggregate read false (pos n) input = read_elements read n true input
read_aggregate read true (pos n) input =
    if leb (2 ^ 62) n then err undefined_behaviour else read_elements read (n * 2) true input

-- The tests on the first byte of the line.
unfoldable pub read_typed : (Bytes → Result (Bool × Bytes)) → Bytes → Bytes → Result (Bool × Bytes)
unfolding read_bulk read_aggregate
read_typed read [] input = err empty_response
read_typed read (c ∷ text) input =
    if c == b'-'
    then ok (false, input)
    else if c == b'+' || c == b':' || c == b'_' || c == b'#'
    then ok (true, input)
    else if c == b'$'
    then (do n ← stoll text; read_bulk n input)
    else if c == b'*' || c == b'%'
    then (do n ← stoll text; read_aggregate read (c == b'%') n input)
    else err unsupported_response

-- A reply, and what follows it: false is an error reply. The levels are those that are left of the 33
-- from depth 0 to depth 32.
unfoldable pub read_response : ℕ → Bytes → Result (Bool × Bytes)
unfolding read_line read_typed
read_response zero input = err nesting_limit
read_response (suc levels) input = do
  (line, rest) ← read_line input
  read_typed (read_response levels) line rest

abbrev pub max_levels : ℕ
max_levels = 33

-- What `ExecutePipeline` sends.
unfoldable pub pipeline_request : List (List Bytes) → Bytes
pipeline_request [] = []
pipeline_request (command ∷ commands) = encode_command command ++ pipeline_request commands

-- The loop of `ExecutePipeline`: the responses, and what follows them. The times are left out.
unfoldable pub read_responses : ℕ → Bytes → Result (List Bool × Bytes)
read_responses zero input = ok ([], input)
read_responses (suc n) input = do
  (response, rest) ← read_response max_levels input
  (responses, rest') ← read_responses n rest
  ok (response ∷ responses, rest')

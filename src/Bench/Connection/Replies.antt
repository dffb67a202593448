-- ===== src/Bench/Connection/Replies.antt =====
-- The replies of the server, as the client reads them.
use radish.Shared.{
  ℕ, zero, suc, ◌+◌, ◌<◌, ◌≤◌, ◌^◌, Bool, true, false, Option, none, some, List, [], ◌∷◌, ◌++◌, ◌≡◌,
  refl, sym, ap, ◌∙◌, arith, Bytes, ℤ, All, codes, length, length-append, drop-append, map, joined,
  ok, append_assoc,
}
use radish.Decimal.{to_string, to_string_ℤ, unsigned, scan_digits}
use radish.RespCodec.{RespVersion, resp2, resp3, cr, lf, crlf, encode_bulk}
use radish.RespCodec.Replies.{
  sanitize_simple_value, simple_string, error_reply, integer, bulk_string, bulk_strings, array,
}
use radish.Options.{stoll, skip_spaces, take_sign, to_long_long}
use radish.Options.RoundTrip.{stoll-to_string}
use radish.Bench.Connection.{
  consume_bytes, read_bulk, read_elements, read_aggregate, read_typed, read_response,
}
use radish.Bench.Connection.Lines.{
  IsLineByte, read_line-plain, sanitize_simple_value-IsLineByte, to_string-IsLineByte,
  to_string_ℤ-IsLineByte,
}

-- With so many levels, exactly the reply is read, whatever follows it.
abbrev pub Reads : ℕ → Bytes → Bool → Type 0
Reads n reply success =
    (levels : ℕ) (rest : Bytes)
    → n ≤ levels
    → read_response levels (reply ++ rest) ≡ ok (success, rest)

-- A length that `std::stoll` reads back.
abbrev pub IsCounted : Bytes → Type 0
IsCounted value = length value < 2 ^ 63

pub line-read_response :
    (levels : ℕ) (text rest : Bytes)
    → All IsLineByte text
    → read_response (suc levels) (text ++ (cr ∷ lf ∷ rest))
      ≡ read_typed (read_response levels) text rest
unfolding read_response
line-read_response levels text rest h = rw (read_line-plain text rest h) refl

-- A reply of one line.
pub line-Reads :
    (text : Bytes) (success : Bool)
    → All IsLineByte text
    → ((levels : ℕ) (rest : Bytes)
        → read_typed (read_response levels) text rest ≡ ok (success, rest))
    → Reads 1 (text ++ crlf) success
line-Reads text success h typed zero rest n = absurd (omega arith)
line-Reads text success h typed (suc levels) rest n =
    ap (read_response (suc levels)) (append_assoc text crlf rest)
    ∙ line-read_response levels text rest h
    ∙ typed levels rest

pub simple_string-Reads : (value : Bytes) → Reads 1 (simple_string value) true
unfolding simple_string
simple_string-Reads value =
    line-Reads (b'+' ∷ sanitize_simple_value value) true
      ((refl, refl), sanitize_simple_value-IsLineByte value)
      (λ levels rest. unfold read_typed in refl)

pub error_reply-Reads : (message : Bytes) → Reads 1 (error_reply message) false
unfolding error_reply
error_reply-Reads message =
    line-Reads (codes "-ERR " ++ sanitize_simple_value message) false
      (
        (refl, refl),
        (
          (refl, refl),
          ((refl, refl), ((refl, refl), ((refl, refl), sanitize_simple_value-IsLineByte message))),
        ),
      )
      (λ levels rest. unfold read_typed in refl)

pub integer-Reads : (t : ℤ) → Reads 1 (integer t) true
unfolding integer
integer-Reads t =
    line-Reads (b':' ∷ to_string_ℤ t) true ((refl, refl), to_string_ℤ-IsLineByte t)
      (λ levels rest. unfold read_typed in refl)

consume_bytes-append : (front rest : Bytes) → consume_bytes (length front) (front ++ rest) ≡ ok rest
unfolding consume_bytes
consume_bytes-append front rest =
    rw (length-append front rest, drop-append front rest) (ground arith)

consume_bytes-bulk :
    (value rest : Bytes) → consume_bytes (length value + 2) (value ++ (cr ∷ lf ∷ rest)) ≡ ok rest
consume_bytes-bulk value rest =
    ap (consume_bytes (length value + 2)) (sym (append_assoc value crlf rest))
    ∙ ap (λ n. consume_bytes n ((value ++ crlf) ++ rest)) (sym (length-append value crlf))
    ∙ consume_bytes-append (value ++ crlf) rest

typed_bulk :
    (levels : ℕ) (value rest : Bytes)
    → IsCounted value
    → read_typed
        (read_response levels)
        (b'$' ∷ to_string (length value))
        (value ++ (cr ∷ lf ∷ rest))
      ≡ ok (true, rest)
unfolding read_typed read_bulk
typed_bulk levels value rest h =
    rw (stoll-to_string (length value) h, consume_bytes-bulk value rest) refl

pub encode_bulk-Reads : (value : Bytes) → IsCounted value → Reads 1 (encode_bulk value) true
unfolding encode_bulk
encode_bulk-Reads value h zero rest n = absurd (omega arith)
encode_bulk-Reads value h (suc levels) rest n =
    ap (read_response (suc levels)) (
      append_assoc (b'$' ∷ to_string (length value)) (cr ∷ lf ∷ (value ++ crlf)) rest
      ∙ ap (λ s. (b'$' ∷ to_string (length value)) ++ (cr ∷ lf ∷ s)) (append_assoc value crlf rest))
    ∙ line-read_response levels (b'$' ∷ to_string (length value)) (value ++ (cr ∷ lf ∷ rest))
        ((refl, refl), to_string-IsLineByte (length value))
    ∙ typed_bulk levels value rest h

typed_nil :
    (levels : ℕ) (rest : Bytes)
    → read_typed (read_response levels) (codes "$-1") rest ≡ ok (true, rest)
unfolding read_typed read_bulk stoll skip_spaces take_sign to_long_long unsigned scan_digits
typed_nil levels rest = refl

pub bulk_string-Reads :
    (value : Option Bytes) (version : RespVersion)
    → All IsCounted (elim value [ none ↦ [] | some v ↦ v ∷ [] ])
    → Reads 1 (bulk_string value version) true
unfolding bulk_string
bulk_string-Reads (some value) version h = encode_bulk-Reads value h.0
bulk_string-Reads none resp3 h =
    line-Reads (b'_' ∷ []) true ((refl, refl), tt) (λ levels rest. unfold read_typed in refl)
bulk_string-Reads none resp2 h =
    line-Reads (codes "$-1") true ((refl, refl), ((refl, refl), ((refl, refl), tt))) typed_nil

-- The elements of an aggregate, none of them an error.
pub elements-read :
    (n levels : ℕ) (replies : List Bytes) (rest : Bytes)
    → n ≤ levels
    → All (λ reply. Reads n reply true) replies
    → read_elements (read_response levels) (length replies) true (joined replies ++ rest)
      ≡ ok (true, rest)
unfolding read_elements
elements-read n levels [] rest h reads = refl
elements-read n levels (reply ∷ replies) rest h reads =
    rw (append_assoc reply (joined replies) rest, reads.0 levels (joined replies ++ rest) h)
      (elements-read n levels replies rest h reads.1)

bulk_strings-joined : (values : List Bytes) → bulk_strings values ≡ joined (map encode_bulk values)
unfolding bulk_strings bulk_string
bulk_strings-joined [] = refl
bulk_strings-joined (value ∷ values) = ap (λ s. encode_bulk value ++ s) (bulk_strings-joined values)

bulks-Read :
    (values : List Bytes)
    → All IsCounted values
    → All (λ reply. Reads 1 reply true) (map encode_bulk values)
bulks-Read [] h = tt
bulks-Read (value ∷ values) h = (encode_bulk-Reads value h.0, bulks-Read values h.1)

length-map : (values : List Bytes) → length (map encode_bulk values) ≡ length values
length-map [] = refl
length-map (value ∷ values) = ap suc (length-map values)

typed_array :
    (levels : ℕ) (values : List Bytes) (rest : Bytes)
    → length values < 2 ^ 63
    → All IsCounted values
    → read_typed
        (read_response (suc levels))
        (b'*' ∷ to_string (length values))
        (bulk_strings values ++ rest)
      ≡ ok (true, rest)
unfolding read_typed read_aggregate
typed_array levels values rest h counted =
    rw (stoll-to_string (length values) h, bulk_strings-joined values)
      (ap
          (λ n.
            read_elements (read_response (suc levels)) n true
              (joined (map encode_bulk values) ++ rest))
          (sym (length-map values))
        ∙ elements-read 1 (suc levels) (map encode_bulk values) rest (omega arith)
            (bulks-Read values counted))

pub array-Reads :
    (values : List Bytes) (version : RespVersion)
    → length values < 2 ^ 63
    → All IsCounted values
    → Reads 2 (array values version) true
unfolding array
array-Reads values version h counted zero rest n = absurd (omega arith)
array-Reads values version h counted (suc zero) rest n = absurd (omega arith)
array-Reads values version h counted (suc (suc levels)) rest n =
    ap (read_response (suc (suc levels)))
      (append_assoc (b'*' ∷ to_string (length values)) (cr ∷ lf ∷ bulk_strings values) rest)
    ∙ line-read_response (suc levels) (b'*' ∷ to_string (length values))
        (bulk_strings values ++ rest) ((refl, refl), to_string-IsLineByte (length values))
    ∙ typed_array levels values rest h counted

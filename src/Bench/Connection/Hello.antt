-- ===== src/Bench/Connection/Hello.antt =====
-- The reply to HELLO, as the client reads it: a map whose last value is an empty array.
use radish.Shared.{
  ℕ, zero, suc, true, some, List, [], ◌∷◌, ◌++◌, ◌≡◌, refl, ap, ◌∙◌, arith, Bytes, All, codes, map,
  joined, ok,
}
use radish.Decimal.{to_string, digits, unsigned, scan_digits}
use radish.RespCodec.{RespVersion, resp2, resp3, crlf, encode_bulk}
use radish.RespCodec.Replies.{bulk_string, bulk_strings, hello, hello_pairs}
use radish.Options.{stoll, skip_spaces, take_sign, to_long_long}
use radish.Bench.Connection.{read_elements, read_aggregate, read_typed, read_response}
use radish.Bench.Connection.Replies.{
  line-read_response, line-Reads, elements-read, Reads, encode_bulk-Reads, array-Reads, IsCounted,
}

typed_empty :
    (levels : ℕ) (rest : Bytes)
    → read_typed (read_response levels) (codes "*0") rest ≡ ok (true, rest)
unfolding read_typed read_aggregate read_elements stoll skip_spaces take_sign to_long_long unsigned
    scan_digits
typed_empty levels rest = refl

empty_array-Reads : Reads 2 (codes "*0" ++ crlf) true
empty_array-Reads levels rest h =
    line-Reads (codes "*0") true ((refl, refl), ((refl, refl), tt)) typed_empty levels rest
      (omega arith)

bulks-Read_2 :
    (values : List Bytes)
    → All IsCounted values
    → All (λ reply. Reads 2 reply true) (map encode_bulk values)
bulks-Read_2 [] h = tt
bulks-Read_2 (value ∷ values) h = (
  (λ levels rest n. encode_bulk-Reads value h.0 levels rest (omega arith)),
  bulks-Read_2 values h.1,
)

append-Read :
    (xs ys : List Bytes)
    → All (λ reply. Reads 2 reply true) xs
    → All (λ reply. Reads 2 reply true) ys
    → All (λ reply. Reads 2 reply true) (xs ++ ys)
append-Read [] ys h k = k
append-Read (x ∷ xs) ys h k = (h.0, append-Read xs ys h.1 k)

-- The reply to HELLO in the third version is a map of six pairs, the last with an empty array.
hello_replies : List Bytes
hello_replies =
    map encode_bulk (hello_pairs resp3 ++ codes "modules" ∷ []) ++ (codes "*0" ++ crlf) ∷ []

hello_joined :
    bulk_strings (hello_pairs resp3)
      ++ (bulk_string (some (codes "modules")) resp3 ++ (codes "*0" ++ crlf))
    ≡ joined hello_replies
unfolding hello_replies bulk_strings bulk_string encode_bulk to_string digits
hello_joined = refl

hello_replies-Read : All (λ reply. Reads 2 reply true) hello_replies
unfolding hello_replies
hello_replies-Read =
    append-Read (map encode_bulk (hello_pairs resp3 ++ codes "modules" ∷ []))
      ((codes "*0" ++ crlf) ∷ [])
      (bulks-Read_2 (hello_pairs resp3 ++ codes "modules" ∷ []) (omega arith))
      (empty_array-Reads, tt)

typed_map :
    (levels : ℕ) (rest : Bytes)
    → read_typed (read_response (suc (suc levels))) (codes "%6") (joined hello_replies ++ rest)
      ≡ ok (true, rest)
unfolding read_typed read_aggregate stoll skip_spaces take_sign to_long_long unsigned scan_digits
    hello_replies
typed_map levels rest =
    elements-read 2 (suc (suc levels)) hello_replies rest (omega arith) hello_replies-Read

pub hello-Reads : (version : RespVersion) → Reads 3 (hello version) true
unfolding hello
hello-Reads resp2 levels rest h =
    array-Reads (hello_pairs resp2 ++ codes "modules" ∷ [] ∷ []) resp2 (omega arith) (omega arith)
      levels rest (omega arith)
hello-Reads resp3 zero rest h = absurd (omega arith)
hello-Reads resp3 (suc zero) rest h = absurd (omega arith)
hello-Reads resp3 (suc (suc zero)) rest h = absurd (omega arith)
hello-Reads resp3 (suc (suc (suc levels))) rest h =
    line-read_response (suc (suc levels)) (codes "%6") (_ ++ rest)
      ((refl, refl), ((refl, refl), tt))
    ∙ ap (λ s. read_typed (read_response (suc (suc levels))) (codes "%6") (s ++ rest)) hello_joined
    ∙ typed_map levels rest

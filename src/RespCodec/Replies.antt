-- ===== src/RespCodec/Replies.antt =====
-- The replies of src/network/RespCodec.cpp.
use radish.Shared.{
  ◌||◌, Option, none, some, List, [], ◌∷◌, ◌++◌, Bytes, ℤ, codes, length, map, ◌==◌, if◌then◌else◌,
}
use radish.Decimal.{to_string, to_string_ℤ}
use radish.RespCodec.{RespVersion, resp2, resp3, cr, lf, crlf, encode_bulk}

unfoldable pub sanitize_simple_value : Bytes → Bytes
sanitize_simple_value [] = []
sanitize_simple_value (c ∷ s) = (if c == cr || c == lf then b' ' else c) ∷ sanitize_simple_value s

unfoldable pub simple_string : Bytes → Bytes
simple_string value = b'+' ∷ (sanitize_simple_value value ++ crlf)

unfoldable pub error_reply : Bytes → Bytes
error_reply message = codes "-ERR " ++ (sanitize_simple_value message ++ crlf)

unfoldable pub integer : ℤ → Bytes
integer value = b':' ∷ (to_string_ℤ value ++ crlf)

unfoldable pub bulk_string : Option Bytes → RespVersion → Bytes
bulk_string none resp3 = b'_' ∷ crlf
bulk_string none resp2 = codes "$-1" ++ crlf
bulk_string (some value) version = encode_bulk value

-- The loop of `Array` over the values.
unfoldable pub bulk_strings : List Bytes → Bytes
unfolding bulk_string
bulk_strings [] = []
bulk_strings (value ∷ values) = bulk_string (some value) resp2 ++ bulk_strings values

unfoldable pub array : List Bytes → RespVersion → Bytes
array values version = b'*' ∷ (to_string (length values) ++ (cr ∷ lf ∷ bulk_strings values))

abbrev pub protocol_of : RespVersion → Bytes
protocol_of resp3 = codes "3"
protocol_of resp2 = codes "2"

-- The names and values in front of `modules`.
abbrev pub hello_pairs : RespVersion → List Bytes
hello_pairs version =
    map codes ("server" ∷ "radish" ∷ "version" ∷ "0.1" ∷ "proto" ∷ [])
    ++ (protocol_of version ∷ map codes ("mode" ∷ "standalone" ∷ "role" ∷ "master" ∷ []))

unfoldable pub hello : RespVersion → Bytes
hello resp2 = array (hello_pairs resp2 ++ codes "modules" ∷ [] ∷ []) resp2
hello resp3 =
    codes "%6"
    ++ (cr
        ∷ lf
        ∷ (bulk_strings (hello_pairs resp3)
            ++ (bulk_string (some (codes "modules")) resp3 ++ (codes "*0" ++ crlf))))

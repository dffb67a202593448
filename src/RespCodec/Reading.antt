-- ===== src/RespCodec/Reading.antt =====
-- The replies with numbers, values and keys, as a client reads them.
use radish.Shared.{
  ℕ, suc, ◌<◌, ◌≤◌, some, List, [], ◌∷◌, ◌++◌, ◌≡◌, refl, sym, ap, ◌∙◌, arith, Bytes, ℤ, pos,
  negsuc, length, All, append_assoc,
}
use radish.Decimal.{to_string, to_string_ℤ, from_chars, parsed}
use radish.Decimal.RoundTrip.{IsDigit, to_string-IsDigit, from_chars-to_string_ℤ}
use radish.Binary.Numbers.{InRange}
use radish.RespCodec.{
  RespVersion, cr, lf, crlf, split_crlf, max_arguments, parse_command, complete_result, encode_bulk,
  encode_arguments, encode_command,
}
use radish.RespCodec.Lines.{IsPlainByte, split_crlf-plain}
use radish.RespCodec.Replies.{integer, array, bulk_string, bulk_strings}
use radish.RespCodec.RoundTrip.{IsBulk, parse_command-encode_command}

digits-IsPlainByte : (s : Bytes) → All IsDigit s → All IsPlainByte s
digits-IsPlainByte [] h = tt
digits-IsPlainByte (c ∷ s) h = (plain c h.0, digits-IsPlainByte s h.1)
  where
    plain : (c : ℕ) → IsDigit c → IsPlainByte c
    plain c h = ground arith

to_string_ℤ-IsPlainByte : (t : ℤ) → All IsPlainByte (to_string_ℤ t)
unfolding to_string_ℤ
to_string_ℤ-IsPlainByte (pos n) = digits-IsPlainByte (to_string n) (to_string-IsDigit n)
to_string_ℤ-IsPlainByte (negsuc n) =
    (refl, digits-IsPlainByte (to_string (suc n)) (to_string-IsDigit (suc n)))

integer-line :
    (t : ℤ) (rest : Bytes) → split_crlf (integer t ++ rest) ≡ some (b':' ∷ to_string_ℤ t, rest)
unfolding integer
integer-line t rest =
    ap (λ s. split_crlf (b':' ∷ s)) (append_assoc (to_string_ℤ t) crlf rest)
    ∙ split_crlf-plain (b':' ∷ to_string_ℤ t) rest (refl, to_string_ℤ-IsPlainByte t)

-- An integer reply of a `long long` is one line, whatever follows it: a colon and a text that
-- reads back as the number.
pub integer_reply :
    (t : ℤ) (rest : Bytes)
    → InRange t
    → (split_crlf (integer t ++ rest) ≡ some (b':' ∷ to_string_ℤ t, rest))
      × (from_chars (to_string_ℤ t) ≡ parsed t [])
integer_reply t rest h = (integer-line t rest, from_chars-to_string_ℤ t h)

bulk_strings-encode_arguments :
    (values : List Bytes) → bulk_strings values ≡ encode_arguments values
unfolding bulk_strings bulk_string encode_arguments
bulk_strings-encode_arguments [] = refl
bulk_strings-encode_arguments (value ∷ values) =
    ap (λ s. encode_bulk value ++ s) (bulk_strings-encode_arguments values)

array-encode_command :
    (values : List Bytes) (version : RespVersion) → array values version ≡ encode_command values
unfolding array encode_command
array-encode_command values version =
    ap (λ s. b'*' ∷ (to_string (length values) ++ (cr ∷ lf ∷ s)))
      (bulk_strings-encode_arguments values)

-- An array reply of one to 1024 values, none of them longer than 4 MiB, is read back by the
-- parser as these values, under either version of the protocol and whatever follows it.
pub parse_command-array :
    (values : List Bytes) (version : RespVersion) (rest : Bytes)
    → 0 < length values
    → length values ≤ max_arguments
    → All IsBulk values
    → parse_command (array values version ++ rest)
      ≡ complete_result values (length (array values version))
parse_command-array values version rest h k bulks =
    ap (λ s. parse_command (s ++ rest)) (array-encode_command values version)
    ∙ parse_command-encode_command values rest h k bulks
    ∙ ap (λ s. complete_result values (length s)) (sym (array-encode_command values version))

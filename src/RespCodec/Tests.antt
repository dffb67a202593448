-- ===== src/RespCodec/Tests.antt =====
-- Runs of the parser, and instances of its theorems.
use radish.Shared.{List, [], ◌∷◌, ◌++◌, ◌≡◌, ◌⊎◌, refl, arith, Bytes, codes, length, take, drop}
use radish.Decimal.{to_string, digits}
use radish.RespCodec.{
  cr, lf, complete_result, incomplete_result, parse_command, encode_command, encode_bulk,
  encode_arguments,
}
use radish.RespCodec.RoundTrip.{parse_command-encode_command}
use radish.RespCodec.Stable.{parse_command-append}
use radish.RespCodec.Progress.{Admitted, parse_command-Admitted}
use radish.RespCodec.Prefixes.{parse_command-prefix}

abbrev set_command : List Bytes
set_command = codes "SET" ∷ codes "key" ∷ (13 ∷ 10 ∷ []) ∷ []

abbrev lines : List Bytes → Bytes
lines [] = []
lines (text ∷ texts) = text ++ (cr ∷ lf ∷ lines texts)

abbrev set_text : Bytes
set_text = lines (
    codes "*3"
    ∷ codes "$3"
    ∷ codes "SET"
    ∷ codes "$3"
    ∷ codes "key"
    ∷ codes "$2"
    ∷ (13 ∷ 10 ∷ [])
    ∷ [])

set_encoded : set_text ≡ encode_command set_command
unfolding encode_command encode_arguments encode_bulk to_string digits
set_encoded = refl

parse_command-encode_command_example :
    parse_command (encode_command set_command ++ codes "*1")
    ≡ complete_result set_command (length (encode_command set_command))
parse_command-encode_command_example =
    parse_command-encode_command set_command (codes "*1") (omega arith) (omega arith)
      (omega arith, (omega arith, (omega arith, tt)))

parse_command-append_example :
    (parse_command (codes "*1") ≡ incomplete_result)
    ⊎ (parse_command (codes "*1" ++ codes "x") ≡ parse_command (codes "*1"))
parse_command-append_example = parse_command-append (codes "*1") (codes "x")

parse_command-prefix_example : parse_command (take 20 set_text) ≡ incomplete_result
parse_command-prefix_example =
    parse_command-prefix set_command (take 20 set_text) 13 (drop 21 set_text) (omega arith)
      (omega arith) (omega arith, (omega arith, (omega arith, tt))) set_encoded

parse_command-Admitted_example : Admitted (length set_text) (parse_command set_text)
parse_command-Admitted_example = parse_command-Admitted set_text

-- ===== src/RespCodec/Prefixes.antt =====
-- `ParseCommand` on a command that has not arrived whole.
use radish.Shared.{
  ℕ, zero, suc, ◌<◌, ◌≤◌, ◌||◌, List, [], ◌∷◌, ◌++◌, ◌≡◌, inl, inr, sym, ap, ◌∙◌, arith, Bytes, pos,
  negsuc, ltb, ◌==◌, Bool-cases, All, append-nil, length, length-append,
}
use radish.RespCodec.{
  RespParseResult, complete_result, incomplete_result, max_arguments, ParsedNumber, no_terminator,
  malformed, number, parse_number, Bulk, need_more, reject, argument, after_bulk, parse_arguments,
  after_count, parse_command, encode_command,
}
use radish.RespCodec.RoundTrip.{IsBulk, parse_command-encode_command}
use radish.RespCodec.Stable.{parse_command-append}

after_bulk-consumed :
    (size : ℕ) (o : Bulk) (loop : Bytes → Bytes → RespParseResult)
    → ((value rest : Bytes) → (loop value rest).consumed ≤ size)
    → (after_bulk o loop).consumed ≤ size
unfolding after_bulk
after_bulk-consumed size need_more loop h = omega arith
after_bulk-consumed size (reject message) loop h = omega arith
after_bulk-consumed size (argument value rest) loop h = h value rest

parse_arguments-consumed :
    (count : ℕ) (values : List Bytes) (size : ℕ) (s : Bytes)
    → (parse_arguments count values size s).consumed ≤ size
unfolding parse_arguments
parse_arguments-consumed zero values size s = omega arith
parse_arguments-consumed (suc count) values size s =
    after_bulk-consumed size _ _
      (λ value rest. parse_arguments-consumed count (values ++ value ∷ []) size rest)

after_count-consumed : (size : ℕ) (o : ParsedNumber) → (after_count size o).consumed ≤ size
unfolding after_count
after_count-consumed size no_terminator = omega arith
after_count-consumed size malformed = omega arith
after_count-consumed size (number (negsuc n) rest) = omega arith
after_count-consumed size (number (pos n) rest) =
    elim (Bool-cases (n == 0 || ltb max_arguments n)) [
      | inl invalid ↦ rw invalid (omega arith)
      | inr valid ↦ rw valid (parse_arguments-consumed n [] size rest)
    ]

-- The parser never consumes more bytes than there are.
pub parse_command-consumed : (s : Bytes) → (parse_command s).consumed ≤ length s
unfolding parse_command
parse_command-consumed [] = omega arith
parse_command-consumed (c ∷ s) = elim (Bool-cases (c == b'*')) [
  | inl star ↦ rw star (after_count-consumed (length (c ∷ s)) (parse_number s))
  | inr other ↦ rw other (omega arith)
]

too_early :
    (values : List Bytes) (s : Bytes) (c : ℕ) (t : Bytes)
    → s ++ (c ∷ t) ≡ encode_command values
    → parse_command s ≡ complete_result values (length (encode_command values))
    → ⊥
too_early values s c t e h =
    omega (
      arith,
      parse_command-consumed s,
      ap length e,
      length-append s (c ∷ t),
      ap (λ r. r.consumed) h,
    )

-- While at least one byte of an encoded command of one to 1024 arguments, none longer than 4
-- MiB, is missing at its end, the parser asks for more: it neither rejects the part that has
-- arrived nor takes it for a shorter command.
pub parse_command-prefix :
    (values : List Bytes) (s : Bytes) (c : ℕ) (t : Bytes)
    → 0 < length values
    → length values ≤ max_arguments
    → All IsBulk values
    → s ++ (c ∷ t) ≡ encode_command values
    → parse_command s ≡ incomplete_result
parse_command-prefix values s c t h k bulks e = elim (parse_command-append s (c ∷ t)) [
  | inl more ↦ more
  | inr same ↦
      absurd (too_early values s c t e (sym same ∙ ap parse_command e ∙ parsed values h k bulks))
]
  where
    parsed :
        (values : List Bytes)
        → 0 < length values
        → length values ≤ max_arguments
        → All IsBulk values
        → parse_command (encode_command values)
          ≡ complete_result values (length (encode_command values))
    parsed values h k bulks =
        ap parse_command (sym (append-nil (encode_command values)))
        ∙ parse_command-encode_command values [] h k bulks

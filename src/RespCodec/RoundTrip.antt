-- ===== src/RespCodec/RoundTrip.antt =====
-- `ParseCommand` on what `EncodeCommand` wrote, whatever follows it in the buffer.
use radish.Shared.{
  ℕ, ◌-◌, ◌<◌, ◌≤◌, false, List, [], ◌∷◌, ◌++◌, ◌≡◌, refl, sym, ap, ◌∙◌, arith, Bytes, pos, ltb,
  All, append_assoc, append-nil, length, length-append, take-append, drop-append,
}
use radish.Decimal.{to_string}
use radish.RespCodec.{
  number, cr, lf, crlf, max_arguments, max_bulk_length, argument, check_terminator, read_bulk,
  after_length, parse_bulk, after_bulk, complete_result, parse_arguments, parse_number, after_count,
  parse_command, encode_bulk, encode_arguments, encode_command,
}
use radish.RespCodec.Numbers.{parse_number-to_string}

abbrev pub IsBulk : Bytes → Type 0
IsBulk value = length value ≤ max_bulk_length

read_bulk-value :
    (value rest : Bytes)
    → read_bulk (length value) (value ++ (cr ∷ lf ∷ rest)) ≡ argument value rest
unfolding read_bulk
read_bulk-value value rest =
    rw
      (
        long value rest,
        longer value rest,
        take-append value (cr ∷ lf ∷ rest),
        drop-append value (cr ∷ lf ∷ rest),
      )
      (unfold check_terminator in refl)
  where
    long : (value rest : Bytes) → ltb (length (value ++ (cr ∷ lf ∷ rest))) (length value) ≡ false
    long value rest = ground (arith, length-append value (cr ∷ lf ∷ rest))

    longer :
        (value rest : Bytes) → ltb (length (value ++ (cr ∷ lf ∷ rest)) - length value) 2 ≡ false
    longer value rest = ground (arith, length-append value (cr ∷ lf ∷ rest))

after_length-number :
    (n : ℕ) (rest : Bytes)
    → n ≤ max_bulk_length
    → after_length (number (pos n) rest) ≡ read_bulk n rest
unfolding after_length
after_length-number n rest h = ground arith

encode_bulk-append :
    (value rest : Bytes)
    → encode_bulk value ++ rest
      ≡ b'$' ∷ (to_string (length value) ++ (cr ∷ lf ∷ (value ++ (cr ∷ lf ∷ rest))))
unfolding encode_bulk
encode_bulk-append value rest =
    ap (λ t. b'$' ∷ t)
      (append_assoc (to_string (length value)) (cr ∷ lf ∷ (value ++ crlf)) rest
        ∙ ap (λ t. to_string (length value) ++ (cr ∷ lf ∷ t)) (append_assoc value crlf rest))

pub parse_bulk-encode_bulk :
    (value rest : Bytes)
    → IsBulk value
    → parse_bulk (encode_bulk value ++ rest) ≡ argument value rest
parse_bulk-encode_bulk value rest h =
    ap parse_bulk (encode_bulk-append value rest)
    ∙ unfold parse_bulk in
      (ap after_length
          (parse_number-to_string (length value) (value ++ (cr ∷ lf ∷ rest)) (omega arith))
        ∙ after_length-number (length value) (value ++ (cr ∷ lf ∷ rest)) h
        ∙ read_bulk-value value rest)

parse_arguments-encode_arguments :
    (done values : List Bytes) (size : ℕ) (rest : Bytes)
    → All IsBulk values
    → parse_arguments (length values) done size (encode_arguments values ++ rest)
      ≡ complete_result (done ++ values) (size - length rest)
unfolding parse_arguments encode_arguments after_bulk
parse_arguments-encode_arguments done [] size rest h =
    ap (λ l. complete_result l (size - length rest)) (sym (append-nil done))
parse_arguments-encode_arguments done (value ∷ values) size rest h =
    rw
      (
        append_assoc (encode_bulk value) (encode_arguments values) rest,
        parse_bulk-encode_bulk value (encode_arguments values ++ rest) h.0,
      )
      (parse_arguments-encode_arguments (done ++ value ∷ []) values size rest h.1
        ∙ ap (λ l. complete_result l (size - length rest)) (append_assoc done (value ∷ []) values))

after_count-number :
    (n size : ℕ) (rest : Bytes)
    → 0 < n
    → n ≤ max_arguments
    → after_count size (number (pos n) rest) ≡ parse_arguments n [] size rest
unfolding after_count
after_count-number n size rest h k = ground arith

encode_command-append :
    (values : List Bytes) (rest : Bytes)
    → encode_command values ++ rest
      ≡ b'*' ∷ (to_string (length values) ++ (cr ∷ lf ∷ (encode_arguments values ++ rest)))
unfolding encode_command
encode_command-append values rest =
    ap (λ t. b'*' ∷ t)
      (append_assoc (to_string (length values)) (cr ∷ lf ∷ encode_arguments values) rest)

after_star :
    (values : List Bytes) (size : ℕ) (rest : Bytes)
    → 0 < length values
    → length values ≤ max_arguments
    → All IsBulk values
    → after_count size
        (parse_number (to_string (length values) ++ (cr ∷ lf ∷ (encode_arguments values ++ rest))))
      ≡ complete_result values (size - length rest)
after_star values size rest h k bulks =
    ap (after_count size)
      (parse_number-to_string (length values) (encode_arguments values ++ rest) (omega arith))
    ∙ after_count-number (length values) size (encode_arguments values ++ rest) h k
    ∙ parse_arguments-encode_arguments [] values size rest bulks

parse_command-star :
    (input : Bytes)
    → parse_command (b'*' ∷ input) ≡ after_count (length (b'*' ∷ input)) (parse_number input)
unfolding parse_command
parse_command-star input = refl

-- A command of one to 1024 arguments, none of them longer than 4 MiB, is parsed back from what
-- `EncodeCommand` made of it, whatever follows it, and exactly its bytes are consumed.
pub parse_command-encode_command :
    (values : List Bytes) (rest : Bytes)
    → 0 < length values
    → length values ≤ max_arguments
    → All IsBulk values
    → parse_command (encode_command values ++ rest)
      ≡ complete_result values (length (encode_command values))
parse_command-encode_command values rest h k bulks =
    ap parse_command (encode_command-append values rest)
    ∙ parse_command-star _
    ∙ after_star values _ rest h k bulks
    ∙ ap (complete_result values) (consumed values rest)
  where
    consumed :
        (values : List Bytes) (rest : Bytes)
        → length
              (b'*' ∷ (to_string (length values) ++ (cr ∷ lf ∷ (encode_arguments values ++ rest))))
            - length rest
          ≡ length (encode_command values)
    consumed values rest =
        ap (λ t. length t - length rest) (sym (encode_command-append values rest))
        ∙ omega (arith, length-append (encode_command values) rest)

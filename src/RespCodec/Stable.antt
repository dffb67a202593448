-- ===== src/RespCodec/Stable.antt =====
-- `ParseCommand` on an input that grows.
use radish.Shared.{
  ℕ, zero, suc, ◌+◌, ◌-◌, ◌≤◌, false, ◌&&◌, ◌||◌, Option, none, some, List, [], ◌∷◌, ◌++◌, ◌≡◌, ◌⊎◌,
  inl, inr, refl, ap, arith, Bytes, pos, negsuc, ltb, ◌==◌, Bool-cases, length, take, drop,
  length-append, take-append_le, drop-append_le,
}
use radish.Decimal.{FromChars, invalid_argument, result_out_of_range, parsed, from_chars}
use radish.RespCodec.{
  cr, lf, RespParseResult, max_arguments, max_bulk_length, ParsedNumber, no_terminator, malformed,
  number, whole_number, number_before, parse_number, split_crlf, Bulk, need_more, reject, argument,
  check_terminator, read_bulk, after_length, parse_bulk, after_bulk, incomplete_result,
  complete_result, parse_arguments, after_count, parse_command,
}

-- What more input `t` does to the answers of the parts: an answer stays, and its rest grows.
abbrev GrowsText : Bytes → Option (Bytes × Bytes) → Option (Bytes × Bytes) → Type 0
GrowsText t none o = Unit
GrowsText t (some (text, rest)) o = o ≡ some (text, rest ++ t)

abbrev GrowsNumber : Bytes → ParsedNumber → ParsedNumber → Type 0
GrowsNumber t no_terminator o = Unit
GrowsNumber t malformed o = o ≡ malformed
GrowsNumber t (number value rest) o = o ≡ number value (rest ++ t)

abbrev GrowsBulk : Bytes → Bulk → Bulk → Type 0
GrowsBulk t need_more o = Unit
GrowsBulk t (reject message) o = o ≡ reject message
GrowsBulk t (argument value rest) o = o ≡ argument value (rest ++ t)

longer_text :
    (t : Bytes) (c : ℕ) (o o' : Option (Bytes × Bytes))
    → GrowsText t o o'
    → GrowsText t
        (elim o [ none ↦ none | some (text, rest) ↦ some (c ∷ text, rest) ])
        (elim o' [ none ↦ none | some (text, rest) ↦ some (c ∷ text, rest) ])
longer_text t c none o' h = tt
longer_text t c (some (text, rest)) o' h = rw h refl

split_crlf-append : (s t : Bytes) → GrowsText t (split_crlf s) (split_crlf (s ++ t))
unfolding split_crlf
split_crlf-append [] t = tt
split_crlf-append (c ∷ []) t = tt
split_crlf-append (c ∷ d ∷ s) t = elim (Bool-cases (c == cr && d == lf)) [
  | inl here ↦ rw here refl
  | inr there ↦ rw there (longer_text t c _ _ (split_crlf-append (d ∷ s) t))
]

whole_number-append :
    (t rest : Bytes) (r : FromChars)
    → GrowsNumber t (whole_number rest r) (whole_number (rest ++ t) r)
unfolding whole_number
whole_number-append t rest invalid_argument = refl
whole_number-append t rest result_out_of_range = refl
whole_number-append t rest (parsed value []) = refl
whole_number-append t rest (parsed value (c ∷ s)) = refl

number_before-append :
    (t : Bytes) (o o' : Option (Bytes × Bytes))
    → GrowsText t o o'
    → GrowsNumber t (number_before o) (number_before o')
unfolding number_before
number_before-append t none o' h = tt
number_before-append t (some ([], rest)) o' h = rw h refl
number_before-append t (some (c ∷ text, rest)) o' h =
    rw h (whole_number-append t rest (from_chars (c ∷ text)))

parse_number-append : (s t : Bytes) → GrowsNumber t (parse_number s) (parse_number (s ++ t))
unfolding parse_number
parse_number-append s t = number_before-append t _ _ (split_crlf-append s t)

check_terminator-append :
    (value s t : Bytes) → GrowsBulk t (check_terminator value s) (check_terminator value (s ++ t))
unfolding check_terminator
check_terminator-append value [] t = tt
check_terminator-append value (c ∷ []) t = tt
check_terminator-append value (c ∷ d ∷ s) t = elim (Bool-cases (c == cr && d == lf)) [
  | inl here ↦ rw here refl
  | inr there ↦ rw there refl
]

read_bulk-append : (n : ℕ) (s t : Bytes) → GrowsBulk t (read_bulk n s) (read_bulk n (s ++ t))
unfolding read_bulk
read_bulk-append n s t = elim (Bool-cases (ltb (length s) n)) [
  | inl short ↦ rw short tt
  | inr enough ↦ elim (Bool-cases (ltb (length s - n) 2)) [
    | inl cut ↦ rw (enough, cut) tt
    | inr more ↦
        rw
          (
            enough,
            more,
            still n s t enough,
            still_more n s t enough more,
            take-append_le n s t (bound n s enough),
            drop-append_le n s t (bound n s enough),
          )
          (check_terminator-append (take n s) (drop n s) t)
  ]
]
  where
    bound : (n : ℕ) (s : Bytes) → ltb (length s) n ≡ false → n ≤ length s
    bound n s h = ground arith

    still : (n : ℕ) (s t : Bytes) → ltb (length s) n ≡ false → ltb (length (s ++ t)) n ≡ false
    still n s t h = ground (arith, length-append s t)

    still_more :
        (n : ℕ) (s t : Bytes)
        → ltb (length s) n ≡ false
        → ltb (length s - n) 2 ≡ false
        → ltb (length (s ++ t) - n) 2 ≡ false
    still_more n s t h k = ground (arith, length-append s t)

after_length-append :
    (t : Bytes) (o o' : ParsedNumber)
    → GrowsNumber t o o'
    → GrowsBulk t (after_length o) (after_length o')
unfolding after_length
after_length-append t no_terminator o' h = tt
after_length-append t malformed o' h = rw h refl
after_length-append t (number (negsuc n) rest) o' h = rw h refl
after_length-append t (number (pos n) rest) o' h = elim (Bool-cases (ltb max_bulk_length n)) [
  | inl long ↦ rw (h, long) refl
  | inr fits ↦ rw (h, fits) (read_bulk-append n rest t)
]

parse_bulk-append : (s t : Bytes) → GrowsBulk t (parse_bulk s) (parse_bulk (s ++ t))
unfolding parse_bulk
parse_bulk-append [] t = tt
parse_bulk-append (c ∷ s) t = elim (Bool-cases (c == b'$')) [
  | inl dollar ↦ rw dollar (after_length-append t _ _ (parse_number-append s t))
  | inr not_dollar ↦ rw not_dollar refl
]

-- A result that is not the request for more input.
abbrev Keeps : RespParseResult → RespParseResult → Type 0
Keeps r r' = (r ≡ incomplete_result) ⊎ (r' ≡ r)

after_bulk-append :
    (t : Bytes) (o o' : Bulk) (loop loop' : Bytes → Bytes → RespParseResult)
    → GrowsBulk t o o'
    → ((value rest : Bytes) → Keeps (loop value rest) (loop' value (rest ++ t)))
    → Keeps (after_bulk o loop) (after_bulk o' loop')
unfolding after_bulk
after_bulk-append t need_more o' loop loop' h k = inl refl
after_bulk-append t (reject message) o' loop loop' h k = inr (rw h refl)
after_bulk-append t (argument value rest) o' loop loop' h k = rw h (k value rest)

parse_arguments-append :
    (count : ℕ) (values : List Bytes) (size : ℕ) (s t : Bytes)
    → Keeps
        (parse_arguments count values size s)
        (parse_arguments count values (size + length t) (s ++ t))
unfolding parse_arguments
parse_arguments-append zero values size s t =
    inr (ap (complete_result values) (omega (arith, length-append s t)))
parse_arguments-append (suc count) values size s t =
    after_bulk-append t _ _ _ _ (parse_bulk-append s t)
      (λ value rest. parse_arguments-append count (values ++ value ∷ []) size rest t)

after_count-append :
    (size : ℕ) (t : Bytes) (o o' : ParsedNumber)
    → GrowsNumber t o o'
    → Keeps (after_count size o) (after_count (size + length t) o')
unfolding after_count
after_count-append size t no_terminator o' h = inl refl
after_count-append size t malformed o' h = inr (rw h refl)
after_count-append size t (number (negsuc n) rest) o' h = inr (rw h refl)
after_count-append size t (number (pos n) rest) o' h =
    elim (Bool-cases (n == 0 || ltb max_arguments n)) [
      | inl invalid ↦ inr (rw (h, invalid) refl)
      | inr valid ↦ rw (h, valid) (parse_arguments-append n [] size rest t)
    ]

after_count-grown :
    (size size' : ℕ) (s t : Bytes)
    → size' ≡ size + length t
    → Keeps (after_count size (parse_number s)) (after_count size' (parse_number (s ++ t)))
after_count-grown size size' s t e = rw e (after_count-append size t _ _ (parse_number-append s t))

-- A command that is complete or malformed stays so, with the same arguments, bytes consumed and
-- message, whatever arrives behind the input; otherwise the parser asks for more.
pub parse_command-append :
    (s t : Bytes)
    → (parse_command s ≡ incomplete_result) ⊎ (parse_command (s ++ t) ≡ parse_command s)
unfolding parse_command
parse_command-append [] t = inl refl
parse_command-append (c ∷ s) t = elim (Bool-cases (c == b'*')) [
  | inl star ↦ rw star (
      after_count-grown (length (c ∷ s)) (length (c ∷ (s ++ t))) s t
        (omega (arith, length-append s t)))
  | inr other ↦ inr (rw other refl)
]

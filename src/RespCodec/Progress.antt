-- ===== src/RespCodec/Progress.antt =====
-- What a result of `ParseCommand` says to the loop of the session that asked for it.
use radish.Shared.{
  ℕ, zero, suc, ◌+◌, ◌-◌, ◌<◌, ◌≤◌, false, ◌&&◌, ◌||◌, Option, none, some, List, [], ◌∷◌, ◌++◌, ◌≡◌,
  refl, arith, Bytes, pos, negsuc, ltb, ◌==◌, Bool-cases, inl, inr, subst, length, take, drop,
  length-append, length-drop,
}
use radish.Decimal.{FromChars, invalid_argument, result_out_of_range, parsed, from_chars}
use radish.RespCodec.{
  cr, lf, Status, complete, incomplete, error, RespParseResult, max_arguments, max_bulk_length,
  ParsedNumber, no_terminator, malformed, number, whole_number, number_before, parse_number,
  split_crlf, Bulk, need_more, reject, argument, check_terminator, read_bulk, after_length,
  parse_bulk, after_bulk, parse_arguments, after_count, parse_command,
}

-- The rest of an input is no longer than the given length.
abbrev FitsText : ℕ → Option (Bytes × Bytes) → Type 0
FitsText n none = Unit
FitsText n (some (text, rest)) = length rest ≤ n

abbrev FitsNumber : ℕ → ParsedNumber → Type 0
FitsNumber n (number value rest) = length rest ≤ n
FitsNumber n _ = Unit

abbrev FitsBulk : ℕ → Bulk → Type 0
FitsBulk n (argument value rest) = length rest ≤ n
FitsBulk n _ = Unit

fits_more :
    (c n : ℕ) (o : Option (Bytes × Bytes))
    → FitsText n o
    → FitsText (suc n) (elim o [ none ↦ none | some (text, rest) ↦ some (c ∷ text, rest) ])
fits_more c n none h = tt
fits_more c n (some (text, rest)) h = omega arith

split_crlf-FitsText : (s : Bytes) → FitsText (length s) (split_crlf s)
unfolding split_crlf
split_crlf-FitsText [] = tt
split_crlf-FitsText (c ∷ []) = tt
split_crlf-FitsText (c ∷ d ∷ s) = elim (Bool-cases (c == cr && d == lf)) [
  | inl here ↦ rw here (omega arith)
  | inr there ↦ rw there (fits_more c _ (split_crlf (d ∷ s)) (split_crlf-FitsText (d ∷ s)))
]

whole_number-FitsNumber :
    (n : ℕ) (rest : Bytes) (r : FromChars) → length rest ≤ n → FitsNumber n (whole_number rest r)
unfolding whole_number
whole_number-FitsNumber n rest invalid_argument h = tt
whole_number-FitsNumber n rest result_out_of_range h = tt
whole_number-FitsNumber n rest (parsed value []) h = h
whole_number-FitsNumber n rest (parsed value (c ∷ s)) h = tt

number_before-FitsNumber :
    (n : ℕ) (o : Option (Bytes × Bytes)) → FitsText n o → FitsNumber n (number_before o)
unfolding number_before
number_before-FitsNumber n none h = tt
number_before-FitsNumber n (some ([], rest)) h = tt
number_before-FitsNumber n (some (c ∷ text, rest)) h =
    whole_number-FitsNumber n rest (from_chars (c ∷ text)) h

parse_number-FitsNumber : (s : Bytes) → FitsNumber (length s) (parse_number s)
unfolding parse_number
parse_number-FitsNumber s =
    number_before-FitsNumber (length s) (split_crlf s) (split_crlf-FitsText s)

check_terminator-FitsBulk :
    (n : ℕ) (value s : Bytes) → length s ≤ n → FitsBulk n (check_terminator value s)
unfolding check_terminator
check_terminator-FitsBulk n value [] h = tt
check_terminator-FitsBulk n value (c ∷ []) h = tt
check_terminator-FitsBulk n value (c ∷ d ∷ s) h = elim (Bool-cases (c == cr && d == lf)) [
  | inl here ↦ rw here (omega arith)
  | inr there ↦ rw there tt
]

read_bulk-FitsBulk : (n k : ℕ) (s : Bytes) → length s ≤ n → FitsBulk n (read_bulk k s)
unfolding read_bulk
read_bulk-FitsBulk n k s h = elim (Bool-cases (ltb (length s) k)) [
  | inl short ↦ rw short tt
  | inr enough ↦ elim (Bool-cases (ltb (length s - k) 2)) [
    | inl cut ↦ rw (enough, cut) tt
    | inr more ↦
        rw (enough, more)
          (check_terminator-FitsBulk n (take k s) (drop k s) (omega (arith, length-drop k s)))
  ]
]

after_length-FitsBulk : (n : ℕ) (o : ParsedNumber) → FitsNumber n o → FitsBulk n (after_length o)
unfolding after_length
after_length-FitsBulk n no_terminator h = tt
after_length-FitsBulk n malformed h = tt
after_length-FitsBulk n (number (negsuc k) rest) h = tt
after_length-FitsBulk n (number (pos k) rest) h = elim (Bool-cases (ltb max_bulk_length k)) [
  | inl long ↦ rw long tt
  | inr fits ↦ rw fits (read_bulk-FitsBulk n k rest h)
]

parse_bulk-FitsBulk : (n : ℕ) (s : Bytes) → length s ≤ n → FitsBulk n (parse_bulk s)
unfolding parse_bulk
parse_bulk-FitsBulk n [] h = tt
parse_bulk-FitsBulk n (c ∷ s) h = elim (Bool-cases (c == b'$')) [
  | inl dollar ↦ rw dollar (after_length-FitsBulk n (parse_number s) (fewer n c s h))
  | inr other ↦ rw other tt
]
  where
    larger : (n m : ℕ) (o : ParsedNumber) → m ≤ n → FitsNumber m o → FitsNumber n o
    larger n m no_terminator h k = tt
    larger n m malformed h k = tt
    larger n m (number value rest) h k = omega arith

    fewer : (n c : ℕ) (s : Bytes) → length (c ∷ s) ≤ n → FitsNumber n (parse_number s)
    fewer n c s h = larger n (length s) (parse_number s) (omega arith) (parse_number-FitsNumber s)

-- A result that consumes part of an input of the given size, and has so many arguments, if it is
-- complete; any other consumes nothing.
abbrev SoundAt : Status → ℕ → ℕ → ℕ → ℕ → Type 0
SoundAt complete size count arguments consumed =
    (arguments ≡ count) × (0 < consumed) × (consumed ≤ size)
SoundAt _ size count arguments consumed = consumed ≡ 0

abbrev Sound : ℕ → ℕ → RespParseResult → Type 0
Sound size count r = SoundAt r.status size count (length r.arguments) r.consumed

-- The same with the bounds on the number of arguments.
abbrev pub AdmittedAt : Status → ℕ → ℕ → ℕ → Type 0
AdmittedAt complete size arguments consumed =
    (0 < arguments) × (arguments ≤ max_arguments) × (0 < consumed) × (consumed ≤ size)
AdmittedAt _ size arguments consumed = consumed ≡ 0

abbrev pub Admitted : ℕ → RespParseResult → Type 0
Admitted size r = AdmittedAt r.status size (length r.arguments) r.consumed

admit :
    (status : Status) (size count arguments consumed : ℕ)
    → 0 < count
    → count ≤ max_arguments
    → SoundAt status size count arguments consumed
    → AdmittedAt status size arguments consumed
admit complete size count arguments consumed h k (e, p, q) = (omega arith, omega arith, p, q)
admit incomplete size count arguments consumed h k e = e
admit error size count arguments consumed h k e = e

after_bulk-Sound :
    (size count n : ℕ) (o : Bulk) (loop : Bytes → Bytes → RespParseResult)
    → FitsBulk n o
    → ((value rest : Bytes) → length rest ≤ n → Sound size count (loop value rest))
    → Sound size count (after_bulk o loop)
unfolding after_bulk
after_bulk-Sound size count n need_more loop h k = refl
after_bulk-Sound size count n (reject message) loop h k = refl
after_bulk-Sound size count n (argument value rest) loop h k = k value rest h

parse_arguments-Sound :
    (count : ℕ) (values : List Bytes) (size n : ℕ) (s : Bytes)
    → length s ≤ n
    → n < size
    → Sound size (length values + count) (parse_arguments count values size s)
unfolding parse_arguments
parse_arguments-Sound zero values size n s h k = (omega arith, omega arith, omega arith)
parse_arguments-Sound (suc count) values size n s h k =
    after_bulk-Sound size (length values + suc count) n (parse_bulk s) _ (parse_bulk-FitsBulk n s h)
      (λ value rest fits.
        subst (λ m. Sound size m (parse_arguments count (values ++ value ∷ []) size rest))
          (omega (arith, length-append values (value ∷ [])))
          (parse_arguments-Sound count (values ++ value ∷ []) size n rest fits k))

after_count-Admitted :
    (size : ℕ) (o : ParsedNumber) (n : ℕ)
    → FitsNumber n o
    → n < size
    → Admitted size (after_count size o)
unfolding after_count
after_count-Admitted size no_terminator n h k = refl
after_count-Admitted size malformed n h k = refl
after_count-Admitted size (number (negsuc count) rest) n h k = refl
after_count-Admitted size (number (pos count) rest) n h k =
    elim (Bool-cases (count == 0 || ltb max_arguments count)) [
      | inl invalid ↦ rw invalid refl
      | inr valid ↦ rw valid (
          admit _ size (0 + count) _ _ (omega (arith, positive count valid))
            (omega (arith, bounded count valid)) (parse_arguments-Sound count [] size n rest h k))
    ]
  where
    positive : (count : ℕ) → (count == 0 || ltb max_arguments count) ≡ false → 0 < count
    positive count h = ground arith

    bounded : (count : ℕ) → (count == 0 || ltb max_arguments count) ≡ false → count ≤ max_arguments
    bounded count h = ground arith

-- A complete result has one to 1024 arguments and consumes at least one byte and no more than
-- there are, so that the loop of a session advances within its buffer; any other result
-- consumes nothing.
pub parse_command-Admitted : (s : Bytes) → Admitted (length s) (parse_command s)
unfolding parse_command
parse_command-Admitted [] = refl
parse_command-Admitted (c ∷ s) = elim (Bool-cases (c == b'*')) [
  | inl star ↦ rw star (
      after_count-Admitted (length (c ∷ s)) (parse_number s) (length s) (parse_number-FitsNumber s)
        (omega arith))
  | inr other ↦ rw other refl
]

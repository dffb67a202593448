-- ===== src/RespCodec/Numbers.antt =====
-- `ParseNumber` of src/network/RespCodec.cpp on a number that `std::to_string` wrote.
use radish.Shared.{
  ℕ, ◌^◌, ◌<◌, false, ◌&&◌, some, [], ◌∷◌, ◌++◌, ◌≡◌, ◌≢◌, refl, ap, ◌∙◌, arith, Bytes, pos, ◌==◌,
  All,
}
use radish.Decimal.{from_chars, to_string}
use radish.Decimal.RoundTrip.{IsDigit, to_string-IsDigit, to_string-ne-nil, from_chars-to_string}
use radish.RespCodec.{cr, lf, split_crlf, number, whole_number, number_before, parse_number}

split_crlf-skip :
    (c d : ℕ) (s text rest : Bytes)
    → IsDigit c
    → split_crlf (d ∷ s) ≡ some (text, rest)
    → split_crlf (c ∷ d ∷ s) ≡ some (c ∷ text, rest)
unfolding split_crlf
split_crlf-skip c d s text rest h e = rw (not_cr c d h) (rw e refl)
  where
    not_cr : (c d : ℕ) → IsDigit c → (c == cr && d == lf) ≡ false
    not_cr c d h = ground arith

split_crlf-digits :
    (text rest : Bytes)
    → All IsDigit text
    → split_crlf (text ++ (cr ∷ lf ∷ rest)) ≡ some (text, rest)
split_crlf-digits [] rest h = unfold split_crlf in refl
split_crlf-digits (c ∷ []) rest h =
    split_crlf-skip c cr (lf ∷ rest) [] rest h.0 (unfold split_crlf in refl)
split_crlf-digits (c ∷ d ∷ text) rest h =
    split_crlf-skip c d (text ++ (cr ∷ lf ∷ rest)) (d ∷ text) rest h.0
      (split_crlf-digits (d ∷ text) rest h.1)

number_before-text :
    (text rest : Bytes)
    → text ≢ []
    → number_before (some (text, rest)) ≡ whole_number rest (from_chars text)
unfolding number_before
number_before-text [] rest ne = absurd (ne refl)
number_before-text (c ∷ text) rest ne = refl

pub parse_number-to_string :
    (n : ℕ) (rest : Bytes)
    → n < 2 ^ 63
    → parse_number (to_string n ++ (cr ∷ lf ∷ rest)) ≡ number (pos n) rest
unfolding parse_number
parse_number-to_string n rest h =
    ap number_before (split_crlf-digits (to_string n) rest (to_string-IsDigit n))
    ∙ number_before-text (to_string n) rest (to_string-ne-nil n)
    ∙ ap (whole_number rest) (from_chars-to_string n h)
    ∙ (unfold whole_number in refl)

-- ===== src/Decimal/RoundTrip.antt =====
-- `std::from_chars` on a number that `std::to_string` printed.
use native.Mathlib.Nat.{pow-suc}
use radish.Shared.{
  ◌≢◌, negsuc, ap, Bool-cases, inl, inr, ℕ, zero, suc, ◌+◌, ◌*◌, ◌/◌, ◌%◌, ◌^◌, ◌<◌, true, false,
  some, [], ◌∷◌, ◌≡◌, refl, ◌∙◌, arith, Bytes, ℤ, pos, negsuc, ltb, All, ◌++◌, ◌≤◌, length, Bytes,
}
use radish.Binary.Numbers.{InRange}
use radish.Decimal.{
  digits, max_digits, to_string, to_string_ℤ, is_digit, scan_digits, unsigned, parsed, in_long_long,
  from_chars,
}

abbrev pub IsDigit : ℕ → Type 0
IsDigit c = is_digit c ≡ true

last-IsDigit : (n : ℕ) → IsDigit (b'0' + n % 10)
last-IsDigit n = ground arith

digits-IsDigit : (f n : ℕ) (out : Bytes) → All IsDigit out → All IsDigit (digits f n out)
unfolding digits
digits-IsDigit zero n out h = h
digits-IsDigit (suc f) n out h =
    ground
      (arith, digits-IsDigit f (n / 10) ((b'0' + n % 10) ∷ out) (last-IsDigit n, h), last-IsDigit n)

pub to_string-IsDigit : (n : ℕ) → All IsDigit (to_string n)
unfolding to_string
to_string-IsDigit n = digits-IsDigit max_digits n [] tt

scan_digit :
    (m d : ℕ) (out : Bytes)
    → d < 10
    → scan_digits m ((b'0' + d) ∷ out) ≡ scan_digits (m * 10 + d) out
unfolding scan_digits
scan_digit m d out h = ground arith

tenth : (f n : ℕ) → n < 10 ^ suc f → n / 10 < 10 ^ f
tenth f n h = omega (arith, pow-suc 10 f)

scan-digits :
    (f n : ℕ) (out : Bytes) → n < 10 ^ f → scan_digits 0 (digits f n out) ≡ scan_digits n out
unfolding digits
scan-digits zero n out h = ap (λ k. scan_digits k out) (omega arith)
scan-digits (suc f) n out h = elim (Bool-cases (ltb n 10)) [
  | inl last ↦
      rw last (scan_digit 0 (n % 10) out (omega arith) ∙ ap (λ k. scan_digits k out) (ground arith))
  | inr more ↦ rw more (
      scan-digits f (n / 10) ((b'0' + n % 10) ∷ out) (tenth f n h)
      ∙ scan_digit (n / 10) (n % 10) out (omega arith)
      ∙ ap (λ k. scan_digits k out) (omega arith))
]

append-digits : (f n : ℕ) (out rest : Bytes) → digits f n out ++ rest ≡ digits f n (out ++ rest)
unfolding digits
append-digits zero n out rest = refl
append-digits (suc f) n out rest = elim (Bool-cases (ltb n 10)) [
  | inl last ↦ rw last refl
  | inr more ↦ rw more (append-digits f (n / 10) ((b'0' + n % 10) ∷ out) rest)
]

-- The digits of a number, in front of a text that goes on.
pub scan_digits-to_string :
    (n : ℕ) (rest : Bytes)
    → n < 10 ^ max_digits
    → scan_digits 0 (to_string n ++ rest) ≡ scan_digits n rest
unfolding to_string
scan_digits-to_string n rest h =
    ap (scan_digits 0) (append-digits max_digits n [] rest) ∙ scan-digits max_digits n rest h

length-digits : (f n : ℕ) (out : Bytes) → length (digits f n out) ≤ f + length out
unfolding digits
length-digits zero n out = omega arith
length-digits (suc f) n out = elim (Bool-cases (ltb n 10)) [
  | inl last ↦ rw last (omega arith)
  | inr more ↦ rw more (omega (arith, length-digits f (n / 10) ((b'0' + n % 10) ∷ out)))
]

pub length-to_string : (n : ℕ) → length (to_string n) ≤ max_digits
unfolding to_string
length-to_string n = omega (arith, length-digits max_digits n [])

digits-ne-nil : (f n : ℕ) (out : Bytes) → out ≢ [] → digits f n out ≢ []
unfolding digits
digits-ne-nil zero n out h = h
digits-ne-nil (suc f) n out h = elim (Bool-cases (ltb n 10)) [
  | inl last ↦ rw last (λ e. cc)
  | inr more ↦ rw more (digits-ne-nil f (n / 10) ((b'0' + n % 10) ∷ out) (λ e. cc))
]

pub to_string-ne-nil : (n : ℕ) → to_string n ≢ []
unfolding to_string digits
to_string-ne-nil n = elim (Bool-cases (ltb n 10)) [
  | inl last ↦ rw last (λ e. cc)
  | inr more ↦ rw more (digits-ne-nil 19 (n / 10) ((b'0' + n % 10) ∷ []) (λ e. cc))
]

unsigned-digits : (s : Bytes) → All IsDigit s → s ≢ [] → unsigned s ≡ some (scan_digits 0 s)
unfolding unsigned
unsigned-digits [] d ne = absurd (ne refl)
unsigned-digits (c ∷ s) d ne = ground arith

pub unsigned-to_string : (n : ℕ) → n < 10 ^ max_digits → unsigned (to_string n) ≡ some (n, [])
unsigned-to_string n h =
    unsigned-digits (to_string n) (to_string-IsDigit n) (to_string-ne-nil n) ∙ ap some (scanned n h)
  where
    scanned : (n : ℕ) → n < 10 ^ max_digits → scan_digits 0 (to_string n) ≡ (n, [])
    scanned n h = unfold to_string in (scan-digits max_digits n [] h ∙ (unfold scan_digits in refl))

from_chars-digits :
    (s : Bytes) → All IsDigit s → s ≢ [] → from_chars s ≡ in_long_long false (unsigned s)
unfolding from_chars
from_chars-digits [] d ne = absurd (ne refl)
from_chars-digits (c ∷ s) d ne = ground arith

-- A number that fits in a `long long` is read back from its print, with no text left over.
pub from_chars-to_string : (n : ℕ) → n < 2 ^ 63 → from_chars (to_string n) ≡ parsed (pos n) []
unfolding in_long_long
from_chars-to_string n h =
    rw
      (
        from_chars-digits (to_string n) (to_string-IsDigit n) (to_string-ne-nil n),
        unsigned-to_string n (omega arith),
      )
      (ground arith)

-- The same for every `long long`, the least one included.
pub from_chars-to_string_ℤ : (t : ℤ) → InRange t → from_chars (to_string_ℤ t) ≡ parsed t []
unfolding to_string_ℤ from_chars in_long_long
from_chars-to_string_ℤ (pos n) h = from_chars-to_string n h
from_chars-to_string_ℤ (negsuc n) h = rw (unsigned-to_string (suc n) (omega arith)) (ground arith)

-- ===== src/Decimal.antt =====
-- The numbers of the protocol as text: `std::to_string` and `std::from_chars` for `long long`.
pub mod RoundTrip
mod Tests
use radish.Shared.{
  ℕ, zero, suc, ◌+◌, ◌-◌, ◌*◌, ◌/◌, ◌%◌, ◌^◌, Bool, true, false, ◌&&◌, Option, none, some, [], ◌∷◌,
  Bytes, ℤ, pos, negsuc, sub_ℕ, leb, ltb, ◌==◌, if◌then◌else◌,
}

-- A 64-bit number has at most 20 decimal digits: that many rounds are made.
unfoldable pub digits : ℕ → ℕ → Bytes → Bytes
digits zero n out = out
digits (suc rounds) n out =
    let rest = digits rounds (n / 10) ((b'0' + n % 10) ∷ out) in
    if ltb n 10 then (b'0' + n % 10) ∷ out else rest

abbrev pub max_digits : ℕ
max_digits = 20

unfoldable pub to_string : ℕ → Bytes
to_string n = digits max_digits n []

unfoldable pub to_string_ℤ : ℤ → Bytes
to_string_ℤ (pos n) = to_string n
to_string_ℤ (negsuc n) = b'-' ∷ to_string (suc n)

abbrev pub is_digit : ℕ → Bool
is_digit c = leb b'0' c && leb c b'9'

-- The digits at the front of a text: their value behind `n`, and what follows them.
unfoldable pub scan_digits : ℕ → Bytes → ℕ × Bytes
scan_digits n [] = (n, [])
scan_digits n (c ∷ s) = elim (is_digit c) [
  | true ↦ scan_digits (n * 10 + (c - b'0')) s
  | false ↦ (n, c ∷ s)
]

-- There must be a digit.
unfoldable pub unsigned : Bytes → Option (ℕ × Bytes)
unsigned [] = none
unsigned (c ∷ s) = if is_digit c then some (scan_digits 0 (c ∷ s)) else none

-- The error code, or the value and the text from `ptr` on.
pub data FromChars : Type 0 where
  invalid_argument result_out_of_range : FromChars
  parsed : ℤ → Bytes → FromChars

unfoldable pub in_long_long : Bool → Option (ℕ × Bytes) → FromChars
in_long_long minus none = invalid_argument
in_long_long false (some (n, rest)) =
    if ltb n (2 ^ 63) then parsed (pos n) rest else result_out_of_range
in_long_long true (some (n, rest)) =
    if leb n (2 ^ 63) then parsed (sub_ℕ 0 n) rest else result_out_of_range

-- A minus sign is read, a plus sign is not.
unfoldable pub from_chars : Bytes → FromChars
from_chars [] = invalid_argument
from_chars (c ∷ s) =
    if c == b'-' then in_long_long true (unsigned s) else in_long_long false (unsigned (c ∷ s))

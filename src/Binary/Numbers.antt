-- ===== src/Binary/Numbers.antt =====
-- Numbers of a fixed width, written and read.
use radish.Shared.{
  ℕ, zero, suc, ◌/◌, ◌^◌, ◌<◌, some, ◌++◌, ◌≡◌, refl, ap, arith, Bytes, ℤ, pos, negsuc, length,
  length-append, take-append, drop-append, ok,
}
use radish.Binary.{
  le_bytes, from_le, to_bits, from_bits, read_exact, read_arithmetic, write_arithmetic,
}

pub length-le_bytes : (w n : ℕ) → length (le_bytes w n) ≡ w
unfolding le_bytes
length-le_bytes zero n = refl
length-le_bytes (suc w) n = ap suc (length-le_bytes w (n / 256))

-- A read of as many bytes as a written block has takes exactly that block.
pub read_exact-append :
    (b rest : Bytes) (n : ℕ) → length b ≡ n → read_exact n (b ++ rest) ≡ some (b, rest)
unfolding read_exact
read_exact-append b rest n e =
    rw (← e) (ground (arith, length-append b rest, take-append b rest, drop-append b rest))

pub from_le-le_bytes_four : (n : ℕ) → n < 2 ^ 32 → from_le (le_bytes 4 n) ≡ n
unfolding from_le le_bytes
from_le-le_bytes_four n h = omega arith

pub from_le-le_bytes_eight : (n : ℕ) → n < 2 ^ 64 → from_le (le_bytes 8 n) ≡ n
unfolding from_le le_bytes
from_le-le_bytes_eight n h = omega arith

-- The range of a `long long`.
abbrev pub InRange : ℤ → Type 0
InRange (pos n) = n < 2 ^ 63
InRange (negsuc n) = n < 2 ^ 63

-- Every number of the range of a `long long` is read back from its two's complement pattern.
pub from_bits-to_bits : (t : ℤ) → InRange t → from_bits (to_bits t) ≡ t
unfolding from_bits to_bits
from_bits-to_bits (pos n) h = ground arith
from_bits-to_bits (negsuc n) h = ground arith

-- A read of a number takes the bytes that were written for it, whatever follows.
pub read_arithmetic-append :
    (w n : ℕ) (rest : Bytes)
    → read_arithmetic w (write_arithmetic w n ++ rest) ≡ ok (from_le (le_bytes w n), rest)
unfolding read_arithmetic
read_arithmetic-append w n rest =
    rw (read_exact-append (le_bytes w n) rest w (length-le_bytes w n), read_arithmetic)

-- ===== src/Bench/Connection/Lines.antt =====
-- The lines of the replies, as the client reads them.
use radish.Shared.{
  ℕ, suc, false, ◌||◌, [], ◌∷◌, ◌++◌, ◌≡◌, refl, arith, Bytes, ℤ, pos, negsuc, All, ◌==◌,
  if◌then◌else◌, ok,
}
use radish.Decimal.{to_string, to_string_ℤ}
use radish.Decimal.RoundTrip.{IsDigit, to_string-IsDigit}
use radish.RespCodec.{cr, lf}
use radish.RespCodec.Lines.{IsPlainByte, split_crlf-plain}
use radish.RespCodec.Replies.{sanitize_simple_value}
use radish.Bench.Connection.{get_line, pop_back, take_line, read_line}

-- Neither a carriage return nor a line feed.
abbrev pub IsLineByte : ℕ → Type 0
IsLineByte c = IsPlainByte c × ((c == lf) ≡ false)

plain_bytes : (text : Bytes) → All IsLineByte text → All IsPlainByte text
plain_bytes [] h = tt
plain_bytes (c ∷ text) h = (h.0.0, plain_bytes text h.1)

get_line-plain :
    (text rest : Bytes)
    → All IsLineByte text
    → get_line (text ++ (cr ∷ lf ∷ rest)) ≡ (text ++ cr ∷ [], rest)
unfolding get_line
get_line-plain [] rest h = refl
get_line-plain (c ∷ text) rest h = rw (h.0.1, get_line-plain text rest h.1) refl

pop_back-append : (text : Bytes) (c : ℕ) → pop_back (text ++ c ∷ []) ≡ ok text
unfolding pop_back
pop_back-append [] c = refl
pop_back-append (d ∷ []) c = refl
pop_back-append (d ∷ e ∷ text) c = rw (pop_back-append (e ∷ text) c) refl

pub read_line-plain :
    (text rest : Bytes)
    → All IsLineByte text
    → read_line (text ++ (cr ∷ lf ∷ rest)) ≡ ok (text, rest)
unfolding read_line take_line
read_line-plain text rest h =
    rw
      (
        split_crlf-plain text rest (plain_bytes text h),
        get_line-plain text rest h,
        pop_back-append text cr,
      )
      refl

pub sanitize_simple_value-IsLineByte : (s : Bytes) → All IsLineByte (sanitize_simple_value s)
unfolding sanitize_simple_value
sanitize_simple_value-IsLineByte [] = tt
sanitize_simple_value-IsLineByte (c ∷ s) = (line c, sanitize_simple_value-IsLineByte s)
  where
    line : (c : ℕ) → IsLineByte (if c == cr || c == lf then b' ' else c)
    line c = ground arith

digits-IsLineByte : (s : Bytes) → All IsDigit s → All IsLineByte s
digits-IsLineByte [] h = tt
digits-IsLineByte (c ∷ s) h = (digit c h.0, digits-IsLineByte s h.1)
  where
    digit : (c : ℕ) → IsDigit c → IsLineByte c
    digit c h = ground arith

pub to_string-IsLineByte : (n : ℕ) → All IsLineByte (to_string n)
to_string-IsLineByte n = digits-IsLineByte (to_string n) (to_string-IsDigit n)

pub to_string_ℤ-IsLineByte : (t : ℤ) → All IsLineByte (to_string_ℤ t)
unfolding to_string_ℤ
to_string_ℤ-IsLineByte (pos n) = to_string-IsLineByte n
to_string_ℤ-IsLineByte (negsuc n) = ((refl, refl), to_string-IsLineByte (suc n))

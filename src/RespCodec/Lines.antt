-- ===== src/RespCodec/Lines.antt =====
-- The line ends in the replies that carry a text.
use radish.Shared.{
  ℕ, ◌≡◌, refl, false, ◌||◌, some, [], ◌∷◌, ◌++◌, arith, Bytes, codes, ◌==◌, if◌then◌else◌, All,
}
use radish.RespCodec.{cr, lf, split_crlf}
use radish.RespCodec.Replies.{sanitize_simple_value, simple_string, error_reply}

-- A byte that is not a carriage return.
abbrev pub IsPlainByte : ℕ → Type 0
IsPlainByte c = (c == cr) ≡ false

sanitize_simple_value-IsPlainByte : (s : Bytes) → All IsPlainByte (sanitize_simple_value s)
unfolding sanitize_simple_value
sanitize_simple_value-IsPlainByte [] = tt
sanitize_simple_value-IsPlainByte (c ∷ s) = (plain c, sanitize_simple_value-IsPlainByte s)
  where
    plain : (c : ℕ) → ((if c == cr || c == lf then b' ' else c) == cr) ≡ false
    plain c = ground arith

pub split_crlf-plain :
    (text rest : Bytes)
    → All IsPlainByte text
    → split_crlf (text ++ (cr ∷ lf ∷ rest)) ≡ some (text, rest)
unfolding split_crlf
split_crlf-plain [] rest h = refl
split_crlf-plain (c ∷ []) rest h = rw h.0 refl
split_crlf-plain (c ∷ d ∷ text) rest h = rw (h.0, split_crlf-plain (d ∷ text) rest h.1) refl

pub split_crlf-simple_string :
    (value : Bytes)
    → split_crlf (simple_string value) ≡ some (b'+' ∷ sanitize_simple_value value, [])
unfolding simple_string
split_crlf-simple_string value =
    split_crlf-plain (b'+' ∷ sanitize_simple_value value) []
      (refl, sanitize_simple_value-IsPlainByte value)

-- The first line end in an error reply is the one at its end, whatever text it carries: no
-- message of a client's making starts another reply.
pub split_crlf-error_reply :
    (message : Bytes)
    → split_crlf (error_reply message) ≡ some (codes "-ERR " ++ sanitize_simple_value message, [])
unfolding error_reply
split_crlf-error_reply message =
    split_crlf-plain (codes "-ERR " ++ sanitize_simple_value message) []
      (refl, (refl, (refl, (refl, (refl, sanitize_simple_value-IsPlainByte message)))))

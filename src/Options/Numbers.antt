-- ===== src/Options/Numbers.antt =====
-- The ports that `std::stoul` makes of a negative number and of a text with more behind it.
use radish.Shared.{ℕ, ◌-◌, ◌<◌, ◌≤◌, ◌^◌, ◌∷◌, ◌≡◌, arith, codes, bytes_eq, ok}
use radish.Decimal.{to_string}
use radish.Decimal.RoundTrip.{unsigned-to_string}
use radish.Options.{
  ServerOptions, skip_spaces, take_sign, to_unsigned_long, stoul, set_port, parse_option,
}

stoul-minus : (n : ℕ) → 1 ≤ n → n < 2 ^ 64 → stoul (b'-' ∷ to_string n) ≡ ok (2 ^ 64 - n)
unfolding stoul to_unsigned_long take_sign skip_spaces
stoul-minus n h k = rw (unsigned-to_string n (omega arith)) (ground arith)

-- For a port of 1 to 65535, a minus sign before 2^64 less the port is accepted after `--port`
-- and sets the port.
pub parse_option-negative_port :
    (port : ℕ) (options : ServerOptions)
    → 1 ≤ port
    → port ≤ 65535
    → parse_option (codes "--port") (b'-' ∷ to_string (2 ^ 64 - port)) options
      ≡ ok (record options { port = port })
unfolding parse_option bytes_eq set_port
parse_option-negative_port port options h k =
    rw (stoul-minus (2 ^ 64 - port) (omega arith) (omega arith)) (ground arith)

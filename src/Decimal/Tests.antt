-- ===== src/Decimal/Tests.antt =====
-- Instances of the theorems on decimal texts.
use radish.Shared.{[], ◌≡◌, arith, negsuc}
use radish.Decimal.{from_chars, to_string_ℤ, parsed}
use radish.Decimal.RoundTrip.{from_chars-to_string_ℤ}

from_chars-to_string_ℤ_example : from_chars (to_string_ℤ (negsuc 1204)) ≡ parsed (negsuc 1204) []
from_chars-to_string_ℤ_example = from_chars-to_string_ℤ (negsuc 1204) (omega arith)

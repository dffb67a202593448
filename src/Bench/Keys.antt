-- ===== src/Bench/Keys.antt =====
-- `MakeKey` and `MakeValue`: the keys and values of the client.
pub mod Distinct
use radish.Shared.{
  ℕ, zero, suc, ◌+◌, ◌-◌, Bool, true, false, List, [], ◌∷◌, ◌++◌, Bytes, codes, length, take, leb,
  if◌then◌else◌,
}
use radish.Decimal.{to_string}

-- `std::string(size, c)`.
unfoldable pub fill : ℕ → ℕ → Bytes
fill zero c = []
fill (suc size) c = c ∷ fill size c

abbrev pub key_prefix : Bytes
key_prefix = codes "bench:"

unfoldable pub make_key : ℕ → ℕ → Bytes
unfolding fill
make_key index size =
    let key = key_prefix ++ to_string index in
    if leb size (length key) then take size key else key ++ fill (size - length key) b'k'

unfoldable pub make_value : ℕ → Bytes
unfolding fill
make_value size = fill size b'v'

-- ===== src/Bench/Keys/Distinct.antt =====
-- The keys of different indices differ, as long as none is cut.
use radish.Shared.{
  ℕ, zero, suc, ◌+◌, ◌-◌, ◌≤◌, ◌<◌, ◌^◌, true, false, [], ◌∷◌, ◌++◌, ◌≡◌, refl, sym, ap, ◌∙◌, arith,
  inl, inr, Bytes, length, take, drop, drop-append, length-append, length-take, append_assoc, leb,
  Bool-cases,
}
use radish.Decimal.{to_string, scan_digits}
use radish.Decimal.RoundTrip.{scan_digits-to_string}
use radish.Bench.Keys.{fill, make_key, make_value, key_prefix}

length-fill : (size c : ℕ) → length (fill size c) ≡ size
unfolding fill
length-fill zero c = refl
length-fill (suc size) c = ap suc (length-fill size c)

-- Every key has the size that is asked for.
pub length-make_key : (index size : ℕ) → length (make_key index size) ≡ size
unfolding make_key
length-make_key index size =
    let key = key_prefix ++ to_string index in
    elim (Bool-cases (leb size (length key))) [
      | inl cut ↦ rw cut (length-take size key (ground arith))
      | inr filled ↦ rw filled (
          omega (
            arith,
            length-append key (fill (size - length key) b'k'),
            length-fill (size - length key) b'k',
            size_gt size (length key) filled,
          ))
    ]
  where
    size_gt : (n m : ℕ) → leb n m ≡ false → m < n
    size_gt n m h = ground arith

pub length-make_value : (size : ℕ) → length (make_value size) ≡ size
unfolding make_value
length-make_value size = length-fill size b'v'

-- The key of the index is not cut.
abbrev pub Fits : ℕ → ℕ → Type 0
Fits index size = length key_prefix + length (to_string index) ≤ size

take_all : (s : Bytes) (n : ℕ) → n ≡ length s → take n s ≡ s ++ []
take_all s n e = ap (λ k. take k s) e ∙ cut s
  where
    cut : (s : Bytes) → take (length s) s ≡ s ++ []
    cut [] = refl
    cut (c ∷ s) = ap (λ t. c ∷ t) (cut s)

make_key-filled :
    (index size : ℕ)
    → Fits index size
    → make_key index size
      ≡ (key_prefix ++ to_string index) ++ fill (size - length (key_prefix ++ to_string index)) b'k'
unfolding make_key fill
make_key-filled index size fits =
    let key = key_prefix ++ to_string index in
    let e = length-append key_prefix (to_string index) in
    elim (Bool-cases (leb size (length key))) [
      | inl cut ↦ rw cut (
          take_all key size (ground (arith, e))
          ∙ ap (λ n. key ++ fill n b'k') (nothing_left size (length key) cut))
      | inr filled ↦ rw filled refl
    ]
  where
    nothing_left : (n m : ℕ) → leb n m ≡ true → 0 ≡ n - m
    nothing_left n m h = ground arith

-- The digits of the key.
index_of : Bytes → ℕ
index_of key = (scan_digits 0 (drop (length key_prefix) key)).0

scan_digits-fill : (n size : ℕ) → (scan_digits n (fill size b'k')).0 ≡ n
unfolding fill scan_digits
scan_digits-fill n zero = refl
scan_digits-fill n (suc size) = refl

index_of-make_key :
    (index size : ℕ) → index < 2 ^ 64 → Fits index size → index_of (make_key index size) ≡ index
unfolding index_of
index_of-make_key index size h fits =
    let more = fill (size - length (key_prefix ++ to_string index)) b'k' in
    ap index_of (make_key-filled index size fits)
    ∙ ap (λ s. (scan_digits 0 s).0)
        (ap (drop (length key_prefix)) (append_assoc key_prefix (to_string index) more)
          ∙ drop-append key_prefix (to_string index ++ more))
    ∙ ap (λ r. r.0) (scan_digits-to_string index more (omega arith))
    ∙ scan_digits-fill index (size - length (key_prefix ++ to_string index))

-- Keys of two indices that are not cut are equal only if the indices are.
pub make_key-injective :
    (i j size : ℕ)
    → i < 2 ^ 64
    → j < 2 ^ 64
    → Fits i size
    → Fits j size
    → make_key i size ≡ make_key j size
    → i ≡ j
make_key-injective i j size hi hj fits fits' e =
    sym (index_of-make_key i size hi fits) ∙ ap index_of e ∙ index_of-make_key j size hj fits'

-- ===== src/Binary/Containers.antt =====
-- Length-prefixed containers, written and read.
use native.Mathlib.Nat.{div-add-mod}
use radish.Shared.{
  Bool, false, ℕ, ◌*◌, ◌/◌, ◌%◌, ◌^◌, ◌<◌, ◌≤◌, [], ◌++◌, ◌≡◌, refl, ap, arith, Bytes, length, take,
  append_assoc, append-nil, ok, ltb, sym, ◌∙◌, take-append, Bool-cases, inl, inr,
}
use radish.Binary.{le_bytes, write_container, read_container, max_binary_size}
use radish.Binary.Numbers.{length-le_bytes, read_exact-append, from_le-le_bytes_four}

take_all : (v : Bytes) → take (length v) v ≡ v
take_all v = sym (ap (take (length v)) (append-nil v)) ∙ take-append v []

-- An image is a whole number of elements.
abbrev pub IsImage : ℕ → Bytes → Type 0
IsImage element_size v = (0 < element_size) × (length v % element_size ≡ 0)

whole : (k : ℕ) (v : Bytes) → IsImage k v → length v / k * k ≡ length v
whole k v h = omega (arith, div-add-mod (length v) k)

fits : (k m l : ℕ) → 0 < k → l / k * k ≡ l → ltb (m / k) (l / k) ≡ false → l ≤ m
fits k m l p e h = grind (arith, div-add-mod m k)

module _ (element_size : ℕ) (v : Bytes) (image : IsImage element_size v) where
  small-write :
      length v ≤ max_binary_size
      → le_bytes 4 (length v / element_size * element_size % 2 ^ 32)
          ++ take (length v / element_size * element_size % 2 ^ 32) v
        ≡ le_bytes 4 (length v) ++ v
  small-write h =
      let e : length v / element_size * element_size % 2 ^ 32 ≡ length v =
        ap (λ n. n % 2 ^ 32) (whole element_size v image) ∙ omega arith in
      rw (e, take_all v)

  abbrev too_large : Bool
  too_large = ltb (max_binary_size / element_size) (length v / element_size)

  not_too_large : too_large ≡ false → length v ≤ max_binary_size
  not_too_large = fits element_size max_binary_size (length v) image.0 (whole element_size v image)

  -- What `Write` puts out for a container, and that it refuses one that is too large.
  pub write_container-inversion :
      (b : Bytes)
      → write_container element_size v ≡ ok b
      → (length v ≤ max_binary_size) × (b ≡ le_bytes 4 (length v) ++ v)
  unfolding write_container
  write_container-inversion b h = elim (Bool-cases too_large) [
    | inl large ↦ ground arith
    | inr small ↦ let le = not_too_large small in (le, ground (arith, small-write le))
  ]

  -- A container that was written is read back and what follows it is left, if its image in
  -- memory is a whole number of elements.
  pub read_container-write_container :
      (b rest : Bytes)
      → write_container element_size v ≡ ok b
      → read_container element_size (b ++ rest) ≡ ok (v, rest)
  unfolding read_container
  read_container-write_container b rest h =
      let (le, e) = write_container-inversion b h in
      rw (e, append_assoc)
        (rw
          (
            read_exact-append (le_bytes 4 (length v)) (v ++ rest) 4 (length-le_bytes 4 (length v)),
            read_container,
          )
          (rw (
            from_le-le_bytes_four (length v) (omega arith),
            image.1,
            read_exact-append v rest (length v) refl,
          )))

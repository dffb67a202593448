-- ===== src/Dict/Order.antt =====
-- How the operations act on the list that stands for a map.
use radish.Shared.{false, [], ◌∷◌, ◌++◌, ◌≡◌, refl, arith, Bytes, bytes_eq, bytes_eq_iff}
use radish.Dict.{Dict, lookup, insert, erase, contains}

module _ {ℓ} {V : Type ℓ} where
  -- A new key is put at the end.
  pub insert_new :
      (k : Bytes) (v : V) (m : Dict V) → contains k m ≡ false → insert k v m ≡ m ++ (k, v) ∷ []
  unfolding lookup insert
  insert_new k v [] h = refl
  insert_new k v ((j, w) ∷ m) h = ground (arith, insert_new k v m)

  -- Erasing one key and assigning another can be exchanged.
  pub insert-erase :
      (k j : Bytes) (v : V) (m : Dict V)
      → bytes_eq k j ≡ false
      → insert j v (erase k m) ≡ erase k (insert j v m)
  unfolding insert erase
  insert-erase k j v [] h = ground (arith, bytes_eq_iff k j, bytes_eq_iff j k)
  insert-erase k j v ((i, w) ∷ m) h = ground (
    arith,
    insert-erase k j v m h,
    bytes_eq_iff i j,
    bytes_eq_iff i k,
    bytes_eq_iff k j,
    bytes_eq_iff j k,
  )

  pub contains-append :
      (k : Bytes) (m n : Dict V) → contains k m ≡ false → lookup k (m ++ n) ≡ lookup k n
  unfolding lookup
  contains-append k [] n h = refl
  contains-append k ((j, w) ∷ m) n h = ground (arith, contains-append k m n)

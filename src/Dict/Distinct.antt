-- ===== src/Dict/Distinct.antt =====
-- A map holds each key once: the operations keep the keys of the list distinct.
use radish.Shared.{false, [], ◌∷◌, ◌≡◌, refl, arith, Bytes, bytes_eq_iff}
use radish.Dict.{Dict, lookup, insert, erase, contains, lookup-insert, lookup-erase}

module _ {ℓ} {V : Type ℓ} where
  abbrev pub Distinct : Dict V → Type 0
  Distinct [] = Unit
  Distinct ((k, v) ∷ m) = (contains k m ≡ false) × Distinct m

  pub insert-Distinct : (k : Bytes) (v : V) (m : Dict V) → Distinct m → Distinct (insert k v m)
  unfolding insert
  insert-Distinct k v [] h = (unfold lookup in refl, tt)
  insert-Distinct k v ((j, w) ∷ m) h =
      ground (
        arith,
        insert-Distinct k v m h.1,
        lookup-insert k j v m,
        bytes_eq_iff j k,
        bytes_eq_iff k j,
      )

  pub erase-Distinct : (k : Bytes) (m : Dict V) → Distinct m → Distinct (erase k m)
  unfolding erase
  erase-Distinct k [] h = tt
  erase-Distinct k ((j, w) ∷ m) h =
      ground (arith, erase-Distinct k m h.1, lookup-erase k j m, bytes_eq_iff j k, bytes_eq_iff k j)

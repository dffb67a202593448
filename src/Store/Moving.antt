-- ===== src/Store/Moving.antt =====
-- What `Rename` does to the deadlines, in one equation for all keys.
use radish.Shared.{
  none, some, Option, refl, ◌≡◌, arith, Bytes, bytes_eq, bytes_eq_iff, if◌then◌else◌,
}
use radish.Dict.{Dict, lookup, insert, erase, dict_laws}
use radish.Store.{Timestamp, move_timestamp}

pub lookup-move_timestamp :
    (old_key new_key k : Bytes) (m : Dict Timestamp)
    → lookup k (move_timestamp old_key new_key m) ≡ (
        if bytes_eq old_key k
        then none
        else if bytes_eq new_key k
        then lookup old_key m
        else lookup k m)
unfolding move_timestamp
lookup-move_timestamp old_key new_key k m = go (lookup old_key m) refl
  where
    go :
        (o : Option Timestamp)
        → lookup old_key m ≡ o
        → lookup k (elim o [ some t ↦ erase old_key (insert new_key t m) | none ↦ erase new_key m ])
          ≡ (if bytes_eq old_key k then none else if bytes_eq new_key k then o else lookup k m)
    go none e = simp dict_laws (ground (arith, bytes_eq_iff old_key k, e))
    go (some t) e = simp dict_laws

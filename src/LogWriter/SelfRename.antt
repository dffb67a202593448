-- ===== src/LogWriter/SelfRename.antt =====
-- A rename of a key to itself, in `RadishStore::Rename` and in `RenameCompactStrategy`.
use radish.Shared.{List, [], ◌∷◌, ◌≡◌, arith, Bytes, bytes_eq_refl, minus_one, ok}
use radish.Dict.{lookup, insert, erase}
use radish.Store
use radish.Store.{RadishStore, Timestamp, limited, new_store, move_timestamp}
use radish.Event.{RadishEvent, create_event, rename_event}
use radish.CompactStrategy.{execute, move_entry, rename_execute}
use radish.LogWriter.{apply_event, apply_events, collect}

module _ {ℓ} {V : Type ℓ} (k : Bytes) (v : V) where
  abbrev pub self_renaming : List (RadishEvent V)
  self_renaming = create_event minus_one k v ∷ rename_event minus_one k k ∷ []

  self_rename_lost :
      (now : Timestamp)
      → apply_events now (new_store minus_one) self_renaming ≡ ok (new_store minus_one)
  unfolding apply_events apply_event Store.create Store.rename Store.is_expired move_timestamp
      lookup insert erase limited
  self_rename_lost now = ground (arith, bytes_eq_refl k)

  self_rename_kept :
      (now : Timestamp) → collect now [] self_renaming ≡ ok ((k, create_event minus_one k v) ∷ [])
  unfolding collect execute rename_execute move_entry lookup insert erase
  self_rename_kept now = ground (arith, bytes_eq_refl k)

  -- Of the log of a creation without a deadline and a rename of the key to itself, a replay
  -- gives the empty store, while compaction collects the creation: it changes what a replay
  -- gives.
  pub self_rename_diverges :
      (now later : Timestamp)
      → (apply_events now (new_store minus_one) self_renaming ≡ ok (new_store minus_one))
        × (collect later [] self_renaming ≡ ok ((k, create_event minus_one k v) ∷ []))
  self_rename_diverges now later = (self_rename_lost now, self_rename_kept later)

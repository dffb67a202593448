-- ===== src/LogWriter/Entries.antt =====
-- The map of events that compaction keeps for a store whose keys have no deadlines.
use mathlib.Core.Option
use radish.Shared.{
  true, false, List, [], ◌∷◌, ◌++◌, ◌≡◌, refl, ap, ◌∙◌, arith, Bytes, bytes_eq_iff, minus_one, ok,
  append_assoc, append-nil,
}
use radish.Dict.{Dict, lookup, insert, erase, contains}
use radish.Dict.Distinct.{Distinct}
use radish.Dict.Order.{insert_new, contains-append}
use radish.Store
use radish.Store.{RadishStore, Timestamp, limited, new_store}
use radish.Event.{RadishEvent, create_event}
use radish.CompactStrategy.{EventsMap}
use radish.LogWriter.{apply_event, apply_events}

module _ {ℓ} {V : Type ℓ} where
  -- The events that create a store's entries anew.
  abbrev pub creates : Dict V → List (RadishEvent V)
  creates [] = []
  creates ((k, v) ∷ m) = create_event minus_one k v ∷ creates m

  abbrev pub entries_of : Dict V → EventsMap V
  entries_of [] = []
  entries_of ((k, v) ∷ m) = (k, create_event minus_one k v) ∷ entries_of m

  pub lookup-entries_of :
      (k : Bytes) (m : Dict V)
      → lookup k (entries_of m) ≡ Option.map (create_event minus_one k) (lookup k m)
  unfolding lookup
  lookup-entries_of k [] = refl
  lookup-entries_of k ((j, v) ∷ m) = ground (arith, lookup-entries_of k m, bytes_eq_iff j k)

  pub insert-entries_of :
      (k : Bytes) (v : V) (m : Dict V)
      → insert k (create_event minus_one k v) (entries_of m) ≡ entries_of (insert k v m)
  unfolding insert
  insert-entries_of k v [] = refl
  insert-entries_of k v ((j, w) ∷ m) = ground (arith, insert-entries_of k v m)

  pub erase-entries_of : (k : Bytes) (m : Dict V) → erase k (entries_of m) ≡ entries_of (erase k m)
  unfolding erase
  erase-entries_of k [] = refl
  erase-entries_of k ((j, w) ∷ m) = ground (arith, erase-entries_of k m)

  -- Keys of the second map that the first lacks.
  abbrev Apart : Dict V → Dict V → Type 0
  Apart acc [] = Unit
  Apart acc ((k, v) ∷ m) = (contains k acc ≡ false) × Apart acc m

  abbrev pub plain_store : Timestamp → Dict V → RadishStore V
  plain_store ttl m = record { m_ttl = ttl; m_data = m; m_ttl_data = [] }

  Apart-nil : (m : Dict V) → Apart [] m
  unfolding lookup
  Apart-nil [] = tt
  Apart-nil ((k, v) ∷ m) = (refl, Apart-nil m)

  Apart-snoc :
      (acc : Dict V) (k : Bytes) (v : V) (m : Dict V)
      → Apart acc m
      → contains k m ≡ false
      → Apart (acc ++ (k, v) ∷ []) m
  unfolding lookup
  Apart-snoc acc k v [] h c = tt
  Apart-snoc acc k v ((j, w) ∷ m) h c = (
    ground (arith, contains-append j acc ((k, v) ∷ []) h.0, bytes_eq_iff j k, bytes_eq_iff k j),
    Apart-snoc acc k v m h.1 (ground arith),
  )

  create_one :
      (now ttl : Timestamp) (acc : Dict V) (k : Bytes) (v : V)
      → limited ttl ≡ false
      → contains k acc ≡ false
      → apply_event now (plain_store ttl acc) (create_event minus_one k v)
        ≡ ok (plain_store ttl (acc ++ (k, v) ∷ []), true)
  unfolding apply_event Store.create
  create_one now ttl acc k v off a = rw (off, insert_new k v acc a)

  -- Creating the entries of a map one after another gives the map.
  create_all :
      (now ttl : Timestamp) (acc m : Dict V)
      → limited ttl ≡ false
      → Distinct m
      → Apart acc m
      → apply_events now (plain_store ttl acc) (creates m) ≡ ok (plain_store ttl (acc ++ m))
  unfolding apply_events
  create_all now ttl acc [] off d a = rw append-nil
  create_all now ttl acc ((k, v) ∷ m) off d a = rw (create_one now ttl acc k v off a.0) (
      create_all now ttl (acc ++ (k, v) ∷ []) m off d.1 (Apart-snoc acc k v m a.1 d.0)
      ∙ ap (λ l. ok (plain_store ttl l)) (append_assoc acc ((k, v) ∷ []) m))

  pub apply_events-creates :
      (now ttl : Timestamp) (m : Dict V)
      → limited ttl ≡ false
      → Distinct m
      → apply_events now (new_store ttl) (creates m) ≡ ok (plain_store ttl m)
  apply_events-creates now ttl m off d = create_all now ttl [] m off d (Apart-nil m)

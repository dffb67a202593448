-- ===== src/CompactStrategy.antt =====
-- include/persistence/CompactStrategy.h: what each strategy does to the map of surviving events.
use radish.Shared.{
  Option, none, some, [], Bytes, Result, ok, err, ◌>>=◌, undefined_behaviour, bad_optional_access,
}
use radish.Dict.{Dict, lookup, insert, erase}
use radish.Event.{EventType, create, rename, delete, clear, other, RadishEvent, set_key}

-- EventsMap
abbrev pub EventsMap {ℓ} : Type ℓ → Type ℓ
EventsMap V = Dict (RadishEvent V)

-- `*field`, which has no defined result on an empty optional.
unfoldable pub deref {ℓ} : {A : Type ℓ} → Option A → Result A
deref none = err undefined_behaviour
deref (some a) = ok a

-- `field.value()`
unfoldable pub value {ℓ} : {A : Type ℓ} → Option A → Result A
value none = err bad_optional_access
value (some a) = ok a

module _ {ℓ} {V : Type ℓ} where
  unfoldable pub create_execute : EventsMap V → RadishEvent V → Result (EventsMap V)
  unfolding deref
  create_execute events event = do key ← deref event.m_key; ok (insert key event events)

  -- The entry that `find` returned is erased, and a copy with the new key is assigned.
  unfoldable pub move_entry :
      Bytes → Option (RadishEvent V) → EventsMap V → RadishEvent V → Result (EventsMap V)
  unfolding value set_key
  move_entry key none events event = ok events
  move_entry key (some entry) events event = do
    new_key ← value event.m_rename_key
    ok (insert new_key (set_key new_key entry) (erase key events))

  unfoldable pub rename_execute : EventsMap V → RadishEvent V → Result (EventsMap V)
  unfolding value
  rename_execute events event = do
    key ← value event.m_key
    move_entry key (lookup key events) events event

  unfoldable pub delete_execute : EventsMap V → RadishEvent V → Result (EventsMap V)
  unfolding value
  delete_execute events event = do key ← value event.m_key; ok (erase key events)

  unfoldable pub clear_execute : EventsMap V → RadishEvent V → Result (EventsMap V)
  clear_execute events event = ok []

  -- The strategies that `InitializeCompactStrategies` registers; another type has none.
  unfoldable pub execute : EventType → EventsMap V → RadishEvent V → Result (EventsMap V)
  unfolding create_execute rename_execute delete_execute clear_execute
  execute create events event = create_execute events event
  execute rename events event = rename_execute events event
  execute delete events event = delete_execute events event
  execute clear events event = clear_execute events event
  execute (other n) events event = ok events

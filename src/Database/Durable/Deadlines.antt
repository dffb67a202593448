-- ===== src/Database/Durable/Deadlines.antt =====
-- Deadlines and a replay at a later time.
use radish.Shared.{
  true, false, some, none, List, [], ◌∷◌, ◌≡◌, arith, ok, refl, if◌then◌else◌, bytes_eq,
  bytes_eq_iff, bytes_eq_refl, Bytes, leb_ℤ, minus_one,
}
use radish.Store
use radish.Store.{RadishStore, Timestamp, new_store, limited}
use radish.Store.Valid.{IsValid, new_store-IsValid, create-IsValid, rename-IsValid}
use radish.Store.Table.{table, table-new_store, live, get-table, table-create, table-rename}
use radish.Event.{RadishEvent, create_event, rename_event}
use radish.LogWriter.{apply_event, apply_events}

module _ {ℓ} {V : Type ℓ} (ttl : Timestamp) (on : limited ttl ≡ true) (a z : Bytes)
    (ne : bytes_eq a z ≡ false) (v w : V) (t u : Timestamp) where
  -- The log of two creations and a rename of the first key to the second.
  abbrev pub overwriting : List (RadishEvent V)
  overwriting = create_event t a v ∷ create_event u z w ∷ rename_event minus_one a z ∷ []

  abbrev two : Timestamp → RadishStore V
  two now = (Store.create now (Store.create now (new_store ttl) a v (some t)).0 z w (some u)).0

  one-IsValid : (now : Timestamp) → IsValid (Store.create now (new_store ttl) a v (some t)).0
  one-IsValid now = create-IsValid now (new_store ttl) a v (some t) (new_store-IsValid ttl)

  two-IsValid : (now : Timestamp) → IsValid (two now)
  two-IsValid now = create-IsValid now _ z w (some u) (one-IsValid now)

  ttl_one :
      (now : Timestamp) → (Store.create now (new_store {V = V} ttl) a v (some t)).0.m_ttl ≡ ttl
  unfolding Store.create
  ttl_one now = ground arith

  table-two :
      (now : Timestamp) (k : Bytes)
      → table (two now) k ≡ (
          if bytes_eq z k
          then some (w, some u)
          else if bytes_eq a k
          then some (v, some t)
          else none)
  table-two now k =
      rw
        (
          table-create now _ (one-IsValid now) z w (some u),
          table-create now _ (new_store-IsValid ttl) a v (some t),
          ttl_one now,
          on,
        )
        (simp table-new_store)

  -- The replay of the log at a given time.
  pub replay_overwriting :
      (now : Timestamp)
      → apply_events now (new_store ttl) overwriting ≡ ok (Store.rename now (two now) a z).0
  unfolding apply_events apply_event
  replay_overwriting now = refl

  get_z :
      (now later : Timestamp)
      → Store.get later (Store.rename now (two now) a z).0 z ≡ (
          if leb_ℤ t now
          then (if leb_ℤ u later then none else some w)
          else if leb_ℤ t later
          then none
          else some v)
  get_z now later =
      rw
        (
          get-table later _ (rename-IsValid now (two now) a z (two-IsValid now)) z,
          table-rename now (two now) (two-IsValid now) a z,
        )
        (ground (
          arith,
          table-two now a,
          table-two now z,
          bytes_eq_refl a,
          bytes_eq_refl z,
          bytes_eq_iff a z,
          bytes_eq_iff z a,
        ))

  -- Under a time to live, a rename over a live key that is committed before the deadline of
  -- the renamed one does not survive a replay after it: the running store has no value for
  -- the new name then, and the store that is replayed from the same log has the value which
  -- the rename had overwritten, if its deadline has not passed.
  pub rename_undone :
      (now later : Timestamp) (running replayed : RadishStore V)
      → leb_ℤ t now ≡ false
      → leb_ℤ t later ≡ true
      → leb_ℤ u later ≡ false
      → apply_events now (new_store ttl) overwriting ≡ ok running
      → apply_events later (new_store ttl) overwriting ≡ ok replayed
      → (Store.get later running z ≡ none) × (Store.get later replayed z ≡ some w)
  rename_undone now later running replayed before after live p q =
      let run : (Store.rename now (two now) a z).0 ≡ running = cc (replay_overwriting now) in
      let again : (Store.rename later (two later) a z).0 ≡ replayed =
        cc (replay_overwriting later) in
      (rw (← run, get_z now later, before, after), rw (← again, get_z later later, after, live))

-- ===== src/Database/Tables.antt =====
-- What the operations of `RadishDB` that return do to the table of the store.
use radish.Shared.{
  Bool, true, false, none, some, ◌≡◌, refl, sym, ap, ◌∙◌, arith, Bytes, minus_one, Result, ok, err,
  if◌then◌else◌, subst,
}
use radish.Dict.{is_some}
use radish.Binary.{BinaryValue}
use radish.Store
use radish.Store.{RadishStore, Timestamp, limited, new_expiry_timestamp}
use radish.Store.Valid.{IsValid}
use radish.Store.Table.{
  Table, table, put, remove, move, live, deadline, table-create, table-delete, table-clear,
  table-rename, rename_done, delete_done, delete_nothing, clear_nothing,
}
use radish.Event.{RadishEvent, create_event, rename_event, delete_event, clear_event}
use radish.LogWriter.{Disk, Fault, apply_event}
use radish.LogWriter.Replaying.{apply_event-keeps}
use radish.Database
use radish.Database.Applying.{commit-apply_event}
use radish.Database.{RadishDb, commit, finish_commit, swap_in, append_if}

-- The second store is valid, has the time to live of the first, and has the given table.
pub record Becomes {ℓ} {V : Type ℓ} (s : RadishStore V) (m : Table V) (s' : RadishStore V)
    : Type ℓ where
  pub valid : IsValid s'
  pub same_ttl : s'.m_ttl ≡ s.m_ttl
  pub has_table : table s' ≡ m

module _ {ℓ} {V : Type ℓ} ⦃b : BinaryValue V⦄ (now : Timestamp) (fault : Fault) where
  swap_in-Becomes :
      (db : RadishDb V) (staged : RadishStore V) (m : Table V) (r : Disk × Result (Unit {0}))
      (db' : RadishDb V) (x : Bool)
      → Becomes db.m_store m staged
      → swap_in db staged r ≡ (db', ok x)
      → Becomes db.m_store m db'.m_store
  unfolding swap_in Store.swap
  swap_in-Becomes db staged m (disk, err e) db' x c h = absurd (cc)
  swap_in-Becomes db staged m (disk, ok u) db' x c h =
      subst (λ s. Becomes db.m_store m s) (ap (λ p. p.0.m_store) h) c

  finish_commit-Becomes :
      (event : RadishEvent V) (db db' : RadishDb V) (staged : RadishStore V) (applied x : Bool)
      (m : Table V)
      → Becomes db.m_store m staged
      → IsValid db.m_store
      → (applied ≡ false → table db.m_store ≡ m)
      → finish_commit fault event db (ok (staged, applied)) ≡ (db', ok x)
      → Becomes db.m_store m db'.m_store
  unfolding finish_commit
  finish_commit-Becomes event db db' staged false x m c v same h =
      subst (λ s. Becomes db.m_store m s) (ap (λ p. p.0.m_store) h)
        (record { valid = v; same_ttl = refl; has_table = same refl })
  finish_commit-Becomes event db db' staged true x m c v same h =
      swap_in-Becomes db staged m (append_if db.m_persistence fault event db.disk) db' x c h

  commit-done :
      (event : RadishEvent V) (db db' : RadishDb V) (staged : RadishStore V) (applied x : Bool)
      → apply_event now db.m_store event ≡ ok (staged, applied)
      → commit now fault event db ≡ (db', ok x)
      → x ≡ applied
  commit-done event db db' staged applied x e h =
      finished applied (
        sym (ap (finish_commit fault event db) e) ∙ sym (commit-apply_event now fault event db) ∙ h)
    where
      swapped : (r : Disk × Result (Unit {0})) → swap_in db staged r ≡ (db', ok x) → x ≡ true
      swapped (disk, err e) h = unfold swap_in in absurd (cc)
      swapped (disk, ok u) h = unfold swap_in in cc

      finished :
          (applied : Bool)
          → finish_commit fault event db (ok (staged, applied)) ≡ (db', ok x)
          → x ≡ applied
      finished false h = unfold finish_commit in cc
      finished true h =
          swapped (append_if db.m_persistence fault event db.disk) (unfold finish_commit in h)

  commit-Becomes :
      (event : RadishEvent V) (db db' : RadishDb V) (staged : RadishStore V) (applied x : Bool)
      (m : Table V)
      → apply_event now db.m_store event ≡ ok (staged, applied)
      → table staged ≡ m
      → IsValid db.m_store
      → (applied ≡ false → table db.m_store ≡ m)
      → commit now fault event db ≡ (db', ok x)
      → Becomes db.m_store m db'.m_store
  commit-Becomes event db db' staged applied x m e t v same h =
      let (v', ttl) = apply_event-keeps now db.m_store event v e in
      finish_commit-Becomes event db db' staged applied x m
        (record { valid = v'; same_ttl = ttl; has_table = t }) v same
        (sym (ap (finish_commit fault event db) e)
          ∙ sym (commit-apply_event now fault event db)
          ∙ h)

  module _ (db db' : RadishDb V) (x : Bool) (v : IsValid db.m_store) where
    pub create-Becomes :
        (key : Bytes) (value : V)
        → Database.create now fault key value db ≡ (db', ok x)
        → Becomes db.m_store
            (put key (value, deadline now db.m_store.m_ttl none) (table db.m_store))
            db'.m_store
    unfolding Database.create apply_event
    create-Becomes key value h =
        commit-Becomes (create_event (new_expiry_timestamp now db.m_store) key value) db db' _ true
          x _ refl
          (table-create now db.m_store v key value (some (new_expiry_timestamp now db.m_store))
            ∙ ap (λ d. put key (value, d) (table db.m_store)) same_deadline)
          v (λ e. absurd (cc)) h
      where
        same_deadline :
            deadline now db.m_store.m_ttl (some (new_expiry_timestamp now db.m_store))
            ≡ deadline now db.m_store.m_ttl none
        same_deadline = unfold new_expiry_timestamp in ground arith

    pub rename-Becomes :
        (old_key new_key : Bytes)
        → Database.rename now fault old_key new_key db ≡ (db', ok x)
        → Becomes db.m_store
            (if is_some (live now (table db.m_store old_key))
              then move old_key new_key (table db.m_store)
              else table db.m_store)
            db'.m_store
    unfolding Database.rename apply_event
    rename-Becomes old_key new_key h =
        commit-Becomes (rename_event minus_one old_key new_key) db db' _ _ x _ refl
          (table-rename now db.m_store v old_key new_key) v
          (λ e. rw (sym (rename_done now db.m_store v old_key new_key) ∙ e) refl) h

    pub delete-Becomes :
        (key : Bytes)
        → Database.delete now fault key db ≡ (db', ok x)
        → Becomes db.m_store (remove key (table db.m_store)) db'.m_store
    unfolding Database.delete apply_event
    delete-Becomes key h =
        commit-Becomes (delete_event minus_one key) db db' _ _ x _ refl
          (table-delete now db.m_store v key) v (delete_nothing now db.m_store v key) h

    pub clear-Becomes :
        Database.clear now fault db ≡ (db', ok x) → Becomes db.m_store (λ k. none) db'.m_store
    unfolding Database.clear apply_event
    clear-Becomes h =
        commit-Becomes (clear_event minus_one) db db' _ _ x _ refl (table-clear now db.m_store v) v
          (clear_nothing now db.m_store v) h

    -- A rename returns whether there was a live key to move.
    pub rename-done :
        (old_key new_key : Bytes)
        → Database.rename now fault old_key new_key db ≡ (db', ok x)
        → x ≡ is_some (live now (table db.m_store old_key))
    unfolding Database.rename apply_event
    rename-done old_key new_key h =
        commit-done (rename_event minus_one old_key new_key) db db' _ _ x refl h
        ∙ rename_done now db.m_store v old_key new_key

    -- A deletion returns whether there was an entry, live or not.
    pub delete-done :
        (key : Bytes)
        → Database.delete now fault key db ≡ (db', ok x)
        → x ≡ is_some (table db.m_store key)
    unfolding Database.delete apply_event
    delete-done key h =
        commit-done (delete_event minus_one key) db db' _ _ x refl h
        ∙ delete_done now db.m_store v key

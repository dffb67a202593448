-- ===== src/Commands/Effects.antt =====
-- The commands against the table of the store: what each of them does to it.
use radish.Shared.{
  Option, some, ◌+ℤ◌, ℕ, none, List, [], ◌∷◌, ◌≡◌, refl, sym, ap, ◌∙◌, Bytes, All, codes, bytes_eq,
  Result, ok, err, Option-cases, inl, inr, if◌then◌else◌, subst,
}
use radish.Dict.{lookup, is_some}
use radish.Binary.{string_value}
use radish.Binary.Numbers.{InRange}
use radish.Store.{Timestamp, limited}
use radish.Store.Valid.{IsValid}
use radish.Store.Table.{Table, table, put, move, live, deadline, add_timestamps-sum}
use radish.Database.{RadishDb}
use radish.Database.Tables.{Becomes, create-Becomes, rename-Becomes, clear-Becomes}
use radish.Commands.{
  Context, Calls, CommandHandler, CommandResult, uppercase, replied, handle_set, handle_delete,
  handle_rename, handle_flush_database, handle_hello, handle_ping, handle_get, handle_exists,
  handle_keys, handle_database_size, handle_quit, command_handlers, run_handler, dispatch,
}
use radish.Commands.Handlers.{lookup-All, lookup-none}
use radish.Commands.SetGet.{replied-ok}
use radish.Commands.Deleting.{remove_all, delete_keys-Becomes}
use radish.Commands.Reading.{
  KeepsDatabase, handle_hello-KeepsDatabase, handle_ping-KeepsDatabase, handle_get-KeepsDatabase,
  handle_exists-KeepsDatabase, handle_keys-KeepsDatabase, handle_database_size-KeepsDatabase,
  handle_quit-KeepsDatabase,
}

abbrev pub set_effect : Option Timestamp → List Bytes → Table Bytes → Table Bytes
set_effect until (command ∷ key ∷ value ∷ []) m = put key (value, until) m
set_effect until _ m = m

abbrev pub delete_effect : List Bytes → Table Bytes → Table Bytes
delete_effect [] m = m
delete_effect (command ∷ keys) m = remove_all keys m

abbrev pub rename_effect : Timestamp → List Bytes → Table Bytes → Table Bytes
rename_effect now (command ∷ old_key ∷ new_key ∷ []) m =
    if is_some (live now (m old_key)) then move old_key new_key m else m
rename_effect now _ m = m

abbrev pub flush_effect : List Bytes → Table Bytes → Table Bytes
flush_effect (command ∷ []) m = λ key. none
flush_effect _ m = m

-- What a command of the given upper case name does at a time, a SET with the given deadline; a wrong number
-- of arguments and every other name change nothing.
unfoldable pub effect :
    Timestamp → Option Timestamp → Bytes → List Bytes → Table Bytes → Table Bytes
effect now until name arguments m =
    if bytes_eq name (codes "SET")
    then set_effect until arguments m
    else if bytes_eq name (codes "DEL")
    then delete_effect arguments m
    else if bytes_eq name (codes "RENAME")
    then rename_effect now arguments m
    else if bytes_eq name (codes "FLUSHDB")
    then flush_effect arguments m
    else m

unchanged :
    (c c' : Context)
    → IsValid c.m_database.m_store
    → c'.m_database ≡ c.m_database
    → Becomes c.m_database.m_store (table c.m_database.m_store) c'.m_database.m_store
unchanged c c' v e =
    subst (λ db. Becomes c.m_database.m_store (table c.m_database.m_store) db.m_store) (sym e)
      (record { valid = v; same_ttl = refl; has_table = refl })

replied_number :
    (c c' : Context) (r : RadishDb Bytes × Result ℕ) (reply : ℕ → Bytes) (x : CommandResult)
    → replied c r reply ≡ (c', ok x)
    → (n : ℕ) × (r ≡ (c'.m_database, ok n))
unfolding replied
replied_number c c' (db, err e) reply x h = absurd (cc)
replied_number c c' (db, ok a) reply x h = (a, ap (λ p. (p.0.m_database, ok a)) h)

-- What a handler does under its name.
abbrev HasEffect : Bytes → CommandHandler → Type 0
HasEffect name handler =
    (calls : Calls) (arguments : List Bytes) (upper : Bytes) (c c' : Context) (r : CommandResult)
    → IsValid c.m_database.m_store
    → handler calls arguments upper c ≡ (c', ok r)
    → Becomes c.m_database.m_store
        (effect (calls 0).0 (deadline (calls 0).0 c.m_database.m_store.m_ttl none) name arguments
          (table c.m_database.m_store))
        c'.m_database.m_store

reading-HasEffect :
    (handler : CommandHandler)
    → KeepsDatabase handler
    → (calls : Calls) (arguments : List Bytes) (upper : Bytes) (c c' : Context) (r : CommandResult)
    → IsValid c.m_database.m_store
    → handler calls arguments upper c ≡ (c', ok r)
    → Becomes c.m_database.m_store (table c.m_database.m_store) c'.m_database.m_store
reading-HasEffect handler keeps calls arguments upper c c' r v h =
    unchanged c c' v (sym (ap (λ p. p.0.m_database) h) ∙ keeps calls arguments upper c)

handle_set-HasEffect : HasEffect (codes "SET") handle_set
unfolding handle_set effect bytes_eq
handle_set-HasEffect calls [] upper c c' r v h = unchanged c c' v (sym (ap (λ p. p.0.m_database) h))
handle_set-HasEffect calls (command ∷ []) upper c c' r v h =
    unchanged c c' v (sym (ap (λ p. p.0.m_database) h))
handle_set-HasEffect calls (command ∷ key ∷ []) upper c c' r v h =
    unchanged c c' v (sym (ap (λ p. p.0.m_database) h))
handle_set-HasEffect calls (command ∷ key ∷ value ∷ []) upper c c' r v h =
    let (x, stored, version) = replied-ok c c' _ _ r h in
    create-Becomes (calls 0).0 (calls 0).1 c.m_database c'.m_database x v key value stored
handle_set-HasEffect calls (command ∷ key ∷ value ∷ more ∷ rest) upper c c' r v h =
    unchanged c c' v (sym (ap (λ p. p.0.m_database) h))

handle_delete-HasEffect : HasEffect (codes "DEL") handle_delete
unfolding handle_delete effect bytes_eq
handle_delete-HasEffect calls [] upper c c' r v h =
    unchanged c c' v (sym (ap (λ p. p.0.m_database) h))
handle_delete-HasEffect calls (command ∷ []) upper c c' r v h =
    unchanged c c' v (sym (ap (λ p. p.0.m_database) h))
handle_delete-HasEffect calls (command ∷ key ∷ keys) upper c c' r v h =
    let (n, deleted) = replied_number c c' _ _ r h in
    delete_keys-Becomes calls 1 0 n (key ∷ keys) c.m_database c'.m_database v deleted

handle_rename-HasEffect : HasEffect (codes "RENAME") handle_rename
unfolding handle_rename effect bytes_eq
handle_rename-HasEffect calls [] upper c c' r v h =
    unchanged c c' v (sym (ap (λ p. p.0.m_database) h))
handle_rename-HasEffect calls (command ∷ []) upper c c' r v h =
    unchanged c c' v (sym (ap (λ p. p.0.m_database) h))
handle_rename-HasEffect calls (command ∷ old_key ∷ []) upper c c' r v h =
    unchanged c c' v (sym (ap (λ p. p.0.m_database) h))
handle_rename-HasEffect calls (command ∷ old_key ∷ new_key ∷ []) upper c c' r v h =
    let (x, renamed, version) = replied-ok c c' _ _ r h in
    rename-Becomes (calls 0).0 (calls 0).1 c.m_database c'.m_database x v old_key new_key renamed
handle_rename-HasEffect calls (command ∷ old_key ∷ new_key ∷ more ∷ rest) upper c c' r v h =
    unchanged c c' v (sym (ap (λ p. p.0.m_database) h))

handle_flush_database-HasEffect : HasEffect (codes "FLUSHDB") handle_flush_database
unfolding handle_flush_database effect bytes_eq
handle_flush_database-HasEffect calls [] upper c c' r v h =
    unchanged c c' v (sym (ap (λ p. p.0.m_database) h))
handle_flush_database-HasEffect calls (command ∷ []) upper c c' r v h =
    let (x, cleared, version) = replied-ok c c' _ _ r h in
    clear-Becomes (calls 0).0 (calls 0).1 c.m_database c'.m_database x v cleared
handle_flush_database-HasEffect calls (command ∷ more ∷ rest) upper c c' r v h =
    unchanged c c' v (sym (ap (λ p. p.0.m_database) h))

All-HasEffect : All (λ p. HasEffect p.0 p.1) command_handlers
unfolding command_handlers effect bytes_eq
All-HasEffect = (
  reading-HasEffect handle_hello handle_hello-KeepsDatabase,
  (
    reading-HasEffect handle_ping handle_ping-KeepsDatabase,
    (
      reading-HasEffect handle_get handle_get-KeepsDatabase,
      (
        handle_set-HasEffect,
        (
          handle_delete-HasEffect,
          (
            handle_rename-HasEffect,
            (
              reading-HasEffect handle_exists handle_exists-KeepsDatabase,
              (
                reading-HasEffect handle_keys handle_keys-KeepsDatabase,
                (
                  reading-HasEffect handle_database_size handle_database_size-KeepsDatabase,
                  (
                    handle_flush_database-HasEffect,
                    (reading-HasEffect handle_quit handle_quit-KeepsDatabase, tt),
                  ),
                ),
              ),
            ),
          ),
        ),
      ),
    ),
  ),
)

-- A name without a handler has no effect.
effect-unknown :
    (now : Timestamp) (until : Option Timestamp) (name : Bytes) (arguments : List Bytes)
    (m : Table Bytes)
    → lookup name command_handlers ≡ none
    → effect now until name arguments m ≡ m
unfolding effect command_handlers
effect-unknown now until name arguments m h =
    let other = lookup-none command_handlers name h in
    let set = other.1.1.1 in rw (set.0, set.1.0, set.1.1.0, set.1.1.1.1.1.1.0) refl

-- A command that throws nothing, with the deadline that the store computes.
pub dispatch-Becomes_wrapped :
    (calls : Calls) (command : Bytes) (arguments : List Bytes) (c c' : Context) (r : CommandResult)
    → IsValid c.m_database.m_store
    → dispatch calls (command ∷ arguments) c ≡ (c', ok r)
    → Becomes c.m_database.m_store
        (effect
          (calls 0).0
          (deadline (calls 0).0 c.m_database.m_store.m_ttl none)
          (uppercase command)
          (command ∷ arguments)
          (table c.m_database.m_store))
        c'.m_database.m_store
unfolding dispatch
dispatch-Becomes_wrapped calls command arguments c c' r v h =
    elim (Option-cases (lookup (uppercase command) command_handlers)) [
      | inl unknown ↦
          rw
            (effect-unknown (calls 0).0 (deadline (calls 0).0 c.m_database.m_store.m_ttl none)
              (uppercase command) (command ∷ arguments) (table c.m_database.m_store) unknown)
            (unchanged c c' v (sym (ap (λ p. p.0.m_database) (rw (unknown, run_handler) at h))))
      | inr (handler, found) ↦
          lookup-All HasEffect command_handlers (uppercase command) handler All-HasEffect found
            calls (command ∷ arguments) (uppercase command) c c' r v (rw (found, run_handler) at h)
    ]

-- The deadline of an entry that is set at a time, as a number without bounds.
abbrev pub deadline_from : Timestamp → Timestamp → Option Timestamp
deadline_from now ttl = if limited ttl then some (now +ℤ ttl) else none

-- In a valid store, if the clock plus the time to live is a 64-bit number, a command that
-- throws nothing leaves a valid store with the same time to live, whose table is that of before
-- with the abstract effect of the command: SET puts its entry with the sum of the two as its
-- deadline where there is a time to live, DEL takes its keys away, RENAME moves a live entry
-- with its deadline, FLUSHDB empties the table, and every other name and every wrong number of
-- arguments changes nothing.
pub dispatch-Becomes :
    (calls : Calls) (command : Bytes) (arguments : List Bytes) (c c' : Context) (r : CommandResult)
    → IsValid c.m_database.m_store
    → InRange ((calls 0).0 +ℤ c.m_database.m_store.m_ttl)
    → dispatch calls (command ∷ arguments) c ≡ (c', ok r)
    → Becomes c.m_database.m_store
        (effect
          (calls 0).0
          (deadline_from (calls 0).0 c.m_database.m_store.m_ttl)
          (uppercase command)
          (command ∷ arguments)
          (table c.m_database.m_store))
        c'.m_database.m_store
dispatch-Becomes calls command arguments c c' r v range h =
    subst
      (λ t.
        Becomes c.m_database.m_store
          (effect (calls 0).0 (if limited c.m_database.m_store.m_ttl then some t else none)
            (uppercase command) (command ∷ arguments) (table c.m_database.m_store))
          c'.m_database.m_store)
      (add_timestamps-sum (calls 0).0 c.m_database.m_store.m_ttl range)
      (dispatch-Becomes_wrapped calls command arguments c c' r v h)

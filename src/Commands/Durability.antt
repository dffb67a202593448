-- ===== src/Commands/Durability.antt =====
-- Commands on a durable database.
use radish.Shared.{
  ℕ, suc, Bool, List, [], ◌∷◌, ◌≡◌, refl, sym, Bytes, All, Result, ok, err, Option-cases, inl, inr,
  subst, if◌then◌else◌,
}
use radish.Dict.{lookup}
use radish.Binary.{string_value}
use radish.Database
use radish.Database.{RadishDb}
use radish.Database.Durable.{
  IsDurable, serve-IsDurable, create_request, rename_request, delete_request, clear_request,
}
use radish.Commands.{
  Context, Calls, CommandHandler, CommandResult, uppercase, replied, after_delete, delete_keys,
  handle_hello, handle_ping, handle_get, handle_set, handle_delete, handle_rename, handle_exists,
  handle_keys, handle_database_size, handle_flush_database, handle_quit, command_handlers,
  run_handler, dispatch,
}
use radish.Commands.Handlers.{lookup-All}
use radish.Commands.Reading.{
  KeepsDatabase, handle_hello-KeepsDatabase, handle_ping-KeepsDatabase, handle_get-KeepsDatabase,
  handle_exists-KeepsDatabase, handle_keys-KeepsDatabase, handle_database_size-KeepsDatabase,
  handle_quit-KeepsDatabase,
}

-- A handler that does not throw leaves a durable database durable.
abbrev KeepsDurable : CommandHandler → Type 0
KeepsDurable handler =
    (calls : Calls) (arguments : List Bytes) (name : Bytes) (c : Context) (r : CommandResult)
    → IsDurable c.m_database
    → (handler calls arguments name c).1 ≡ ok r
    → IsDurable (handler calls arguments name c).0.m_database

replied-IsDurable {ℓ} :
    {A : Type ℓ} (c : Context) (r : RadishDb Bytes × Result A) (reply : A → Bytes)
    (x : CommandResult)
    → ((a : A) → r.1 ≡ ok a → IsDurable r.0)
    → (replied c r reply).1 ≡ ok x
    → IsDurable (replied c r reply).0.m_database
unfolding replied
replied-IsDurable c (db, err e) reply x keep h = absurd (cc)
replied-IsDurable c (db, ok a) reply x keep h = keep a refl

handle_set-KeepsDurable : KeepsDurable handle_set
unfolding handle_set
handle_set-KeepsDurable calls (command ∷ key ∷ value ∷ []) name c r d h =
    replied-IsDurable c _ _ r
      (λ done. serve-IsDurable (calls 0).0 (calls 0).1 (create_request key value) c.m_database d) h
handle_set-KeepsDurable calls [] name c r d h = d
handle_set-KeepsDurable calls (command ∷ []) name c r d h = d
handle_set-KeepsDurable calls (command ∷ key ∷ []) name c r d h = d
handle_set-KeepsDurable calls (command ∷ key ∷ value ∷ more ∷ rest) name c r d h = d

handle_rename-KeepsDurable : KeepsDurable handle_rename
unfolding handle_rename
handle_rename-KeepsDurable calls (command ∷ old_key ∷ new_key ∷ []) name c r d h =
    replied-IsDurable c _ _ r
      (λ done.
        serve-IsDurable (calls 0).0 (calls 0).1 (rename_request old_key new_key) c.m_database d)
      h
handle_rename-KeepsDurable calls [] name c r d h = d
handle_rename-KeepsDurable calls (command ∷ []) name c r d h = d
handle_rename-KeepsDurable calls (command ∷ old_key ∷ []) name c r d h = d
handle_rename-KeepsDurable calls (command ∷ old_key ∷ new_key ∷ more ∷ rest) name c r d h = d

handle_flush_database-KeepsDurable : KeepsDurable handle_flush_database
unfolding handle_flush_database
handle_flush_database-KeepsDurable calls (command ∷ []) name c r d h =
    replied-IsDurable c _ _ r
      (λ done. serve-IsDurable (calls 0).0 (calls 0).1 clear_request c.m_database d) h
handle_flush_database-KeepsDurable calls [] name c r d h = d
handle_flush_database-KeepsDurable calls (command ∷ more ∷ rest) name c r d h = d

after_delete-IsDurable :
    (r : RadishDb Bytes × Result Bool) (loop : Bool → RadishDb Bytes → RadishDb Bytes × Result ℕ)
    (n : ℕ)
    → ((x : Bool) → r.1 ≡ ok x → IsDurable r.0)
    → ((x : Bool) (db : RadishDb Bytes)
        → IsDurable db
        → (loop x db).1 ≡ ok n
        → IsDurable (loop x db).0)
    → (after_delete r loop).1 ≡ ok n
    → IsDurable (after_delete r loop).0
unfolding after_delete
after_delete-IsDurable (db, err e) loop n p q h = absurd (cc)
after_delete-IsDurable (db, ok x) loop n p q h = q x db (p x refl) h

delete_keys-IsDurable :
    (calls : Calls) (index deleted : ℕ) (keys : List Bytes) (db : RadishDb Bytes) (n : ℕ)
    → IsDurable db
    → (delete_keys calls index deleted keys db).1 ≡ ok n
    → IsDurable (delete_keys calls index deleted keys db).0
unfolding delete_keys
delete_keys-IsDurable calls index deleted [] db n d h = d
delete_keys-IsDurable calls index deleted (key ∷ keys) db n d h =
    after_delete-IsDurable (Database.delete (calls index).0 (calls index).1 key db) _ n
      (λ x. serve-IsDurable (calls index).0 (calls index).1 (delete_request key) db d)
      (λ x db'.
        delete_keys-IsDurable calls (suc index) (if x then suc deleted else deleted) keys db' n)
      h

handle_delete-KeepsDurable : KeepsDurable handle_delete
unfolding handle_delete
handle_delete-KeepsDurable calls [] name c r d h = d
handle_delete-KeepsDurable calls (command ∷ []) name c r d h = d
handle_delete-KeepsDurable calls (command ∷ key ∷ keys) name c r d h =
    replied-IsDurable c _ _ r (λ n. delete_keys-IsDurable calls 1 0 (key ∷ keys) c.m_database n d) h

reading-KeepsDurable : (handler : CommandHandler) → KeepsDatabase handler → KeepsDurable handler
reading-KeepsDurable handler same calls arguments name c r d h =
    subst IsDurable (sym (same calls arguments name c)) d

All-KeepsDurable : All (λ p. KeepsDurable p.1) command_handlers
unfolding command_handlers
All-KeepsDurable = (
  reading-KeepsDurable handle_hello handle_hello-KeepsDatabase,
  (
    reading-KeepsDurable handle_ping handle_ping-KeepsDatabase,
    (
      reading-KeepsDurable handle_get handle_get-KeepsDatabase,
      (
        handle_set-KeepsDurable,
        (
          handle_delete-KeepsDurable,
          (
            handle_rename-KeepsDurable,
            (
              reading-KeepsDurable handle_exists handle_exists-KeepsDatabase,
              (
                reading-KeepsDurable handle_keys handle_keys-KeepsDatabase,
                (
                  reading-KeepsDurable handle_database_size handle_database_size-KeepsDatabase,
                  (
                    handle_flush_database-KeepsDurable,
                    (reading-KeepsDurable handle_quit handle_quit-KeepsDatabase, tt),
                  ),
                ),
              ),
            ),
          ),
        ),
      ),
    ),
  ),
)

-- A command that throws nothing keeps a durable database durable.
pub dispatch-IsDurable :
    (calls : Calls) (arguments : List Bytes) (c : Context) (r : CommandResult)
    → IsDurable c.m_database
    → (dispatch calls arguments c).1 ≡ ok r
    → IsDurable (dispatch calls arguments c).0.m_database
unfolding dispatch
dispatch-IsDurable calls [] c r d h = d
dispatch-IsDurable calls (command ∷ arguments) c r d h =
    elim (Option-cases (lookup (uppercase command) command_handlers)) [
      | inl unknown ↦ rw (unknown, run_handler) d
      | inr (handler, found) ↦
          rw (found, run_handler)
            (lookup-All (λ name. KeepsDurable) command_handlers (uppercase command) handler
              All-KeepsDurable found calls (command ∷ arguments) (uppercase command) c r d
              (rw (found, run_handler) at h))
    ]

-- ===== src/Commands/Total.antt =====
-- Commands whose database calls meet no fault.
use radish.Shared.{
  ℕ, suc, ◌<◌, Bool, false, List, [], ◌∷◌, ◌≡◌, refl, arith, Bytes, All, length, bytes_eq, codes,
  Result, ok, err, Option-cases, Bool-cases, inl, inr, if◌then◌else◌,
}
use radish.Dict.{lookup}
use radish.Binary.{string_value}
use radish.LogWriter.{no_fault}
use radish.Database
use radish.Database.{RadishDb}
use radish.RespCodec.RoundTrip.{IsBulk}
use radish.Commands.{
  Context, Calls, CommandHandler, CommandResult, uppercase, replied, after_delete, delete_keys,
  handle_hello, handle_ping, handle_get, handle_set, handle_delete, handle_rename, handle_exists,
  handle_keys, handle_database_size, handle_flush_database, handle_quit, command_handlers,
  run_handler, dispatch,
}
use radish.Commands.Handlers.{lookup-All}
use radish.Commands.Limits.{Returns, create-Returns, rename-Returns, delete-Returns, clear-Returns}

abbrev pub IsFaultless : Calls → Type 0
IsFaultless calls = (index : ℕ) → (calls index).1 ≡ no_fault

-- A handler that answers, where its arguments are within the limit of the parser.
abbrev AnswersAll : CommandHandler → Type 0
AnswersAll handler =
    (calls : Calls) (arguments : List Bytes) (name : Bytes) (c : Context)
    → IsFaultless calls
    → All IsBulk arguments
    → (r : CommandResult) × ((handler calls arguments name c).1 ≡ ok r)

replied-Returns {ℓ} :
    {A : Type ℓ} (c : Context) (r : RadishDb Bytes × Result A) (reply : A → Bytes)
    → Returns r
    → (x : CommandResult) × ((replied c r reply).1 ≡ ok x)
unfolding replied
replied-Returns c (db, err e) reply (a, h) = absurd (cc)
replied-Returns c (db, ok a) reply h = ((reply a, false), refl)

handle_hello-AnswersAll : AnswersAll handle_hello
unfolding handle_hello
handle_hello-AnswersAll calls [] name c w h = (_, refl)
handle_hello-AnswersAll calls (command ∷ []) name c w h = (_, refl)
handle_hello-AnswersAll calls (command ∷ version ∷ []) name c w h =
    elim (Bool-cases (bytes_eq version (codes "2"))) [
      | inl two ↦ rw two (_, refl)
      | inr other ↦ elim (Bool-cases (bytes_eq version (codes "3"))) [
        | inl three ↦ rw (other, three) (_, refl)
        | inr unsupported ↦ rw (other, unsupported) (_, refl)
      ]
    ]
handle_hello-AnswersAll calls (command ∷ version ∷ more ∷ rest) name c w h = (_, refl)

handle_ping-AnswersAll : AnswersAll handle_ping
unfolding handle_ping
handle_ping-AnswersAll calls [] name c w h = (_, refl)
handle_ping-AnswersAll calls (command ∷ []) name c w h = (_, refl)
handle_ping-AnswersAll calls (command ∷ message ∷ []) name c w h = (_, refl)
handle_ping-AnswersAll calls (command ∷ message ∷ more ∷ rest) name c w h = (_, refl)

handle_get-AnswersAll : AnswersAll handle_get
unfolding handle_get
handle_get-AnswersAll calls [] name c w h = (_, refl)
handle_get-AnswersAll calls (command ∷ []) name c w h = (_, refl)
handle_get-AnswersAll calls (command ∷ key ∷ []) name c w h = (_, refl)
handle_get-AnswersAll calls (command ∷ key ∷ more ∷ rest) name c w h = (_, refl)

handle_set-AnswersAll : AnswersAll handle_set
unfolding handle_set
handle_set-AnswersAll calls [] name c w h = (_, refl)
handle_set-AnswersAll calls (command ∷ []) name c w h = (_, refl)
handle_set-AnswersAll calls (command ∷ key ∷ []) name c w h = (_, refl)
handle_set-AnswersAll calls (command ∷ key ∷ value ∷ []) name c w h =
    replied-Returns c _ _
      (create-Returns (calls 0).0 (calls 0).1 (w 0) c.m_database key value h.1.0 h.1.1.0)
handle_set-AnswersAll calls (command ∷ key ∷ value ∷ more ∷ rest) name c w h = (_, refl)

after_delete-Returns :
    (r : RadishDb Bytes × Result Bool) (loop : Bool → RadishDb Bytes → RadishDb Bytes × Result ℕ)
    → Returns r
    → ((x : Bool) (db : RadishDb Bytes) → Returns (loop x db))
    → Returns (after_delete r loop)
unfolding after_delete
after_delete-Returns (db, err e) loop (x, h) k = absurd (cc)
after_delete-Returns (db, ok x) loop h k = k x db

delete_keys-Returns :
    (calls : Calls) (index deleted : ℕ) (keys : List Bytes) (db : RadishDb Bytes)
    → IsFaultless calls
    → All IsBulk keys
    → Returns (delete_keys calls index deleted keys db)
unfolding delete_keys
delete_keys-Returns calls index deleted [] db w h = (deleted, refl)
delete_keys-Returns calls index deleted (key ∷ keys) db w h =
    after_delete-Returns (Database.delete (calls index).0 (calls index).1 key db) _
      (delete-Returns (calls index).0 (calls index).1 (w index) db key h.0)
      (λ x db'.
        delete_keys-Returns calls (suc index) (if x then suc deleted else deleted) keys db' w h.1)

handle_delete-AnswersAll : AnswersAll handle_delete
unfolding handle_delete
handle_delete-AnswersAll calls [] name c w h = (_, refl)
handle_delete-AnswersAll calls (command ∷ []) name c w h = (_, refl)
handle_delete-AnswersAll calls (command ∷ key ∷ keys) name c w h =
    replied-Returns c _ _ (delete_keys-Returns calls 1 0 (key ∷ keys) c.m_database w h.1)

handle_rename-AnswersAll : AnswersAll handle_rename
unfolding handle_rename
handle_rename-AnswersAll calls [] name c w h = (_, refl)
handle_rename-AnswersAll calls (command ∷ []) name c w h = (_, refl)
handle_rename-AnswersAll calls (command ∷ old_key ∷ []) name c w h = (_, refl)
handle_rename-AnswersAll calls (command ∷ old_key ∷ new_key ∷ []) name c w h =
    replied-Returns c _ _
      (rename-Returns (calls 0).0 (calls 0).1 (w 0) c.m_database old_key new_key h.1.0 h.1.1.0)
handle_rename-AnswersAll calls (command ∷ old_key ∷ new_key ∷ more ∷ rest) name c w h = (_, refl)

handle_exists-AnswersAll : AnswersAll handle_exists
unfolding handle_exists
handle_exists-AnswersAll calls [] name c w h = (_, refl)
handle_exists-AnswersAll calls (command ∷ []) name c w h = (_, refl)
handle_exists-AnswersAll calls (command ∷ key ∷ keys) name c w h = (_, refl)

handle_keys-AnswersAll : AnswersAll handle_keys
unfolding handle_keys
handle_keys-AnswersAll calls [] name c w h = (_, refl)
handle_keys-AnswersAll calls (command ∷ []) name c w h = (_, refl)
handle_keys-AnswersAll calls (command ∷ pattern ∷ []) name c w h =
    elim (Bool-cases (bytes_eq pattern (codes "*"))) [
      | inl all ↦ rw all (_, refl)
      | inr other ↦ rw other (_, refl)
    ]
handle_keys-AnswersAll calls (command ∷ pattern ∷ more ∷ rest) name c w h = (_, refl)

handle_database_size-AnswersAll : AnswersAll handle_database_size
unfolding handle_database_size
handle_database_size-AnswersAll calls [] name c w h = (_, refl)
handle_database_size-AnswersAll calls (command ∷ []) name c w h = (_, refl)
handle_database_size-AnswersAll calls (command ∷ more ∷ rest) name c w h = (_, refl)

handle_flush_database-AnswersAll : AnswersAll handle_flush_database
unfolding handle_flush_database
handle_flush_database-AnswersAll calls [] name c w h = (_, refl)
handle_flush_database-AnswersAll calls (command ∷ []) name c w h =
    replied-Returns c _ _ (clear-Returns (calls 0).0 (calls 0).1 (w 0) c.m_database)
handle_flush_database-AnswersAll calls (command ∷ more ∷ rest) name c w h = (_, refl)

handle_quit-AnswersAll : AnswersAll handle_quit
unfolding handle_quit
handle_quit-AnswersAll calls [] name c w h = (_, refl)
handle_quit-AnswersAll calls (command ∷ []) name c w h = (_, refl)
handle_quit-AnswersAll calls (command ∷ more ∷ rest) name c w h = (_, refl)

All-AnswersAll : All (λ p. AnswersAll p.1) command_handlers
unfolding command_handlers
All-AnswersAll = (
  handle_hello-AnswersAll,
  (
    handle_ping-AnswersAll,
    (
      handle_get-AnswersAll,
      (
        handle_set-AnswersAll,
        (
          handle_delete-AnswersAll,
          (
            handle_rename-AnswersAll,
            (
              handle_exists-AnswersAll,
              (
                handle_keys-AnswersAll,
                (
                  handle_database_size-AnswersAll,
                  (handle_flush_database-AnswersAll, (handle_quit-AnswersAll, tt)),
                ),
              ),
            ),
          ),
        ),
      ),
    ),
  ),
)

-- A command with a name and arguments within the parser's limit is answered, where its database
-- calls meet no fault.
pub dispatch-answers :
    (calls : Calls) (arguments : List Bytes) (c : Context)
    → IsFaultless calls
    → 0 < length arguments
    → All IsBulk arguments
    → (r : CommandResult) × ((dispatch calls arguments c).1 ≡ ok r)
unfolding dispatch
dispatch-answers calls [] c w h k = absurd (omega arith)
dispatch-answers calls (command ∷ arguments) c w h k =
    elim (Option-cases (lookup (uppercase command) command_handlers)) [
      | inl unknown ↦ rw (unknown, run_handler) (_, refl)
      | inr (handler, found) ↦
          rw (found, run_handler)
            (lookup-All (λ name. AnswersAll) command_handlers (uppercase command) handler
              All-AnswersAll found calls (command ∷ arguments) (uppercase command) c w k)
    ]

-- ===== src/Commands/Reading.antt =====
-- The commands that only read.
use radish.Shared.{
  Bool, false, ◌||◌, List, [], ◌∷◌, ◌≡◌, refl, arith, Bytes, All, codes, bytes_eq, Option-cases,
  inl, inr,
}
use radish.Dict.{lookup}
use radish.Commands.{
  Context, Calls, CommandHandler, uppercase, handle_hello, handle_ping, handle_get, handle_exists,
  handle_keys, handle_database_size, handle_quit, command_handlers, run_handler, dispatch,
}
use radish.Commands.Handlers.{lookup-All}

abbrev pub KeepsDatabase : CommandHandler → Type 0
KeepsDatabase handler =
    (calls : Calls) (arguments : List Bytes) (name : Bytes) (c : Context)
    → (handler calls arguments name c).0.m_database ≡ c.m_database

pub handle_hello-KeepsDatabase : KeepsDatabase handle_hello
unfolding handle_hello
handle_hello-KeepsDatabase calls [] name c = refl
handle_hello-KeepsDatabase calls (command ∷ []) name c = refl
handle_hello-KeepsDatabase calls (command ∷ version ∷ []) name c = ground arith
handle_hello-KeepsDatabase calls (command ∷ version ∷ more ∷ rest) name c = refl

pub handle_ping-KeepsDatabase : KeepsDatabase handle_ping
unfolding handle_ping
handle_ping-KeepsDatabase calls [] name c = refl
handle_ping-KeepsDatabase calls (command ∷ []) name c = refl
handle_ping-KeepsDatabase calls (command ∷ message ∷ []) name c = refl
handle_ping-KeepsDatabase calls (command ∷ message ∷ more ∷ rest) name c = refl

pub handle_get-KeepsDatabase : KeepsDatabase handle_get
unfolding handle_get
handle_get-KeepsDatabase calls [] name c = refl
handle_get-KeepsDatabase calls (command ∷ []) name c = refl
handle_get-KeepsDatabase calls (command ∷ key ∷ []) name c = refl
handle_get-KeepsDatabase calls (command ∷ key ∷ more ∷ rest) name c = refl

pub handle_exists-KeepsDatabase : KeepsDatabase handle_exists
unfolding handle_exists
handle_exists-KeepsDatabase calls [] name c = refl
handle_exists-KeepsDatabase calls (command ∷ []) name c = refl
handle_exists-KeepsDatabase calls (command ∷ key ∷ keys) name c = refl

pub handle_keys-KeepsDatabase : KeepsDatabase handle_keys
unfolding handle_keys
handle_keys-KeepsDatabase calls [] name c = refl
handle_keys-KeepsDatabase calls (command ∷ []) name c = refl
handle_keys-KeepsDatabase calls (command ∷ pattern ∷ []) name c = ground arith
handle_keys-KeepsDatabase calls (command ∷ pattern ∷ more ∷ rest) name c = refl

pub handle_database_size-KeepsDatabase : KeepsDatabase handle_database_size
unfolding handle_database_size
handle_database_size-KeepsDatabase calls [] name c = refl
handle_database_size-KeepsDatabase calls (command ∷ []) name c = refl
handle_database_size-KeepsDatabase calls (command ∷ more ∷ rest) name c = refl

pub handle_quit-KeepsDatabase : KeepsDatabase handle_quit
unfolding handle_quit
handle_quit-KeepsDatabase calls [] name c = refl
handle_quit-KeepsDatabase calls (command ∷ []) name c = refl
handle_quit-KeepsDatabase calls (command ∷ more ∷ rest) name c = refl

-- The names of the commands that may change the database.
abbrev pub is_writing : Bytes → Bool
is_writing name =
    bytes_eq name (codes "SET")
    || bytes_eq name (codes "DEL")
    || bytes_eq name (codes "RENAME")
    || bytes_eq name (codes "FLUSHDB")

abbrev Reads : Bytes → CommandHandler → Type 0
Reads name handler = is_writing name ≡ false → KeepsDatabase handler

All-Reads : All (λ p. Reads p.0 p.1) command_handlers
unfolding command_handlers bytes_eq
All-Reads = (
  (λ h. handle_hello-KeepsDatabase),
  (
    (λ h. handle_ping-KeepsDatabase),
    (
      (λ h. handle_get-KeepsDatabase),
      (
        (λ h. absurd (cc)),
        (
          (λ h. absurd (cc)),
          (
            (λ h. absurd (cc)),
            (
              (λ h. handle_exists-KeepsDatabase),
              (
                (λ h. handle_keys-KeepsDatabase),
                (
                  (λ h. handle_database_size-KeepsDatabase),
                  ((λ h. absurd (cc)), ((λ h. handle_quit-KeepsDatabase), tt)),
                ),
              ),
            ),
          ),
        ),
      ),
    ),
  ),
)

-- A command whose name is not one of the writing ones leaves the database as it was.
pub dispatch-reads :
    (calls : Calls) (command : Bytes) (arguments : List Bytes) (c : Context)
    → is_writing (uppercase command) ≡ false
    → (dispatch calls (command ∷ arguments) c).0.m_database ≡ c.m_database
unfolding dispatch
dispatch-reads calls command arguments c h =
    elim (Option-cases (lookup (uppercase command) command_handlers)) [
      | inl unknown ↦ rw (unknown, run_handler) refl
      | inr (handler, found) ↦
          rw (found, run_handler)
            (lookup-All Reads command_handlers (uppercase command) handler All-Reads found h calls
              (command ∷ arguments) (uppercase command) c)
    ]

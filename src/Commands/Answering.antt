-- ===== src/Commands/Answering.antt =====
-- Every command gets the reply that the table of the store calls for.
use radish.Shared.{none, false, List, ◌∷◌, ◌≡◌, refl, Bytes, All, ok, Option-cases, inl, inr}
use radish.Dict.{lookup}
use radish.Binary.{string_value}
use radish.Store.Valid.{IsValid}
use radish.Store.Table.{table}
use radish.Commands.{
  Context, Calls, CommandResult, uppercase, command_handlers, run_handler, dispatch,
}
use radish.Commands.Handlers.{lookup-All, lookup-none}
use radish.Commands.Replies.{Replies, is_known, to_unknown}
use radish.Commands.Replies.Returning.{HasReply, returned}
use radish.Commands.Replies.Reading.{
  handle_hello-HasReply, handle_ping-HasReply, handle_get-HasReply, handle_exists-HasReply,
  handle_keys-HasReply, handle_database_size-HasReply, handle_quit-HasReply,
}
use radish.Commands.Replies.Writing.{
  handle_set-HasReply, handle_delete-HasReply, handle_rename-HasReply,
  handle_flush_database-HasReply,
}

All-HasReply : All (λ p. HasReply p.0 p.1) command_handlers
unfolding command_handlers
All-HasReply = (
  handle_hello-HasReply,
  (
    handle_ping-HasReply,
    (
      handle_get-HasReply,
      (
        handle_set-HasReply,
        (
          handle_delete-HasReply,
          (
            handle_rename-HasReply,
            (
              handle_exists-HasReply,
              (
                handle_keys-HasReply,
                (
                  handle_database_size-HasReply,
                  (handle_flush_database-HasReply, (handle_quit-HasReply, tt)),
                ),
              ),
            ),
          ),
        ),
      ),
    ),
  ),
)

-- A name without a handler is none of those that the server knows.
unknown_name : (name : Bytes) → lookup name command_handlers ≡ none → is_known name ≡ false
unfolding command_handlers
unknown_name name h =
    let (a, (b, (c, (d, (e, (f, (g, (i, (j, (k, (l, u))))))))))) =
      lookup-none command_handlers name h in
    rw (a, b, c, d, e, f, g, i, j, k, l) refl

-- In a valid store, a command that throws nothing is answered as the relation `Replies` has it
-- for its upper case name, its arguments, the version of the protocol, the clock and the table:
-- GET with the live value, DEL with how many of its keys had an entry when their turn came,
-- EXISTS with how many are live, each counted as often as it is named, KEYS * with a list that
-- has each live key once, DBSIZE with the length of such a list, and each refusal with its
-- error.
pub dispatch-Replies :
    (calls : Calls) (command : Bytes) (arguments : List Bytes) (c c' : Context) (r : CommandResult)
    → IsValid c.m_database.m_store
    → dispatch calls (command ∷ arguments) c ≡ (c', ok r)
    → Replies calls c.m_version
        (table c.m_database.m_store)
        (uppercase command)
        (command ∷ arguments)
        r
unfolding dispatch
dispatch-Replies calls command arguments c c' r v h =
    elim (Option-cases (lookup (uppercase command) command_handlers)) [
      | inl unknown ↦
          returned c c' _ r
            (to_unknown (uppercase command) (command ∷ arguments)
              (unknown_name (uppercase command) unknown))
            (rw (unknown, run_handler) at h)
      | inr (handler, found) ↦
          lookup-All HasReply command_handlers (uppercase command) handler All-HasReply found calls
            (command ∷ arguments) c c' r v (rw (found, run_handler) at h)
    ]

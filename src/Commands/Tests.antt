-- ===== src/Commands/Tests.antt =====
-- Instances of the theorems on the commands, from an empty database.
use radish.Binary.Numbers.{InRange}
use radish.Shared.{
  arith, ◌+ℤ◌, true, false, none, some, List, [], ◌∷◌, ◌≡◌, refl, Bytes, codes, bytes_eq, minus_one,
  pos, ok, if◌then◌else◌,
}
use radish.Dict.{lookup, insert}
use radish.Binary.{string_value, write_optional, write_container, le_bytes, to_bits}
use radish.Event.{serialize, serialize_fields, validate_type, to_tag}
use radish.Store
use radish.Store.{new_store, limited, new_expiry_timestamp}
use radish.Store.Valid.{new_store-IsValid}
use radish.LogReader.{header}
use radish.LogWriter.{no_fault, append, put_row, put_bytes, write_record, frame_bytes, apply_event}
use radish.Database
use radish.Database.{RadishDb, commit, apply_if, finish_commit, swap_in, append_if}
use radish.RespCodec.{resp2}
use radish.RespCodec.Replies.{simple_string, bulk_string}
use radish.Commands.{
  Context, Calls, CommandResult, uppercase, handle_set, replied, run_handler, command_handlers,
  dispatch,
}
use radish.Store.Table.{table}
use radish.Database.Tables.{Becomes}
use radish.Commands.Effects.{deadline_from, effect, dispatch-Becomes}
use radish.Commands.Replies.{Replies}
use radish.Commands.Answering.{dispatch-Replies}
use radish.Commands.SetGet.{gone, set_then_get}

abbrev new_context : Context
new_context = record {
  m_database = record {
    m_store = new_store minus_one;
    m_persistence = true;
    disk = record { log_file = some header; temporary_file = none };
  };
  m_version = resp2;
}

abbrev calls : Calls
calls index = (pos 5, no_fault)

abbrev set_command : List Bytes
set_command = codes "set" ∷ codes "k" ∷ codes "v" ∷ []

abbrev done : CommandResult
done = (simple_string (codes "OK"), false)

set_done : (dispatch calls set_command new_context).1 ≡ ok done
unfolding dispatch command_handlers uppercase run_handler handle_set replied Database.create commit
    apply_if finish_commit swap_in append_if append put_row put_bytes write_record frame_bytes
    serialize serialize_fields validate_type write_optional write_container le_bytes to_bits to_tag
    apply_event Store.create lookup insert bytes_eq limited new_expiry_timestamp Store.is_expired
set_done = refl

named : (uppercase (codes "set") ≡ codes "SET") × (uppercase (codes "gEt") ≡ codes "GET")
unfolding uppercase
named = (refl, refl)

in_range : InRange (pos 5 +ℤ minus_one)
unfolding ◌+ℤ◌
in_range = omega arith

set_then_get_example :
    dispatch calls (codes "gEt" ∷ codes "k" ∷ []) (dispatch calls set_command new_context).0 ≡ (
      (dispatch calls set_command new_context).0,
      ok (
        bulk_string (if gone (pos 5) (pos 5) minus_one then none else some (codes "v")) resp2,
        false,
      ),
    )
set_then_get_example =
    set_then_get calls calls (codes "set") (codes "gEt") (codes "k") (codes "v") new_context
      (dispatch calls set_command new_context).0 done named.0 named.1 (new_store-IsValid minus_one)
      in_range (λ i. ((dispatch calls set_command new_context).0, set_done i))

dispatch-Becomes_example :
    Becomes
      (new_store minus_one)
      (effect
        (pos 5)
        (deadline_from (pos 5) minus_one)
        (uppercase (codes "set"))
        set_command
        (table (new_store minus_one)))
      (dispatch calls set_command new_context).0.m_database.m_store
dispatch-Becomes_example =
    dispatch-Becomes calls (codes "set") (codes "k" ∷ codes "v" ∷ []) new_context
      (dispatch calls set_command new_context).0 done (new_store-IsValid minus_one) in_range
      (λ i. ((dispatch calls set_command new_context).0, set_done i))

dispatch-Replies_example :
    Replies calls resp2 (table (new_store minus_one)) (uppercase (codes "set")) set_command done
dispatch-Replies_example =
    dispatch-Replies calls (codes "set") (codes "k" ∷ codes "v" ∷ []) new_context
      (dispatch calls set_command new_context).0 done (new_store-IsValid minus_one)
      (λ i. ((dispatch calls set_command new_context).0, set_done i))

-- ===== src/Bench/Worker/Tests.antt =====
-- An instance of the theorem on what is preloaded.
use radish.Shared.{
  ◌++◌, ltb, true, ℕ, false, [], ◌∷◌, ◌≡◌, refl, arith, codes, minus_one, bytes_eq, ◌||◌, ok,
}
use radish.Decimal.{to_string, digits}
use radish.Bench.Options.{BenchOptions, default_bench_options}
use radish.Store.{new_store}
use radish.Dict.{lookup}
use radish.Database.{RadishDb}
use radish.RespCodec.Replies.{simple_string, sanitize_simple_value}
use radish.Commands.{Context, dispatch, command_handlers, uppercase, run_handler}
use radish.Session.Pipeline.{Answers, no_commands, next_command}
use radish.Store
use radish.Store.{limited, new_expiry_timestamp}
use radish.Store.Table.{table}
use radish.Store.Valid.{new_store-IsValid}
use radish.Binary.{string_value, write_optional, write_container, le_bytes, to_bits}
use radish.Event.{to_tag, validate_type, serialize_fields, serialize}
use radish.LogWriter.{put_bytes, frame_bytes, put_row, write_record, append, apply_event}
use radish.Database
use radish.Database.{commit, apply_if, finish_commit, swap_in, append_if}
use radish.Commands.{handle_set, replied}
use radish.Dict.{is_some, insert}
use radish.Decimal.RoundTrip.{length-to_string}
use radish.Bench.Worker.Preloading.{preload_commands, run_preload-stores}
use radish.Bench.Worker.{Stream, run_preload}
use radish.Bench.Connection.{pipeline_request}
use radish.Bench.Keys.{make_key, make_value, fill}
use radish.Bench.Keys.Distinct.{Fits}
use radish.Bench.Tests.{new_context, calls}

abbrev key_options : BenchOptions
key_options = record default_bench_options { preload = true; key_count = 1; value_size = 2 }

set_done :
    (dispatch (calls 0) (codes "SET" ∷ make_key 0 32 ∷ make_value 2 ∷ []) new_context).1
    ≡ ok (simple_string (codes "OK"), false)
unfolding dispatch command_handlers uppercase run_handler handle_set replied Database.create commit
    apply_if finish_commit swap_in append_if append put_row put_bytes write_record frame_bytes
    serialize serialize_fields validate_type write_optional write_container le_bytes to_bits to_tag
    apply_event Store.create lookup insert bytes_eq limited new_expiry_timestamp Store.is_expired
    make_key make_value fill to_string digits
set_done = refl

abbrev stored : Context
stored = (dispatch (calls 0) (codes "SET" ∷ make_key 0 32 ∷ make_value 2 ∷ []) new_context).0

abbrev set_answers :
    Answers calls 0 new_context
      (preload_commands key_options 1 0)
      1
      stored
      (simple_string (codes "OK") ∷ [])
set_answers = next_command (λ i. (stored, set_done i)) no_commands

abbrev replying : Stream
replying = record { sent = []; arriving = simple_string (codes "OK") ++ codes ":1" }

run_preload-stores_example :
    (run_preload key_options replying
      ≡ ok record {
        sent = [] ++ pipeline_request (preload_commands key_options 1 0);
        arriving = codes ":1";
      })
    × (is_some (table stored.m_database.m_store (make_key 0 32))
        ≡ (ltb 0 1 || is_some (table new_context.m_database.m_store (make_key 0 32))))
unfolding simple_string sanitize_simple_value
run_preload-stores_example =
    run_preload-stores key_options 0 replying (codes ":1") refl (omega arith) (omega arith)
      (omega arith) (fits 0) (λ j h. fits j) set_answers (new_store-IsValid minus_one) (omega arith)
      refl
  where
    fits : (j : ℕ) → Fits j 32
    fits j = omega (arith, length-to_string j)

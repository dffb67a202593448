-- ===== src/Bench/Workload/Succeeding.antt =====
-- The requests of the workloads: the server accepts them, and answers all but RENAME without an error.
use radish.Shared.{
  ℕ, ◌+◌, ◌*◌, ◌≤◌, Bool, true, false, not, ◌||◌, Option, some, none, List, [], ◌∷◌, ◌≡◌, ◌≢◌, refl,
  arith, Bytes, codes, bytes_eq, length, ok,
}
use radish.Dict.{lookup}
use radish.Store.Table.{Table}
use radish.Store.Valid.{IsValid}
use radish.RespCodec.{RespVersion, resp2, resp3, encode_bulk, max_bulk_length}
use radish.RespCodec.Replies.{simple_string, integer, bulk_string, array}
use radish.Commands.{Context, Calls, CommandResult, uppercase, dispatch, command_handlers}
use radish.Commands.Answering.{dispatch-Replies}
use radish.Commands.Replies.{
  Replies, takes, is_known, to_unknown, to_arity, to_hello_2, to_hello_3, to_hello_other, to_ping,
  to_ping_message, to_get, to_set, to_delete, to_rename, to_exists, to_keys, to_keys_other,
  to_database_size, to_flush_database, to_quit,
}
use radish.Session.Pipeline.{IsSendable}
use radish.Bench.Connection.Readable.{succeeded}
use radish.Bench.Options.{BenchOptions}
use radish.Bench.Keys.Distinct.{length-make_key, length-make_value}
use radish.Bench.Workload.Requests.{
  Requests, pings, sets, gets, misses, deletes, tests, sizes, lists, renames,
}

-- KEYS is asked for everything.
abbrev asks_all : Bytes → List Bytes → Bool
asks_all name (command ∷ pattern ∷ rest) =
    not (bytes_eq name (codes "KEYS")) || bytes_eq pattern (codes "*")
asks_all name _ = true

-- A command that cannot be answered with an error.
abbrev pub IsPlain : Bytes → List Bytes → Type 0
IsPlain name arguments =
    (is_known name ≡ true)
    × (takes name (length arguments) ≡ true)
    × (bytes_eq name (codes "HELLO") ≡ false)
    × (bytes_eq name (codes "RENAME") ≡ false)
    × (asks_all name arguments ≡ true)

bulk_string-succeeds :
    (value : Option Bytes) (version : RespVersion) → succeeded (bulk_string value version) ≡ true
unfolding succeeded bulk_string encode_bulk
bulk_string-succeeds none resp2 = refl
bulk_string-succeeds none resp3 = refl
bulk_string-succeeds (some value) version = refl

pub reply-succeeds :
    (calls : Calls) (version : RespVersion) (m : Table Bytes) (name : Bytes)
    (arguments : List Bytes) (r : CommandResult)
    → Replies calls version m name arguments r
    → IsPlain name arguments
    → succeeded r.0 ≡ true
unfolding succeeded simple_string integer array
reply-succeeds calls version m _ _ _ (to_unknown name arguments u) p = absurd (cc)
reply-succeeds calls version m _ _ _ (to_arity name arguments t) p = absurd (cc)
reply-succeeds calls version m _ _ _ (to_hello_2 command) p = absurd (unfold bytes_eq in cc)
reply-succeeds calls version m _ _ _ (to_hello_3 command) p = absurd (unfold bytes_eq in cc)
reply-succeeds calls version m _ _ _ (to_hello_other command asked u v) p =
    absurd (unfold bytes_eq in cc)
reply-succeeds calls version m _ _ _ (to_ping command) p = refl
reply-succeeds calls version m _ _ _ (to_ping_message command message) p =
    bulk_string-succeeds (some message) version
reply-succeeds calls version m _ _ _ (to_get command key) p = bulk_string-succeeds _ version
reply-succeeds calls version m _ _ _ (to_set command key value) p = refl
reply-succeeds calls version m _ _ _ (to_delete command key keys) p = refl
reply-succeeds calls version m _ _ _ (to_rename command old_key new_key) p =
    absurd (unfold bytes_eq in cc)
reply-succeeds calls version m _ _ _ (to_exists command key keys) p = refl
reply-succeeds calls version m _ _ _ (to_keys command names l) p = refl
reply-succeeds calls version m _ _ _ (to_keys_other command pattern u) p =
    absurd (unfold bytes_eq in cc)
reply-succeeds calls version m _ _ _ (to_database_size command names l) p = refl
reply-succeeds calls version m _ _ _ (to_flush_database command) p = refl
reply-succeeds calls version m _ _ _ (to_quit command) p = refl

IsPlain-request :
    (options : BenchOptions) (sequence : ℕ) (command : Bytes) (arguments : List Bytes)
    → Requests options sequence (command ∷ arguments)
    → options.workload ≢ codes "RENAME"
    → IsPlain (uppercase command) (command ∷ arguments)
unfolding bytes_eq uppercase command_handlers lookup
IsPlain-request options sequence _ _ (pings k) h = (refl, refl, refl, refl, refl)
IsPlain-request options sequence _ _ (sets index l k) h = (refl, refl, refl, refl, refl)
IsPlain-request options sequence _ _ (gets index l k) h = (refl, refl, refl, refl, refl)
IsPlain-request options sequence _ _ (misses index l m k) h = (refl, refl, refl, refl, refl)
IsPlain-request options sequence _ _ (deletes index l k) h = (refl, refl, refl, refl, refl)
IsPlain-request options sequence _ _ (tests index l k) h = (refl, refl, refl, refl, refl)
IsPlain-request options sequence _ _ (sizes k) h = (refl, refl, refl, refl, refl)
IsPlain-request options sequence _ _ (lists k) h = (refl, refl, refl, refl, refl)
IsPlain-request options sequence _ _ (renames index l k) h = absurd (h k)

-- What the server answers to a request of a workload other than RENAME is no error.
pub request-succeeds :
    (options : BenchOptions) (sequence : ℕ) (calls : Calls) (arguments : List Bytes)
    (c c' : Context) (r : CommandResult)
    → Requests options sequence arguments
    → options.workload ≢ codes "RENAME"
    → IsValid c.m_database.m_store
    → dispatch calls arguments c ≡ (c', ok r)
    → succeeded r.0 ≡ true
request-succeeds options sequence calls [] c c' r request h v answer = elim request [ ]
request-succeeds options sequence calls (command ∷ arguments) c c' r request h v answer =
    reply-succeeds calls c.m_version _ _ _ r
      (dispatch-Replies calls command arguments c c' r v answer)
      (IsPlain-request options sequence command arguments request h)

-- The server accepts the size of every request.
pub request-IsSendable :
    (options : BenchOptions) (sequence : ℕ) (arguments : List Bytes)
    → Requests options sequence arguments
    → options.key_size ≤ max_bulk_length
    → options.value_size ≤ max_bulk_length
    → IsSendable arguments
request-IsSendable options sequence _ (pings k) small light = omega arith
request-IsSendable options sequence _ (sets index l k) small light =
    omega (arith, length-make_key index options.key_size, length-make_value options.value_size)
request-IsSendable options sequence _ (gets index l k) small light =
    omega (arith, length-make_key index options.key_size)
request-IsSendable options sequence _ (misses index l m k) small light =
    omega (arith, length-make_key index options.key_size)
request-IsSendable options sequence _ (deletes index l k) small light =
    omega (arith, length-make_key index options.key_size)
request-IsSendable options sequence _ (tests index l k) small light =
    omega (arith, length-make_key index options.key_size)
request-IsSendable options sequence _ (sizes k) small light = omega arith
request-IsSendable options sequence _ (lists k) small light = omega arith
request-IsSendable options sequence _ (renames index l k) small light = omega (
  arith,
  length-make_key index options.key_size,
  length-make_key (options.key_count * 2 + sequence) options.key_size,
)

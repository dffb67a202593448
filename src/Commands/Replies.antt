-- ===== src/Commands/Replies.antt =====
-- The replies of the commands, in terms of the table of the store.
pub mod Returning
pub mod Reading
pub mod Writing
use radish.Shared.{
  ℕ, suc, ◌+◌, ◌==◌, ltb, Bool, true, false, ◌||◌, some, List, [], ◌∷◌, ◌++◌, ◌≡◌, Bytes, length,
  pos, codes, bytes_eq, if◌then◌else◌,
}
use radish.Dict.{is_some}
use radish.Binary.{string_value}
use radish.Store.{Timestamp}
use radish.Store.Table.{Table, remove, live}
use radish.Store.Scanning.{count}
use radish.RespCodec.{RespVersion, resp2, resp3}
use radish.RespCodec.Replies.{simple_string, error_reply, integer, bulk_string, array, hello}
use radish.Commands.{Calls, CommandResult}

-- How many arguments a command takes, its name among them.
abbrev pub takes : Bytes → ℕ → Bool
takes name n =
    if bytes_eq name (codes "PING")
    then n == 1 || n == 2
    else if bytes_eq name (codes "SET") || bytes_eq name (codes "RENAME")
    then n == 3
    else if bytes_eq name (codes "DEL") || bytes_eq name (codes "EXISTS")
    then ltb 1 n
    else if bytes_eq name (codes "HELLO")
        || bytes_eq name (codes "GET")
        || bytes_eq name (codes "KEYS")
    then n == 2
    else n == 1

abbrev pub number_of : Bool → ℕ
number_of b = if b then 1 else 0

-- How many of the keys are in the table, when each is taken away once it is counted.
abbrev pub count_deleted : List Bytes → Table Bytes → ℕ
count_deleted [] m = 0
count_deleted (key ∷ keys) m = number_of (is_some (m key)) + count_deleted keys (remove key m)

-- How many of the keys are live, each at the time of its call.
abbrev pub count_existing : Calls → ℕ → List Bytes → Table Bytes → ℕ
count_existing calls index [] m = 0
count_existing calls index (key ∷ keys) m =
    number_of (is_some (live (calls index).0 (m key))) + count_existing calls (suc index) keys m

-- Each live key once, and nothing else.
abbrev pub ListsLive : Timestamp → Table Bytes → List Bytes → Type 0
ListsLive now m keys = (key : Bytes) → count key keys ≡ number_of (is_some (live now (m key)))

-- The names that the server knows.
abbrev pub is_known : Bytes → Bool
is_known name =
    bytes_eq name (codes "HELLO")
    || bytes_eq name (codes "PING")
    || bytes_eq name (codes "GET")
    || bytes_eq name (codes "SET")
    || bytes_eq name (codes "DEL")
    || bytes_eq name (codes "RENAME")
    || bytes_eq name (codes "EXISTS")
    || bytes_eq name (codes "KEYS")
    || bytes_eq name (codes "DBSIZE")
    || bytes_eq name (codes "FLUSHDB")
    || bytes_eq name (codes "QUIT")

-- The reply to a command of the given upper case name.
pub data Replies (calls : Calls) (version : RespVersion) (m : Table Bytes)
    : Bytes → List Bytes → CommandResult → Type 0 where
  to_unknown :
      (name : Bytes) (arguments : List Bytes)
      → is_known name ≡ false
      → Replies calls version m name arguments
          (error_reply (codes "unknown command '" ++ (name ++ codes "'")), false)
  to_arity :
      (name : Bytes) (arguments : List Bytes)
      → takes name (length arguments) ≡ false
      → Replies calls version m name arguments (
        error_reply (codes "wrong number of arguments for '" ++ (name ++ codes "' command")),
        false,
      )
  to_hello_2 :
      (command : Bytes)
      → Replies calls version m (codes "HELLO") (command ∷ codes "2" ∷ []) (hello resp2, false)
  to_hello_3 :
      (command : Bytes)
      → Replies calls version m (codes "HELLO") (command ∷ codes "3" ∷ []) (hello resp3, false)
  to_hello_other :
      (command asked : Bytes)
      → bytes_eq asked (codes "2") ≡ false
      → bytes_eq asked (codes "3") ≡ false
      → Replies calls version m
          (codes "HELLO")
          (command ∷ asked ∷ [])
          (error_reply (codes "NOPROTO unsupported protocol version"), false)
  to_ping :
      (command : Bytes)
      → Replies calls version m (codes "PING") (command ∷ []) (simple_string (codes "PONG"), false)
  to_ping_message :
      (command message : Bytes)
      → Replies calls version m
          (codes "PING")
          (command ∷ message ∷ [])
          (bulk_string (some message) version, false)
  to_get :
      (command key : Bytes)
      → Replies calls version m
          (codes "GET")
          (command ∷ key ∷ [])
          (bulk_string (live (calls 0).0 (m key)) version, false)
  to_set :
      (command key value : Bytes)
      → Replies calls version m
          (codes "SET")
          (command ∷ key ∷ value ∷ [])
          (simple_string (codes "OK"), false)
  to_delete :
      (command key : Bytes) (keys : List Bytes)
      → Replies calls version m
          (codes "DEL")
          (command ∷ key ∷ keys)
          (integer (pos (count_deleted (key ∷ keys) m)), false)
  to_rename :
      (command old_key new_key : Bytes)
      → Replies calls version m (codes "RENAME") (command ∷ old_key ∷ new_key ∷ []) (
        if is_some (live (calls 0).0 (m old_key))
            then simple_string (codes "OK")
            else error_reply (codes "no such key"),
        false,
      )
  to_exists :
      (command key : Bytes) (keys : List Bytes)
      → Replies calls version m
          (codes "EXISTS")
          (command ∷ key ∷ keys)
          (integer (pos (count_existing calls 1 (key ∷ keys) m)), false)
  to_keys :
      (command : Bytes) (names : List Bytes)
      → ListsLive (calls 0).0 m names
      → Replies calls version m
          (codes "KEYS")
          (command ∷ codes "*" ∷ [])
          (array names version, false)
  to_keys_other :
      (command pattern : Bytes)
      → bytes_eq pattern (codes "*") ≡ false
      → Replies calls version m
          (codes "KEYS")
          (command ∷ pattern ∷ [])
          (error_reply (codes "only KEYS * is supported"), false)
  to_database_size :
      (command : Bytes) (names : List Bytes)
      → ListsLive (calls 0).0 m names
      → Replies calls version m
          (codes "DBSIZE")
          (command ∷ [])
          (integer (pos (length names)), false)
  to_flush_database :
      (command : Bytes)
      → Replies calls version m (codes "FLUSHDB") (command ∷ []) (simple_string (codes "OK"), false)
  to_quit :
      (command : Bytes)
      → Replies calls version m (codes "QUIT") (command ∷ []) (simple_string (codes "OK"), true)

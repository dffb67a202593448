-- ===== src/Commands.antt =====
-- The commands of a session, in src/network/TcpServer.cpp. The handlers touch two fields of the
-- session, its protocol version and the database, which make up a `Context` here.
pub mod Answering
pub mod Replies
pub mod Deleting
pub mod Effects
pub mod Handlers
pub mod Reading
pub mod SetGet
pub mod Limits
pub mod Total
pub mod Durability
mod Tests
use radish.Shared.{
  ℕ, suc, ◌-◌, Bool, true, false, ◌&&◌, Option, none, some, List, [], ◌∷◌, ◌++◌, Bytes, ℤ, pos, map,
  codes, leb, bytes_eq, if◌then◌else◌, Result, ok, err, undefined_behaviour,
}
use radish.Dict.{Dict, lookup}
use radish.Binary.{string_value}
use radish.Store.{Timestamp}
use radish.LogWriter.{Fault}
use radish.Database
use radish.Database.{RadishDb}
use radish.RespCodec.{RespVersion, resp2, resp3}
use radish.RespCodec.Replies.{simple_string, error_reply, integer, bulk_string, array, hello}

pub record Context : Type 0 where
  pub m_database : RadishDb Bytes
  pub m_version : RespVersion

-- The clock reading and the fault of each database call that a command makes, by the index of the
-- argument that the call is about, or 0.
abbrev pub Calls : Type 0
Calls = ℕ → Timestamp × Fault

-- The response, and whether to close behind it.
abbrev pub CommandResult : Type 0
CommandResult = Bytes × Bool

-- `std::toupper` of the "C" locale.
abbrev pub to_upper : ℕ → ℕ
to_upper c = if leb b'a' c && leb c b'z' then c - 32 else c

unfoldable pub uppercase : Bytes → Bytes
uppercase value = map to_upper value

unfoldable pub wrong_arity : Bytes → CommandResult
wrong_arity name =
    (error_reply (codes "wrong number of arguments for '" ++ (name ++ codes "' command")), false)

-- The response to what the database returned; what it threw goes on.
unfoldable pub replied {ℓ} :
    {A : Type ℓ}
    → Context
    → RadishDb Bytes × Result A
    → (A → Bytes)
    → Context × Result CommandResult
replied c (db, err e) reply = (record c { m_database = db }, err e)
replied c (db, ok a) reply = (record c { m_database = db }, ok (reply a, false))

-- A handler takes the arguments, the command's own name the first of them, and the upper case name.
abbrev pub CommandHandler : Type 0
CommandHandler = Calls → List Bytes → Bytes → Context → Context × Result CommandResult

unfoldable pub greet : RespVersion → Context → Context × Result CommandResult
greet version c = (record c { m_version = version }, ok (hello version, false))

unfoldable pub handle_hello : CommandHandler
unfolding greet
handle_hello calls (command ∷ version ∷ []) name c =
    if bytes_eq version (codes "2")
    then greet resp2 c
    else if bytes_eq version (codes "3")
    then greet resp3 c
    else (c, ok (error_reply (codes "NOPROTO unsupported protocol version"), false))
handle_hello calls _ name c = (c, ok (wrong_arity name))

unfoldable pub handle_ping : CommandHandler
handle_ping calls (command ∷ []) name c = (c, ok (simple_string (codes "PONG"), false))
handle_ping calls (command ∷ message ∷ []) name c =
    (c, ok (bulk_string (some message) c.m_version, false))
handle_ping calls _ name c = (c, ok (wrong_arity name))

unfoldable pub handle_get : CommandHandler
handle_get calls (command ∷ key ∷ []) name c =
    (c, ok (bulk_string (Database.get (calls 0).0 c.m_database key) c.m_version, false))
handle_get calls _ name c = (c, ok (wrong_arity name))

unfoldable pub handle_set : CommandHandler
unfolding replied
handle_set calls (command ∷ key ∷ value ∷ []) name c =
    replied c (Database.create (calls 0).0 (calls 0).1 key value c.m_database)
      (λ done. simple_string (codes "OK"))
handle_set calls _ name c = (c, ok (wrong_arity name))

unfoldable pub after_delete :
    RadishDb Bytes × Result Bool
    → (Bool → RadishDb Bytes → RadishDb Bytes × Result ℕ)
    → RadishDb Bytes × Result ℕ
after_delete (db, err e) loop = (db, err e)
after_delete (db, ok done) loop = loop done db

-- The loop over the arguments from `index` on.
unfoldable pub delete_keys : Calls → ℕ → ℕ → List Bytes → RadishDb Bytes → RadishDb Bytes × Result ℕ
unfolding after_delete
delete_keys calls index deleted [] db = (db, ok deleted)
delete_keys calls index deleted (key ∷ keys) db =
    after_delete (Database.delete (calls index).0 (calls index).1 key db)
      (λ done db'. delete_keys calls (suc index) (if done then suc deleted else deleted) keys db')

unfoldable pub handle_delete : CommandHandler
unfolding replied delete_keys
handle_delete calls (command ∷ key ∷ keys) name c =
    replied c (delete_keys calls 1 0 (key ∷ keys) c.m_database) (λ deleted. integer (pos deleted))
handle_delete calls _ name c = (c, ok (wrong_arity name))

-- False is an error response, not an exception.
abbrev pub rename_reply : Bool → Bytes
rename_reply true = simple_string (codes "OK")
rename_reply false = error_reply (codes "no such key")

unfoldable pub handle_rename : CommandHandler
unfolding replied
handle_rename calls (command ∷ old_key ∷ new_key ∷ []) name c =
    replied c (Database.rename (calls 0).0 (calls 0).1 old_key new_key c.m_database) rename_reply
handle_rename calls _ name c = (c, ok (wrong_arity name))

unfoldable pub exists_keys : Calls → ℕ → ℕ → List Bytes → RadishDb Bytes → ℕ
exists_keys calls index exists [] db = exists
exists_keys calls index exists (key ∷ keys) db =
    exists_keys calls (suc index)
      (if Database.exists (calls index).0 db key then suc exists else exists) keys db

unfoldable pub handle_exists : CommandHandler
unfolding exists_keys
handle_exists calls (command ∷ key ∷ keys) name c =
    (c, ok (integer (pos (exists_keys calls 1 0 (key ∷ keys) c.m_database)), false))
handle_exists calls _ name c = (c, ok (wrong_arity name))

unfoldable pub handle_keys : CommandHandler
handle_keys calls (command ∷ pattern ∷ []) name c =
    if bytes_eq pattern (codes "*")
    then (c, ok (array (Database.scan (calls 0).0 c.m_database) c.m_version, false))
    else (c, ok (error_reply (codes "only KEYS * is supported"), false))
handle_keys calls _ name c = (c, ok (wrong_arity name))

unfoldable pub handle_database_size : CommandHandler
handle_database_size calls (command ∷ []) name c =
    (c, ok (integer (pos (Database.size (calls 0).0 c.m_database)), false))
handle_database_size calls _ name c = (c, ok (wrong_arity name))

unfoldable pub handle_flush_database : CommandHandler
unfolding replied
handle_flush_database calls (command ∷ []) name c =
    replied c (Database.clear (calls 0).0 (calls 0).1 c.m_database)
      (λ done. simple_string (codes "OK"))
handle_flush_database calls _ name c = (c, ok (wrong_arity name))

unfoldable pub handle_quit : CommandHandler
handle_quit calls (command ∷ []) name c = (c, ok (simple_string (codes "OK"), true))
handle_quit calls _ name c = (c, ok (wrong_arity name))

unfoldable pub command_handlers : Dict CommandHandler
command_handlers =
    (codes "HELLO", handle_hello)
    ∷ (codes "PING", handle_ping)
    ∷ (codes "GET", handle_get)
    ∷ (codes "SET", handle_set)
    ∷ (codes "DEL", handle_delete)
    ∷ (codes "RENAME", handle_rename)
    ∷ (codes "EXISTS", handle_exists)
    ∷ (codes "KEYS", handle_keys)
    ∷ (codes "DBSIZE", handle_database_size)
    ∷ (codes "FLUSHDB", handle_flush_database)
    ∷ (codes "QUIT", handle_quit)
    ∷ []

unfoldable pub run_handler : Option CommandHandler → CommandHandler
run_handler (some handler) calls arguments name c = handler calls arguments name c
run_handler none calls arguments name c =
    (c, ok (error_reply (codes "unknown command '" ++ (name ++ codes "'")), false))

-- `arguments.front()` has no defined result on a command without arguments.
unfoldable pub dispatch : Calls → List Bytes → Context → Context × Result CommandResult
unfolding run_handler
dispatch calls [] c = (c, err undefined_behaviour)
dispatch calls (command ∷ arguments) c =
    run_handler (lookup (uppercase command) command_handlers) calls (command ∷ arguments)
      (uppercase command) c

-- ===== src/Commands/Replies/Reading.antt =====
-- The replies of the commands that only read.
use radish.Shared.{
  ℕ, suc, ◌+◌, List, [], ◌∷◌, ◌≡◌, refl, ap, ◌∙◌, arith, Bytes, codes, bytes_eq, bytes_eq_iff,
  Bool-cases, inl, inr, if◌then◌else◌,
}
use radish.Binary.{string_value}
use radish.Store
use radish.Store.{RadishStore, Timestamp}
use radish.Store.Valid.{IsValid}
use radish.Store.Table.{table, get-table, exists-table}
use radish.Store.Scanning.{count-scan, size-length}
use radish.Database
use radish.Database.{RadishDb}
use radish.RespCodec.{resp2, resp3}
use radish.Commands.{
  Calls, greet, exists_keys, handle_hello, handle_ping, handle_get, handle_exists, handle_keys,
  handle_database_size, handle_quit,
}
use radish.Commands.Replies.{
  number_of, count_existing, ListsLive, to_hello_2, to_hello_3, to_hello_other, to_ping,
  to_ping_message, to_get, to_exists, to_keys, to_keys_other, to_database_size, to_quit,
}
use radish.Commands.Replies.Returning.{HasReply, returned, refused}

pub handle_hello-HasReply : HasReply (codes "HELLO") handle_hello
unfolding handle_hello bytes_eq
handle_hello-HasReply calls [] c c' r v h = refused c c' r refl h
handle_hello-HasReply calls (command ∷ []) c c' r v h = refused c c' r refl h
handle_hello-HasReply calls (command ∷ asked ∷ []) c c' r v h =
    elim (Bool-cases (bytes_eq asked (codes "2"))) [
      | inl two ↦ rw ((bytes_eq_iff asked (codes "2")).0 two) (
          returned (record c { m_version = resp2 }) c' _ r (to_hello_2 command)
            (rw (two, greet) at h))
      | inr other ↦ elim (Bool-cases (bytes_eq asked (codes "3"))) [
        | inl three ↦ rw ((bytes_eq_iff asked (codes "3")).0 three) (
            returned (record c { m_version = resp3 }) c' _ r (to_hello_3 command)
              (rw (other, three, greet) at h))
        | inr unknown ↦
            returned c c' _ r (to_hello_other command asked other unknown)
              (rw (other, unknown) at h)
      ]
    ]
handle_hello-HasReply calls (command ∷ asked ∷ more ∷ rest) c c' r v h =
    refused c c' r (ground arith) h

pub handle_ping-HasReply : HasReply (codes "PING") handle_ping
unfolding handle_ping bytes_eq
handle_ping-HasReply calls [] c c' r v h = refused c c' r refl h
handle_ping-HasReply calls (command ∷ []) c c' r v h = returned c c' _ r (to_ping command) h
handle_ping-HasReply calls (command ∷ message ∷ []) c c' r v h =
    returned c c' _ r (to_ping_message command message) h
handle_ping-HasReply calls (command ∷ message ∷ more ∷ rest) c c' r v h =
    refused c c' r (ground arith) h

pub handle_get-HasReply : HasReply (codes "GET") handle_get
unfolding handle_get bytes_eq Database.get
handle_get-HasReply calls [] c c' r v h = refused c c' r refl h
handle_get-HasReply calls (command ∷ []) c c' r v h = refused c c' r refl h
handle_get-HasReply calls (command ∷ key ∷ []) c c' r v h =
    returned c c' _ r (to_get command key)
      (rw (get-table (calls 0).0 c.m_database.m_store v key) at h)
handle_get-HasReply calls (command ∷ key ∷ more ∷ rest) c c' r v h = refused c c' r (ground arith) h

pub from_zero : (n : ℕ) → 0 + n ≡ n
from_zero n = omega arith

exists_keys-count_existing :
    (calls : Calls) (index exists : ℕ) (keys : List Bytes) (db : RadishDb Bytes)
    → IsValid db.m_store
    → exists_keys calls index exists keys db
      ≡ exists + count_existing calls index keys (table db.m_store)
unfolding exists_keys Database.exists
exists_keys-count_existing calls index exists [] db v = omega arith
exists_keys-count_existing calls index exists (key ∷ keys) db v =
    exists_keys-count_existing calls (suc index)
      (if Store.exists (calls index).0 db.m_store key then suc exists else exists) keys db v
    ∙ (rw (exists-table (calls index).0 db.m_store v key) (ground arith))

pub handle_exists-HasReply : HasReply (codes "EXISTS") handle_exists
unfolding handle_exists bytes_eq
handle_exists-HasReply calls [] c c' r v h = refused c c' r refl h
handle_exists-HasReply calls (command ∷ []) c c' r v h = refused c c' r refl h
handle_exists-HasReply calls (command ∷ key ∷ keys) c c' r v h =
    returned c c' _ r (to_exists command key keys)
      (rw (exists_keys-count_existing calls 1 0 (key ∷ keys) c.m_database v ∙ from_zero _) at h)

ListsLive-scan :
    (now : Timestamp) (s : RadishStore Bytes)
    → IsValid s
    → ListsLive now (table s) (Store.scan now s)
ListsLive-scan now s v key = count-scan now s key v ∙ ap number_of (exists-table now s v key)

pub handle_keys-HasReply : HasReply (codes "KEYS") handle_keys
unfolding handle_keys bytes_eq Database.scan
handle_keys-HasReply calls [] c c' r v h = refused c c' r refl h
handle_keys-HasReply calls (command ∷ []) c c' r v h = refused c c' r refl h
handle_keys-HasReply calls (command ∷ pattern ∷ []) c c' r v h =
    elim (Bool-cases (bytes_eq pattern (codes "*"))) [
      | inl all ↦ rw ((bytes_eq_iff pattern (codes "*")).0 all) (
          returned c c' _ r
            (to_keys command (Store.scan (calls 0).0 c.m_database.m_store)
              (ListsLive-scan (calls 0).0 c.m_database.m_store v))
            (rw all at h))
      | inr other ↦ returned c c' _ r (to_keys_other command pattern other) (rw other at h)
    ]
handle_keys-HasReply calls (command ∷ key ∷ more ∷ rest) c c' r v h =
    refused c c' r (ground arith) h

pub handle_database_size-HasReply : HasReply (codes "DBSIZE") handle_database_size
unfolding handle_database_size bytes_eq Database.size
handle_database_size-HasReply calls [] c c' r v h = refused c c' r refl h
handle_database_size-HasReply calls (command ∷ []) c c' r v h =
    returned c c' _ r
      (to_database_size command (Store.scan (calls 0).0 c.m_database.m_store)
        (ListsLive-scan (calls 0).0 c.m_database.m_store v))
      (rw (size-length (calls 0).0 c.m_database.m_store) at h)
handle_database_size-HasReply calls (command ∷ more ∷ rest) c c' r v h =
    refused c c' r (ground arith) h

pub handle_quit-HasReply : HasReply (codes "QUIT") handle_quit
unfolding handle_quit bytes_eq
handle_quit-HasReply calls [] c c' r v h = refused c c' r refl h
handle_quit-HasReply calls (command ∷ []) c c' r v h = returned c c' _ r (to_quit command) h
handle_quit-HasReply calls (command ∷ more ∷ rest) c c' r v h = refused c c' r (ground arith) h

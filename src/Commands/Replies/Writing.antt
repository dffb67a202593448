-- ===== src/Commands/Replies/Writing.antt =====
-- The replies of the commands that write.
use radish.Shared.{
  Bool, true, false, [], ◌∷◌, ◌≡◌, refl, sym, ◌∙◌, arith, pos, codes, bytes_eq, if◌then◌else◌,
  subst,
}
use radish.Binary.{string_value}
use radish.Store.Table.{table}
use radish.Database
use radish.Database.{RadishDb}
use radish.Database.Tables.{rename-done}
use radish.RespCodec.Replies.{simple_string, error_reply, integer}
use radish.Commands.{
  rename_reply, delete_keys, handle_set, handle_delete, handle_rename, handle_flush_database,
}
use radish.Commands.Deleting.{delete_keys-count_deleted}
use radish.Commands.Replies.{Replies, to_set, to_delete, to_rename, to_flush_database}
use radish.Commands.Replies.Returning.{HasReply, refused, changed}
use radish.Commands.Replies.Reading.{from_zero}

pub handle_set-HasReply : HasReply (codes "SET") handle_set
unfolding handle_set bytes_eq
handle_set-HasReply calls [] c c' r v h = refused c c' r refl h
handle_set-HasReply calls (command ∷ []) c c' r v h = refused c c' r refl h
handle_set-HasReply calls (command ∷ key ∷ []) c c' r v h = refused c c' r refl h
handle_set-HasReply calls (command ∷ key ∷ value ∷ []) c c' r v h =
    changed c c' (Database.create (calls 0).0 (calls 0).1 key value c.m_database) _ r
      (λ x db done. to_set command key value) h
handle_set-HasReply calls (command ∷ key ∷ value ∷ more ∷ rest) c c' r v h =
    refused c c' r (ground arith) h

pub handle_delete-HasReply : HasReply (codes "DEL") handle_delete
unfolding handle_delete bytes_eq
handle_delete-HasReply calls [] c c' r v h = refused c c' r refl h
handle_delete-HasReply calls (command ∷ []) c c' r v h = refused c c' r refl h
handle_delete-HasReply calls (command ∷ key ∷ keys) c c' r v h =
    changed c c' (delete_keys calls 1 0 (key ∷ keys) c.m_database) (λ n. integer (pos n)) r
      (λ n db deleting.
        subst
          (λ n.
            Replies calls c.m_version (table c.m_database.m_store) (codes "DEL")
              (command ∷ key ∷ keys) (integer (pos n), false))
          (sym (from_zero _)
            ∙ delete_keys-count_deleted calls 1 0 n (key ∷ keys) c.m_database db v deleting)
          (to_delete command key keys))
      h

pub handle_rename-HasReply : HasReply (codes "RENAME") handle_rename
unfolding handle_rename bytes_eq
handle_rename-HasReply calls [] c c' r v h = refused c c' r refl h
handle_rename-HasReply calls (command ∷ []) c c' r v h = refused c c' r refl h
handle_rename-HasReply calls (command ∷ key ∷ []) c c' r v h = refused c c' r refl h
handle_rename-HasReply calls (command ∷ old_key ∷ new_key ∷ []) c c' r v h =
    changed c c' (Database.rename (calls 0).0 (calls 0).1 old_key new_key c.m_database) rename_reply
      r
      (λ x db renamed.
        subst
          (λ q.
            Replies calls c.m_version (table c.m_database.m_store) (codes "RENAME")
              (command ∷ old_key ∷ new_key ∷ []) (q, false))
          (reply x _
            (rename-done (calls 0).0 (calls 0).1 c.m_database db x v old_key new_key renamed))
          (to_rename command old_key new_key))
      h
  where
    reply :
        (x y : Bool)
        → x ≡ y
        → (if y then simple_string (codes "OK") else error_reply (codes "no such key"))
          ≡ rename_reply x
    reply true y e = rw (sym e) refl
    reply false y e = rw (sym e) refl
handle_rename-HasReply calls (command ∷ key ∷ value ∷ more ∷ rest) c c' r v h =
    refused c c' r (ground arith) h

pub handle_flush_database-HasReply : HasReply (codes "FLUSHDB") handle_flush_database
unfolding handle_flush_database bytes_eq
handle_flush_database-HasReply calls [] c c' r v h = refused c c' r refl h
handle_flush_database-HasReply calls (command ∷ []) c c' r v h =
    changed c c' (Database.clear (calls 0).0 (calls 0).1 c.m_database) _ r
      (λ x db done. to_flush_database command) h
handle_flush_database-HasReply calls (command ∷ more ∷ rest) c c' r v h =
    refused c c' r (ground arith) h

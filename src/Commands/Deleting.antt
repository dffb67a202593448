-- ===== src/Commands/Deleting.antt =====
-- The loop of DEL over its keys: what it takes away and what it counts.
use radish.Shared.{
  ℕ, suc, ◌+◌, Bool, true, false, List, [], ◌∷◌, ◌≡◌, refl, sym, ap, ◌∙◌, arith, Bytes, Result, ok,
  err, if◌then◌else◌, subst,
}
use radish.Dict.{is_some}
use radish.Binary.{string_value}
use radish.Store.{RadishStore}
use radish.Store.Valid.{IsValid}
use radish.Store.Table.{Table, table, remove}
use radish.Database
use radish.Database.{RadishDb}
use radish.Database.Tables.{Becomes, delete-Becomes, delete-done}
use radish.Commands.{Calls, after_delete, delete_keys}
use radish.Commands.Replies.{number_of, count_deleted}

abbrev pub remove_all : List Bytes → Table Bytes → Table Bytes
remove_all [] m = m
remove_all (key ∷ keys) m = remove_all keys (remove key m)

-- The first of two changes, and then the second.
Becomes-trans :
    (s t u : RadishStore Bytes) (m n : Table Bytes) → Becomes s m t → Becomes t n u → Becomes s n u
Becomes-trans s t u m n a b = record {
  valid = b.valid;
  same_ttl = b.same_ttl ∙ a.same_ttl;
  has_table = b.has_table;
}

after_delete-ok :
    {P : Type 0} (r : RadishDb Bytes × Result Bool)
    (loop : Bool → RadishDb Bytes → RadishDb Bytes × Result ℕ) (db' : RadishDb Bytes) (n : ℕ)
    → ((done : Bool) (db : RadishDb Bytes) → r ≡ (db, ok done) → loop done db ≡ (db', ok n) → P)
    → after_delete r loop ≡ (db', ok n)
    → P
unfolding after_delete
after_delete-ok (db, err e) loop db' n f h = absurd (cc)
after_delete-ok (db, ok done) loop db' n f h = f done db refl h

pub delete_keys-Becomes :
    (calls : Calls) (index deleted n : ℕ) (keys : List Bytes) (db db' : RadishDb Bytes)
    → IsValid db.m_store
    → delete_keys calls index deleted keys db ≡ (db', ok n)
    → Becomes db.m_store (remove_all keys (table db.m_store)) db'.m_store
unfolding delete_keys
delete_keys-Becomes calls index deleted n [] db db' v h =
    subst (λ s. Becomes db.m_store (table db.m_store) s) (ap (λ p. p.0.m_store) h)
      (record { valid = v; same_ttl = refl; has_table = refl })
delete_keys-Becomes calls index deleted n (key ∷ keys) db db' v h =
    after_delete-ok (Database.delete (calls index).0 (calls index).1 key db) _ db' n
      (λ done t deleting rest.
        let first = delete-Becomes (calls index).0 (calls index).1 db t done v key deleting in
        Becomes-trans db.m_store t.m_store db'.m_store _ _ first (
          subst (λ m. Becomes t.m_store (remove_all keys m) db'.m_store) first.has_table
            (delete_keys-Becomes calls (suc index) (if done then suc deleted else deleted) n keys t
              db' first.valid rest)))
      h

pub delete_keys-count_deleted :
    (calls : Calls) (index deleted n : ℕ) (keys : List Bytes) (db db' : RadishDb Bytes)
    → IsValid db.m_store
    → delete_keys calls index deleted keys db ≡ (db', ok n)
    → deleted + count_deleted keys (table db.m_store) ≡ n
unfolding delete_keys
delete_keys-count_deleted calls index deleted n [] db db' v h =
    let e : deleted ≡ n = cc h in omega (arith, e)
delete_keys-count_deleted calls index deleted n (key ∷ keys) db db' v h =
    after_delete-ok (Database.delete (calls index).0 (calls index).1 key db) _ db' n
      (λ done t deleting rest.
        let first = delete-Becomes (calls index).0 (calls index).1 db t done v key deleting in
        let behind =
          delete_keys-count_deleted calls (suc index) (if done then suc deleted else deleted) n keys
            t db' first.valid rest in
        counted done (is_some (table db.m_store key)) (count_deleted keys (table t.m_store))
          (count_deleted keys (remove key (table db.m_store)))
          (delete-done (calls index).0 (calls index).1 db t done v key deleting)
          (ap (count_deleted keys) first.has_table) behind)
      h
  where
    counted :
        (done x : Bool) (a b : ℕ)
        → done ≡ x
        → a ≡ b
        → (if done then suc deleted else deleted) + a ≡ n
        → deleted + (number_of x + b) ≡ n
    counted true x a b e f g = rw (sym e) (omega (arith, f, g))
    counted false x a b e f g = rw (sym e) (omega (arith, f, g))

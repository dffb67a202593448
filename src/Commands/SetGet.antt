-- ===== src/Commands/SetGet.antt =====
-- A value over the wire: SET and then GET.
use radish.Event.{create_event}
use radish.Shared.{
  sym, ◌∙◌, Bool, false, ◌&&◌, none, some, [], ◌∷◌, ◌≡◌, refl, sym, ap, ◌∙◌, arith, Bytes, codes,
  bytes_eq, bytes_eq_refl, leb_ℤ, ◌+ℤ◌, Result, ok, err, if◌then◌else◌,
}
use radish.Binary.Numbers.{InRange}
use radish.Dict.{lookup}
use radish.Binary.{string_value}
use radish.Store
use radish.Store.{RadishStore, Timestamp, limited, new_expiry_timestamp}
use radish.Store.Valid.{IsValid, create-IsValid}
use radish.Store.Table.{live, get-table, table-create, add_timestamps-sum}
use radish.LogWriter.{Disk, Fault, apply_event}
use radish.Database
use radish.Database.Applying.{commit-apply_event}
use radish.Database.{RadishDb, commit, finish_commit, swap_in, append_if}
use radish.RespCodec.Replies.{simple_string, bulk_string}
use radish.Commands.{
  Context, Calls, CommandResult, uppercase, replied, handle_get, handle_set, command_handlers,
  run_handler, dispatch,
}

pub m_store-swap_in :
    (db : RadishDb Bytes) (staged : RadishStore Bytes) (r : Disk × Result (Unit {0}))
    (db' : RadishDb Bytes) (x : Bool)
    → swap_in db staged r ≡ (db', ok x)
    → db'.m_store ≡ staged
unfolding swap_in Store.swap
m_store-swap_in db staged (disk, err e) db' x h = absurd (cc)
m_store-swap_in db staged (disk, ok u) db' x h = sym (ap (λ p. p.0.m_store) h)

-- The store behind a creation that did not throw.
m_store-create :
    (now : Timestamp) (fault : Fault) (key value : Bytes) (db db' : RadishDb Bytes) (x : Bool)
    → Database.create now fault key value db ≡ (db', ok x)
    → db'.m_store
      ≡ (Store.create now db.m_store key value (some (new_expiry_timestamp now db.m_store))).0
unfolding Database.create finish_commit apply_event
m_store-create now fault key value db db' x h = m_store-swap_in db _ _ db' x (
    sym (
      commit-apply_event now fault (create_event (new_expiry_timestamp now db.m_store) key value)
        db)
    ∙ h)

dispatched_set :
    (calls : Calls) (command key value : Bytes) (c : Context)
    → uppercase command ≡ codes "SET"
    → dispatch calls (command ∷ key ∷ value ∷ []) c
      ≡ replied c
          (Database.create (calls 0).0 (calls 0).1 key value c.m_database)
          (λ done. simple_string (codes "OK"))
unfolding dispatch command_handlers lookup bytes_eq run_handler handle_set
dispatched_set calls command key value c e =
    ap
      (λ name. run_handler (lookup name command_handlers) calls (command ∷ key ∷ value ∷ []) name c)
      e

dispatched_get :
    (calls : Calls) (command key : Bytes) (c : Context)
    → uppercase command ≡ codes "GET"
    → dispatch calls (command ∷ key ∷ []) c
      ≡ (c, ok (bulk_string (Database.get (calls 0).0 c.m_database key) c.m_version, false))
unfolding dispatch command_handlers lookup bytes_eq run_handler handle_get
dispatched_get calls command key c e =
    ap (λ name. run_handler (lookup name command_handlers) calls (command ∷ key ∷ []) name c) e

pub replied-ok :
    (c c' : Context) (r : RadishDb Bytes × Result Bool) (reply : Bool → Bytes) (x : CommandResult)
    → replied c r reply ≡ (c', ok x)
    → (a : Bool) × (r ≡ (c'.m_database, ok a)) × (c'.m_version ≡ c.m_version)
unfolding replied
replied-ok c c' (db, err e) reply x h = absurd (cc)
replied-ok c c' (db, ok a) reply x h =
    (a, ap (λ p. (p.0.m_database, ok a)) h, sym (ap (λ p. p.0.m_version) h))

-- Whether a value that was set at `now` is gone at `later`.
abbrev pub gone : Timestamp → Timestamp → Timestamp → Bool
gone now later ttl = limited ttl && leb_ℤ (now +ℤ ttl) later

get-create :
    (now later : Timestamp) (s : RadishStore Bytes) (key value : Bytes)
    → IsValid s
    → InRange (now +ℤ s.m_ttl)
    → Store.get later (Store.create now s key value (some (new_expiry_timestamp now s))).0 key
      ≡ (if gone now later s.m_ttl then none else some value)
unfolding new_expiry_timestamp
get-create now later s key value v range =
    get-table later _ (create-IsValid now s key value (some (new_expiry_timestamp now s)) v) key
    ∙ ap (λ t. live later (t key))
        (table-create now s v key value (some (new_expiry_timestamp now s)))
    ∙ (rw (bytes_eq_refl key, add_timestamps-sum now s.m_ttl range) (ground arith))

-- In a valid store, if the clock plus the time to live is a 64-bit number, under any spelling
-- of the commands, a GET of a key behind a SET of it that did not throw answers with the value,
-- or with none if the deadline of the SET has passed at the time of the GET.
pub set_then_get :
    (calls calls' : Calls) (set get key value : Bytes) (c c' : Context) (r : CommandResult)
    → uppercase set ≡ codes "SET"
    → uppercase get ≡ codes "GET"
    → IsValid c.m_database.m_store
    → InRange ((calls 0).0 +ℤ c.m_database.m_store.m_ttl)
    → dispatch calls (set ∷ key ∷ value ∷ []) c ≡ (c', ok r)
    → dispatch calls' (get ∷ key ∷ []) c' ≡ (
      c',
      ok (
        bulk_string
            (if gone (calls 0).0 (calls' 0).0 c.m_database.m_store.m_ttl then none else some value)
            c.m_version,
        false,
      ),
    )
set_then_get calls calls' set get key value c c' r p q v range h =
    let (x, stored, version) =
      replied-ok c c' _ _ r (sym (dispatched_set calls set key value c p) ∙ h) in
    dispatched_get calls' get key c' q
    ∙ ap (λ o. (c', ok (bulk_string o c'.m_version, false)))
        (got (calls' 0).0 c'.m_database
          ∙ ap (λ s. Store.get (calls' 0).0 s key)
              (m_store-create (calls 0).0 (calls 0).1 key value c.m_database c'.m_database x stored)
          ∙ get-create (calls 0).0 (calls' 0).0 c.m_database.m_store key value v range)
    ∙ ap
        (λ w. (
          c',
          ok (
            bulk_string
                (if gone (calls 0).0 (calls' 0).0 c.m_database.m_store.m_ttl
                  then none
                  else some value)
                w,
            false,
          ),
        ))
        version
  where
    got :
        (now : Timestamp) (db : RadishDb Bytes)
        → Database.get now db key ≡ Store.get now db.m_store key
    got now db = unfold Database.get in refl

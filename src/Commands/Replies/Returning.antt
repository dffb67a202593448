-- ===== src/Commands/Replies/Returning.antt =====
-- What the reply of a handler is made from.
use radish.Shared.{false, List, ◌≡◌, refl, Bytes, length, Result, ok, err, subst}
use radish.Binary.{string_value}
use radish.Store.Valid.{IsValid}
use radish.Store.Table.{Table, table}
use radish.Database.{RadishDb}
use radish.RespCodec.{RespVersion}
use radish.Commands.{Context, Calls, CommandHandler, CommandResult, wrong_arity, replied}
use radish.Commands.Replies.{takes, Replies, to_arity}

abbrev pub HasReply : Bytes → CommandHandler → Type 0
HasReply name handler =
    (calls : Calls) (arguments : List Bytes) (c c' : Context) (r : CommandResult)
    → IsValid c.m_database.m_store
    → handler calls arguments name c ≡ (c', ok r)
    → Replies calls c.m_version (table c.m_database.m_store) name arguments r

-- The reply that a handler returns.
pub returned :
    {calls : Calls} {version : RespVersion} {m : Table Bytes} {name : Bytes}
    {arguments : List Bytes} (d c' : Context) (q r : CommandResult)
    → Replies calls version m name arguments q
    → ◌≡◌ {A = Context × Result CommandResult} (d, ok q) (c', ok r)
    → Replies calls version m name arguments r
returned {calls} {version} {m} {name} {arguments} d c' q r p h =
    subst (Replies calls version m name arguments) (let e : q ≡ r = cc h in e) p

pub refused :
    {calls : Calls} {version : RespVersion} {m : Table Bytes} {name : Bytes}
    {arguments : List Bytes} (d c' : Context) (r : CommandResult)
    → takes name (length arguments) ≡ false
    → ◌≡◌ {A = Context × Result CommandResult} (d, ok (wrong_arity name)) (c', ok r)
    → Replies calls version m name arguments r
unfolding wrong_arity
refused {name = name} {arguments} d c' r t h = returned d c' _ r (to_arity name arguments t) h

-- The reply to a change of the database.
pub changed :
    {calls : Calls} {version : RespVersion} {m : Table Bytes} {name : Bytes}
    {arguments : List Bytes} {A : Type 0} (c c' : Context) (result : RadishDb Bytes × Result A)
    (reply : A → Bytes) (r : CommandResult)
    → ((a : A) (db : RadishDb Bytes)
        → result ≡ (db, ok a)
        → Replies calls version m name arguments (reply a, false))
    → replied c result reply ≡ (c', ok r)
    → Replies calls version m name arguments r
unfolding replied
changed c c' (db, err e) reply r p h = absurd (cc)
changed c c' (db, ok a) reply r p h = returned (record c { m_database = db }) c' _ r (p a db refl) h

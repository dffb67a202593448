-- ===== src/Database/Durable.antt =====
-- A restart of a database without a time to live, from its log.
pub mod Failure
pub mod Compaction
pub mod Deadlines
pub mod Enabling
mod Tests
use radish.Shared.{
  subst, Bool, true, false, some, List, [], ◌∷◌, ◌++◌, ◌≡◌, refl, ap, ◌∙◌, sym, arith, Bytes, map,
  minus_one, Result, ok, err, ◌>>=◌, >>=-eq-ok, Option, bytes_eq_refl,
}
use radish.Binary.{BinaryValue, read_exact}
use radish.Binary.Numbers.{InRange, read_exact-append}
use radish.Store
use radish.Store.{RadishStore, Timestamp, limited, new_store, new_expiry_timestamp}
use radish.Store.Valid.{IsValid}
use radish.Event.{RadishEvent, create_event, rename_event, delete_event, clear_event}
use radish.Event.RoundTrip.{IsReadBack, canonical}
use radish.LogReader.{header, get_events}
use radish.LogReader.Records.{Holds}
use radish.LogReader.Logs.{get_events-Holds}
use radish.LogWriter
use radish.LogWriter.{Disk, Fault, no_fault, append, apply_event, apply_events, ensure_initialized}
use radish.LogWriter.Appending.{append-Holds}
use radish.LogWriter.Reopening.{ensure_initialized-header}
use radish.LogWriter.Replaying.{
  apply_events-canonical, apply_events-append, apply_event_clock, apply_event-keeps,
}
use radish.Database.Applying.{commit-apply_event}
use radish.Database.{
  RadishDb, PersistenceMode, flush, swap_in, append_if, finish_commit, commit, create, rename,
  delete, clear, initialize, open_database,
}

-- The log holds whole records, and their events, applied at any time, give the store.
pub record IsDurable {ℓ} {V : Type ℓ} ⦃b : BinaryValue V⦄ (db : RadishDb V) : Type ℓ where
  pub events : List (RadishEvent V)
  pub body : Bytes
  pub logged : db.m_persistence ≡ true
  pub unlimited : limited db.m_store.m_ttl ≡ false
  pub valid : IsValid db.m_store
  pub holds : Holds events body
  pub file : db.disk.log_file ≡ some (header ++ body)
  pub replays :
      (now : Timestamp) → apply_events now (new_store db.m_store.m_ttl) events ≡ ok db.m_store

module _ {ℓ} {V : Type ℓ} ⦃b : BinaryValue V⦄ (now : Timestamp) (fault : Fault)
    (event : RadishEvent V) (range : InRange event.m_timestamp) where
  swap_in-IsDurable :
      (db : RadishDb V) (staged : RadishStore V) (r : Disk × Result (Unit {0})) {x : Bool}
      → IsDurable db
      → apply_event now db.m_store event ≡ ok (staged, true)
      → append_if db.m_persistence fault event db.disk ≡ r
      → (swap_in db staged r).1 ≡ ok x
      → IsDurable (swap_in db staged r).0
  unfolding swap_in append_if
  swap_in-IsDurable db staged (disk', err e) d applied logged h = absurd (cc)
  swap_in-IsDurable db staged (disk', ok u) d applied logged h =
      let appended : append fault event db.disk ≡ (disk', ok u) =
        ap (λ p. append_if p fault event db.disk) (sym d.logged) ∙ logged in
      let (valid, ttl) = apply_event-keeps now db.m_store event d.valid applied in
      let (body, holds, file) =
        append-Holds event fault db.disk d.holds d.file range (ap (λ r. r.1) appended) in
      record {
        events = d.events ++ event ∷ [];
        body = body;
        logged = d.logged;
        unlimited = rw ttl d.unlimited;
        valid = valid;
        holds = holds;
        file = sym (ap (λ r. r.0.log_file) appended) ∙ file;
        replays = λ later.
            ap (λ t. apply_events later (new_store t) (d.events ++ event ∷ [])) ttl
            ∙ apply_events-append later _ d.events event
            ∙ rw (
              d.replays later,
              apply_event_clock later now db.m_store event d.unlimited,
              applied,
            );
      }

  finish_commit-IsDurable :
      (db : RadishDb V) (r : Result (RadishStore V × Bool)) {x : Bool}
      → IsDurable db
      → apply_event now db.m_store event ≡ r
      → (finish_commit fault event db r).1 ≡ ok x
      → IsDurable (finish_commit fault event db r).0
  unfolding finish_commit
  finish_commit-IsDurable db (err e) d applied h = absurd (cc)
  finish_commit-IsDurable db (ok (staged, false)) d applied h = d
  finish_commit-IsDurable db (ok (staged, true)) d applied h =
      swap_in-IsDurable db staged (append_if db.m_persistence fault event db.disk) d applied refl h

  commit-IsDurable :
      (db : RadishDb V) {x : Bool}
      → IsDurable db
      → (commit now fault event db).1 ≡ ok x
      → IsDurable (commit now fault event db).0
  commit-IsDurable db {x} d =
      subst (λ r. r.1 ≡ ok x → IsDurable r.0) (sym (commit-apply_event now fault event db))
        (finish_commit-IsDurable db (apply_event now db.m_store event) d refl)

-- The requests that change a database.
pub data Request {ℓ} (V : Type ℓ) : Type ℓ where
  create_request : Bytes → V → Request V
  rename_request : Bytes → Bytes → Request V
  delete_request : Bytes → Request V
  clear_request : Request V

module _ {ℓ} {V : Type ℓ} ⦃b : BinaryValue V⦄ where
  abbrev pub serve : Timestamp → Fault → Request V → RadishDb V → RadishDb V × Result Bool
  serve now fault (create_request key value) = create now fault key value
  serve now fault (rename_request old_key new_key) = rename now fault old_key new_key
  serve now fault (delete_request key) = delete now fault key
  serve now fault clear_request = clear now fault

  pub serve-IsDurable :
      (now : Timestamp) (fault : Fault) (request : Request V) (db : RadishDb V) {x : Bool}
      → IsDurable db
      → (serve now fault request db).1 ≡ ok x
      → IsDurable (serve now fault request db).0
  serve-IsDurable now fault (create_request key value) db d h =
      unfold create new_expiry_timestamp in
      commit-IsDurable now fault (create_event (new_expiry_timestamp now db.m_store) key value)
        (rw d.unlimited (omega arith)) db d h
  serve-IsDurable now fault (rename_request old_key new_key) db d h =
      unfold rename in
      commit-IsDurable now fault (rename_event minus_one old_key new_key) (omega arith) db d h
  serve-IsDurable now fault (delete_request key) db d h =
      unfold delete in commit-IsDurable now fault (delete_event minus_one key) (omega arith) db d h
  serve-IsDurable now fault clear_request db d h =
      unfold clear in commit-IsDurable now fault (clear_event minus_one) (omega arith) db d h

  unfoldable pub go_on :
      RadishDb V × Result Bool
      → (RadishDb V → RadishDb V × Result (Unit {0}))
      → RadishDb V × Result (Unit {0})
  go_on (db, err e) loop = (db, err e)
  go_on (db, ok x) loop = loop db

  -- Requests one after another, each with its clock reading and its fault, up to the first that
  -- throws: the server does not go on after an exception.
  unfoldable pub serve_all :
      List (Timestamp × Fault × Request V) → RadishDb V → RadishDb V × Result (Unit {0})
  serve_all [] db = (db, ok tt)
  serve_all ((now, fault, request) ∷ rest) db = go_on (serve now fault request db) (serve_all rest)

  go_on-IsDurable :
      (r : RadishDb V × Result Bool) (loop : RadishDb V → RadishDb V × Result (Unit {0}))
      → ((x : Bool) → r.1 ≡ ok x → IsDurable r.0)
      → ((db : RadishDb V) → IsDurable db → (loop db).1 ≡ ok tt → IsDurable (loop db).0)
      → (go_on r loop).1 ≡ ok tt
      → IsDurable (go_on r loop).0
  unfolding go_on
  go_on-IsDurable (db, err e) loop p q h = absurd (cc)
  go_on-IsDurable (db, ok x) loop p q h = q db (p x refl) h

  pub serve_all-IsDurable :
      (requests : List (Timestamp × Fault × Request V)) (db : RadishDb V)
      → IsDurable db
      → (serve_all requests db).1 ≡ ok tt
      → IsDurable (serve_all requests db).0
  unfolding serve_all
  serve_all-IsDurable [] db d h = d
  serve_all-IsDurable ((now, fault, request) ∷ rest) db d h =
      go_on-IsDurable (serve now fault request db) (serve_all rest)
        (λ x. serve-IsDurable now fault request db d) (serve_all-IsDurable rest) h

module _ {ℓ} {V : Type ℓ} ⦃b : BinaryValue V⦄ (law : IsReadBack V) where
  pub replay-durable :
      (now : Timestamp) (db : RadishDb V)
      → IsDurable db
      → LogWriter.replay now (new_store db.m_store.m_ttl) db.disk ≡ ok db.m_store
  unfolding LogWriter.replay
  replay-durable now db d =
      ap (λ f. get_events f >>= apply_events now (new_store db.m_store.m_ttl)) d.file
      ∙ ap (λ r. r >>= apply_events now (new_store db.m_store.m_ttl)) (get_events-Holds law d.holds)
      ∙ apply_events-canonical now _ d.events
      ∙ d.replays now

  -- Opening the log of a durable database gives that database.
  pub reopen :
      (now : Timestamp) (db : RadishDb V)
      → IsDurable db
      → open_database now no_fault db.m_store.m_ttl flush db.disk ≡ (db.disk, ok db)
  unfolding open_database initialize
  reopen now db d =
      rw (ensure_initialized-header db.disk d.file, replay-durable now db d)
        (ap (λ p. (db.disk, ok (record db { m_persistence = p }))) (sym d.logged))

  -- Let the values be read back as they are written, and let a database be durable: it logs,
  -- it has no time to live, its store is valid, and its log holds whole records that lead to
  -- its store. After any requests of which none throws, opening its log without a fault, at
  -- any time, gives that very database and leaves the disk as it is.
  pub restart :
      (now : Timestamp) (requests : List (Timestamp × Fault × Request V)) (db : RadishDb V)
      → IsDurable db
      → (serve_all requests db).1 ≡ ok tt
      → open_database now no_fault
          (serve_all requests db).0.m_store.m_ttl
          flush
          (serve_all requests db).0.disk
        ≡ ((serve_all requests db).0.disk, ok (serve_all requests db).0)
  restart now requests db d h =
      reopen now (serve_all requests db).0 (serve_all-IsDurable requests db d h)

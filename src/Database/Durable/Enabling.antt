-- ===== src/Database/Durable/Enabling.antt =====
-- A log that was written without a time to live and is opened with one.
use radish.Shared.{
  ℕ, Bool, true, Option, none, some, List, [], ◌∷◌, ◌≡◌, refl, sym, ap, ◌∙◌, arith, Bytes, All, pos,
  minus_one, ok, ◌>>=◌, >>=-eq-ok,
}
use radish.Binary.{BinaryValue}
use radish.Event.{RadishEvent, EventType, create, rename, delete, clear, other}
use radish.Event.RoundTrip.{IsReadBack, event_of}
use radish.Store.{RadishStore, Timestamp, new_store, limited}
use radish.Store.Valid.{IsValid, new_store-IsValid}
use radish.Store.Table.{
  table, live, table-new_store, get-table, table-create, table-delete, table-clear, table-rename,
}
use radish.LogReader.{get_events}
use radish.LogReader.Logs.{get_events-Holds}
use radish.LogWriter
use radish.LogWriter.{Disk, no_fault, apply_event, apply_events}
use radish.LogWriter.Replaying.{apply_events-canonical, apply_event-keeps}
use radish.Database
use radish.Database.{RadishDb, flush, initialize, open_database}
use radish.LogWriter.Reopening.{ensure_initialized-header}
use radish.Database.Durable.{IsDurable}

module _ {ℓ} {V : Type ℓ} where
  -- No entry is live at any time.
  abbrev IsDead : RadishStore V → Type ℓ
  IsDead s =
      IsValid s
      × (limited s.m_ttl ≡ true)
      × ((now : ℕ) (key : Bytes) → live (pos now) (table s key) ≡ none)

  apply_case-IsDead :
      (type : EventType) (k r : Option Bytes) (p : Option V) (now : ℕ) (earlier : Timestamp)
      (s t : RadishStore V) {s' : RadishStore V} {x : Bool}
      → IsDead t
      → apply_event earlier s (event_of type minus_one k r p) ≡ ok (s', x)
      → (t' : RadishStore V) × (y : Bool) × (apply_event (pos now) t (event_of type minus_one k r p)
          ≡ ok (t', y))
        × ((later : ℕ) (key : Bytes) → live (pos later) (table t' key) ≡ none)
  unfolding apply_event
  apply_case-IsDead create none r p now earlier s t d h = absurd (cc)
  apply_case-IsDead create (some k) r none now earlier s t d h = absurd (cc)
  apply_case-IsDead create (some k) r (some v) now earlier s t (valid, on, dead) h = (
    _,
    _,
    refl,
    λ later key.
        ap (λ m. live (pos later) (m key)) (table-create (pos now) t valid k v (some minus_one))
        ∙ (rw on (ground (arith, dead later key))),
  )
  apply_case-IsDead rename none r p now earlier s t d h = absurd (cc)
  apply_case-IsDead rename (some k) none p now earlier s t d h = absurd (cc)
  apply_case-IsDead rename (some k) (some r) p now earlier s t (valid, on, dead) h = (
    _,
    _,
    refl,
    λ later key.
        ap (λ m. live (pos later) (m key)) (table-rename (pos now) t valid k r)
        ∙ rw (dead now k) (dead later key),
  )
  apply_case-IsDead delete none r p now earlier s t d h = absurd (cc)
  apply_case-IsDead delete (some k) r p now earlier s t (valid, on, dead) h = (
    _,
    _,
    refl,
    λ later key.
        ap (λ m. live (pos later) (m key)) (table-delete (pos now) t valid k)
        ∙ ground (arith, dead later key),
  )
  apply_case-IsDead clear k r p now earlier s t (valid, on, dead) h =
      (_, _, refl, λ later key. ap (λ m. live (pos later) (m key)) (table-clear (pos now) t valid))
  apply_case-IsDead (other n) k r p now earlier s t d h = absurd (cc)

  apply_event-IsDead :
      (e : RadishEvent V) (now : ℕ) (earlier : Timestamp) (s t : RadishStore V) {s' : RadishStore V}
      {x : Bool}
      → e.m_timestamp ≡ minus_one
      → IsDead t
      → apply_event earlier s e ≡ ok (s', x)
      → (t' : RadishStore V) × (y : Bool) × (apply_event (pos now) t e ≡ ok (t', y)) × IsDead t'
  apply_event-IsDead e now earlier s t {s'} {x} plain (valid, on, dead) h =
      let (t', y, applied, dead') =
        apply_case-IsDead e.m_type e.m_key e.m_rename_key e.m_payload now earlier s t
          (valid, on, dead) (sym (ap (apply_event earlier s) (undated plain)) ∙ h) in
      let applied' = ap (apply_event (pos now) t) (undated plain) ∙ applied in
      let (valid', ttl) = apply_event-keeps (pos now) t e valid applied' in
      (t', y, applied', (valid', ap limited ttl ∙ on, dead'))
    where
      undated :
          e.m_timestamp ≡ minus_one
          → e ≡ event_of e.m_type minus_one e.m_key e.m_rename_key e.m_payload
      undated plain i = event_of e.m_type (plain i) e.m_key e.m_rename_key e.m_payload

  apply_events-IsDead :
      (events : List (RadishEvent V)) (now : ℕ) (earlier : Timestamp) (s t : RadishStore V)
      {s' : RadishStore V}
      → All (λ (e : RadishEvent V). e.m_timestamp ≡ minus_one) events
      → IsDead t
      → apply_events earlier s events ≡ ok s'
      → (t' : RadishStore V) × (apply_events (pos now) t events ≡ ok t') × IsDead t'
  unfolding apply_events
  apply_events-IsDead [] now earlier s t plain d h = (t, refl, d)
  apply_events-IsDead (e ∷ events) now earlier s t plain d h =
      let (r, applied, rest) = >>=-eq-ok (apply_event earlier s e) _ h in
      let (t1, y, first, d1) = apply_event-IsDead e now earlier s t plain.0 d applied in
      let (t2, more, d2) = apply_events-IsDead events now earlier r.0 t1 plain.1 d1 rest in
      (t2, ap (λ q. q >>= (λ p. apply_events (pos now) p.0 events)) first ∙ more, d2)

module _ {ℓ} {V : Type ℓ} ⦃b : BinaryValue V⦄ (law : IsReadBack V) where
  replay-IsDead :
      (ttl : Timestamp) (now : ℕ) (db : RadishDb V) (d : IsDurable db)
      → limited ttl ≡ true
      → All (λ (e : RadishEvent V). e.m_timestamp ≡ minus_one) d.events
      → (s : RadishStore V) × (LogWriter.replay (pos now) (new_store ttl) db.disk ≡ ok s) × IsDead s
  unfolding LogWriter.replay
  replay-IsDead ttl now db d on plain =
      let (s, applied, dead) =
        apply_events-IsDead d.events now minus_one (new_store db.m_store.m_ttl) (new_store ttl)
          plain
          (new_store-IsValid ttl, on, λ later key. ap (live (pos later)) (table-new_store ttl key))
          (d.replays minus_one) in
      (
        s,
        ap (λ f. get_events f >>= apply_events (pos now) (new_store ttl)) d.file
            ∙ ap (λ r. r >>= apply_events (pos now) (new_store ttl)) (get_events-Holds law d.holds)
            ∙ apply_events-canonical (pos now) _ d.events
            ∙ applied,
        dead,
      )

  -- Let the values be read back as they are written. The log of a durable database, all of
  -- whose events are without a deadline, opens without a fault under a time to live, at any
  -- time from the epoch on; but the database that it gives has no value for any key, then or
  -- at any other such time.
  pub time_to_live_enabled :
      (ttl : Timestamp) (now : ℕ) (db : RadishDb V) (d : IsDurable db)
      → limited ttl ≡ true
      → All (λ (e : RadishEvent V). e.m_timestamp ≡ minus_one) d.events
      → (db' : RadishDb V) × (open_database (pos now) no_fault ttl flush db.disk
          ≡ (db.disk, ok db'))
        × ((later : ℕ) (key : Bytes) → Database.get (pos later) db' key ≡ none)
  unfolding open_database initialize Database.get
  time_to_live_enabled ttl now db d on plain =
      let (s, replayed, (valid, on', dead)) = replay-IsDead ttl now db d on plain in
      (
        record { m_store = s; m_persistence = true; disk = db.disk },
        rw (ensure_initialized-header db.disk d.file, replayed) refl,
        λ later key. get-table (pos later) s valid key ∙ dead later key,
      )

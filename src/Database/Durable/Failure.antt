-- ===== src/Database/Durable/Failure.antt =====
-- What a restart finds after a commit that threw.
use radish.Shared.{
  subst, true, false, List, [], ◌∷◌, ◌++◌, ◌≡◌, refl, ap, ◌∙◌, sym, ◌⊎◌, inl, inr, Result, ok, err,
  Exception, ◌>>=◌, map, Bool,
}
use radish.Binary.{BinaryValue}
use radish.Binary.Numbers.{InRange}
use radish.Store.{RadishStore, Timestamp, new_store}
use radish.Event.{RadishEvent}
use radish.Event.RoundTrip.{IsReadBack, canonical}
use radish.LogReader.{get_events}
use radish.LogWriter
use radish.LogWriter.{Disk, Fault, append, apply_event, apply_events}
use radish.LogWriter.Appending.{append_failed}
use radish.LogWriter.Replaying.{apply_events-canonical, apply_events-append, apply_event_clock}
use radish.Database.Applying.{commit-apply_event}
use radish.Database.{RadishDb, swap_in, append_if, finish_commit, commit}
use radish.Database.Durable.{IsDurable, replay-durable}

module _ {ℓ} {V : Type ℓ} ⦃b : BinaryValue V⦄ (law : IsReadBack V) (now later : Timestamp)
    (fault : Fault) (event : RadishEvent V) (range : InRange event.m_timestamp) (db : RadishDb V)
    (d : IsDurable db) where
  -- A replay of the disk gives the store of before, or that store with the event applied.
  abbrev pub Recovers : Disk → Type ℓ
  Recovers disk =
      (LogWriter.replay later (new_store db.m_store.m_ttl) disk ≡ ok db.m_store)
      ⊎ ((staged : RadishStore V) × (apply_event now db.m_store event ≡ ok (staged, true))
          × (LogWriter.replay later (new_store db.m_store.m_ttl) disk ≡ ok staged))

  replayed :
      (disk : Disk) (events : List (RadishEvent V))
      → get_events disk.log_file ≡ ok (map canonical events)
      → LogWriter.replay later (new_store db.m_store.m_ttl) disk
        ≡ apply_events later (new_store db.m_store.m_ttl) events
  unfolding LogWriter.replay
  replayed disk events e =
      ap (λ r. r >>= apply_events later (new_store db.m_store.m_ttl)) e
      ∙ apply_events-canonical later _ events

  swap_in_failed :
      (staged : RadishStore V) (r : Disk × Result (Unit {0})) {e : Exception}
      → apply_event now db.m_store event ≡ ok (staged, true)
      → append_if db.m_persistence fault event db.disk ≡ r
      → (swap_in db staged r).1 ≡ err e
      → Recovers (swap_in db staged r).0.disk
  unfolding swap_in append_if
  swap_in_failed staged (disk', ok u) applied logged h = absurd (cc)
  swap_in_failed staged (disk', err e) applied logged h =
      let appended : append fault event db.disk ≡ (disk', err e) =
        ap (λ p. append_if p fault event db.disk) (sym d.logged) ∙ logged in
      let same : (append fault event db.disk).0.log_file ≡ disk'.log_file =
        ap (λ r. r.0.log_file) appended in
      elim (append_failed event law fault db.disk d.holds d.file range (ap (λ r. r.1) appended)) [
        | inl old ↦ inl (replayed disk' d.events (ap get_events (sym same) ∙ old) ∙ d.replays later)
        | inr new ↦ inr (
          staged,
          applied,
          replayed disk' (d.events ++ event ∷ []) (ap get_events (sym same) ∙ new)
              ∙ apply_events-append later _ d.events event
              ∙ rw (
                d.replays later,
                apply_event_clock later now db.m_store event d.unlimited,
                applied,
              ),
        )
      ]

  finish_commit_failed :
      (r : Result (RadishStore V × Bool)) {e : Exception}
      → apply_event now db.m_store event ≡ r
      → (finish_commit fault event db r).1 ≡ err e
      → Recovers (finish_commit fault event db r).0.disk
  unfolding finish_commit
  finish_commit_failed (err e) applied h = inl (replay-durable law later db d)
  finish_commit_failed (ok (staged, false)) applied h = absurd (cc)
  finish_commit_failed (ok (staged, true)) applied h =
      swap_in_failed staged (append_if db.m_persistence fault event db.disk) applied refl h

  -- Let the values be read back as they are written. After a commit to a durable database
  -- that threw, for an event whose timestamp is a 64-bit number and whatever the fault left
  -- of the record in the file, a replay at any time gives the store of before the commit or
  -- that of after it, and no exception.
  pub commit_failed :
      {e : Exception}
      → (commit now fault event db).1 ≡ err e
      → Recovers (commit now fault event db).0.disk
  commit_failed {e} =
      subst (λ r. r.1 ≡ err e → Recovers r.0.disk) (sym (commit-apply_event now fault event db))
        (finish_commit_failed (apply_event now db.m_store event) refl)

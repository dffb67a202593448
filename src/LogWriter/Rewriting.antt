-- ===== src/LogWriter/Rewriting.antt =====
-- `RewriteHistory` and `Compact`: the new log, and the old one where something throws.
use radish.Shared.{
  false, some, List, [], ◌∷◌, ◌++◌, ◌≡◌, refl, ap, ◌∙◌, arith, Bytes, minus_one, Result, ok, err,
  ◌>>=◌, ◌>>◌, Exception, All,
}
use radish.Dict.{Dict}
use radish.Binary.{BinaryValue}
use radish.Binary.Numbers.{InRange}
use radish.Store.{RadishStore, Timestamp, limited, new_store}
use radish.Store.Valid.{new_store-IsValid}
use radish.Event.{RadishEvent, create_event}
use radish.Event.RoundTrip.{IsReadBack}
use radish.LogReader.{header, get_events}
use radish.LogReader.Records.{Holds, nothing, first}
use radish.LogReader.Logs.{get_events-Holds}
use radish.CompactStrategy.{EventsMap}
use radish.LogWriter.{
  Disk, Fault, no_fault, cannot_be_opened, short_write, collect, apply_events, write_record,
  put_record, write_records, replace_log, rewrite_history, rewrite_if, compact,
}
use radish.LogWriter.Appending.{write_record-IsRecord}
use radish.LogWriter.Entries.{creates, entries_of}
use radish.LogWriter.Compacting.{IsPlain, collect-plain}

replace_log_failed :
    (disk : Disk) (bytes : Bytes) (r : Result (Unit {0})) {e : Exception}
    → (replace_log disk bytes r).1 ≡ err e
    → (replace_log disk bytes r).0.log_file ≡ disk.log_file
unfolding replace_log
replace_log_failed disk bytes (err x) h = refl
replace_log_failed disk bytes (ok u) h = absurd (cc)

replace_log-ok :
    (disk : Disk) (bytes : Bytes) (written flushed : Result (Unit {0}))
    → (replace_log disk bytes (do written; flushed)).1 ≡ ok tt
    → (written ≡ ok tt)
      × (flushed ≡ ok tt)
      × ((replace_log disk bytes (do written; flushed)).0.log_file ≡ some bytes)
unfolding replace_log
replace_log-ok disk bytes (err e) flushed h = absurd (cc)
replace_log-ok disk bytes (ok u) (err e) h = absurd (cc)
replace_log-ok disk bytes (ok u) (ok w) h = (refl, refl, refl)

module _ {ℓ} (V : Type ℓ) ⦃b : BinaryValue V⦄ (now : Timestamp) where
  rewrite_failed :
      (fault : Fault) (disk : Disk) (survivors : Result (EventsMap V)) {e : Exception}
      → (rewrite_if V now fault disk survivors).1 ≡ err e
      → (rewrite_if V now fault disk survivors).0.log_file ≡ disk.log_file
  unfolding rewrite_if rewrite_history
  rewrite_failed fault disk (err x) h = refl
  rewrite_failed cannot_be_opened disk (ok m) h = refl
  rewrite_failed no_fault disk (ok m) h = replace_log_failed disk _ _ h
  rewrite_failed (short_write n) disk (ok m) h = replace_log_failed disk _ _ h

  -- A compaction that throws, at whatever point, has left the log as it was.
  pub compact_failed :
      (fault : Fault) (disk : Disk) {e : Exception}
      → (compact V now fault disk).1 ≡ err e
      → (compact V now fault disk).0.log_file ≡ disk.log_file
  unfolding compact
  compact_failed fault disk h = rewrite_failed fault disk _ h

module _ {ℓ} {V : Type ℓ} ⦃b : BinaryValue V⦄ (now : Timestamp) where
  put_record-Holds :
      (event : RadishEvent V) (events : List (RadishEvent V)) (row : Result Bytes)
      (rest : Bytes × Result (Unit {0}))
      → InRange event.m_timestamp
      → write_record event ≡ row
      → (rest.1 ≡ ok tt → Holds events rest.0)
      → (put_record row rest).1 ≡ ok tt
      → Holds (event ∷ events) (put_record row rest).0
  unfolding put_record
  put_record-Holds event events (err e) rest range w holds h = absurd (cc)
  put_record-Holds event events (ok bytes) (written, result) range w holds h =
      let (payload, r, e) = write_record-IsRecord event bytes range w in
      first r (holds h) (ap (λ x. x ++ written) e)

  -- The rewritten records of entries without deadlines are whole records, one for each entry.
  write_records-Holds :
      (m : Dict V)
      → (write_records now (entries_of m)).1 ≡ ok tt
      → Holds (creates m) (write_records now (entries_of m)).0
  unfolding write_records
  write_records-Holds [] h = nothing
  write_records-Holds ((k, v) ∷ m) h =
      put_record-Holds (create_event minus_one k v) (creates m)
        (write_record (create_event minus_one k v)) (write_records now (entries_of m)) (omega arith)
        refl (write_records-Holds m) h

  rewrite_history-ok :
      (fault : Fault) (m : Dict V) (disk : Disk)
      → (rewrite_history now fault (entries_of m) disk).1 ≡ ok tt
      → (body : Bytes) × Holds (creates m) body
        × ((rewrite_history now fault (entries_of m) disk).0.log_file ≡ some (header ++ body))
  unfolding rewrite_history
  rewrite_history-ok cannot_be_opened m disk h = absurd (cc)
  rewrite_history-ok (short_write n) m disk h =
      absurd (cc (replace_log-ok disk _ (write_records now (entries_of m)).1 _ h).1)
  rewrite_history-ok no_fault m disk h =
      let (written, flushed, file) =
        replace_log-ok disk _ (write_records now (entries_of m)).1 _ h in
      ((write_records now (entries_of m)).0, write_records-Holds m written, file)

  -- A compaction that succeeds on a log of whole records, of events without a deadline and
  -- with no rename of a key to itself, leaves a log of whole records: the events that create
  -- the entries of the store without a time to live that the old log led to. The values must
  -- be read back as they are written.
  pub compact-ok :
      (law : IsReadBack V) (later : Timestamp) (fault : Fault) (disk : Disk) (ttl : Timestamp)
      {events : List (RadishEvent V)} {body : Bytes} {s : RadishStore V}
      → limited ttl ≡ false
      → Holds events body
      → disk.log_file ≡ some (header ++ body)
      → All IsPlain events
      → apply_events later (new_store ttl) events ≡ ok s
      → (compact V now fault disk).1 ≡ ok tt
      → (body' : Bytes) × Holds (creates s.m_data) body'
        × ((compact V now fault disk).0.log_file ≡ some (header ++ body'))
  unfolding compact rewrite_if
  compact-ok law later fault disk ttl {events} {body} {s} off holds file plain applied h =
      let survivors : (do l ← get_events disk.log_file; collect now [] l)
          ≡ ok (entries_of s.m_data) =
        ap (λ f. get_events f >>= collect now []) file
        ∙ ap (λ r. r >>= collect now []) (get_events-Holds law holds)
        ∙ collect-plain later now (new_store ttl) s events off (new_store-IsValid ttl) plain
            applied in
      rw survivors (rewrite_history-ok fault s.m_data disk (rw survivors at h))

-- ===== src/LogWriter/Appending.antt =====
-- `Append` against `GetEvents`: what a write adds to what a reader finds.
use native.Mathlib.Decide.{dec_lt}
use radish.Shared.{
  zero, ◌⊎◌, inl, inr, Exception, ℕ, suc, ◌%◌, ◌^◌, ◌<◌, ◌≤◌, some, List, [], ◌∷◌, ◌++◌, ◌≡◌, refl,
  ap, ◌∙◌, arith, Bytes, length, map, take, Result, ok, err, >>=-eq-ok,
}
use radish.Binary.{BinaryValue, le_bytes}
use radish.Binary.Numbers.{InRange}
use radish.Event.{RadishEvent, serialize}
use radish.Event.RoundTrip.{IsReadBack, canonical}
use radish.LogReader.{get_events, header, max_record_size}
use radish.LogReader.Records.{frame, IsRecord, Holds, Holds-append}
use radish.LogReader.Logs.{get_events-Holds, get_events-torn}
use radish.LogWriter.{
  Disk, Fault, no_fault, cannot_be_opened, short_write, contents, write_record, append, frame_bytes,
  put_row,
}

take_all : (n : ℕ) (s : Bytes) → length s ≤ n → take n s ≡ s
take_all zero [] h = refl
take_all zero (c ∷ s) h = absurd (omega arith)
take_all (suc n) [] h = refl
take_all (suc n) (c ∷ s) h = ap (λ r. c ∷ r) (take_all n s (omega arith))

frame_bytes-ok :
    (payload bytes : Bytes)
    → frame_bytes payload ≡ ok bytes
    → (0 < length payload) × (length payload ≤ max_record_size) × (bytes ≡ frame payload)
unfolding frame_bytes
frame_bytes-ok payload bytes h =
    let n = length payload in
    let sized : (0 < n) × (n ≤ max_record_size) = ground arith in
    (sized.0, sized.1, ground (arith, ap (λ k. le_bytes 4 k ++ payload) (small n sized.1)))
  where
    small : (n : ℕ) → n ≤ max_record_size → n % 2 ^ 32 ≡ n
    small n h = omega arith

put_row-ok :
    (fault : Fault) (opened : Bytes) (disk : Disk) (row : Result Bytes)
    → (put_row fault opened disk row).1 ≡ ok tt
    → (bytes : Bytes) × (row ≡ ok bytes)
      × ((put_row fault opened disk row).0 ≡ record disk { log_file = some (opened ++ bytes) })
unfolding put_row
put_row-ok fault opened disk (err e) h = cc
put_row-ok no_fault opened disk (ok bytes) h = (bytes, refl, refl)
put_row-ok cannot_be_opened opened disk (ok bytes) h = (bytes, refl, refl)
put_row-ok (short_write n) opened disk (ok bytes) h = cc

module _ {ℓ} {V : Type ℓ} ⦃b : BinaryValue V⦄ (event : RadishEvent V) where
  -- A record that was written is a whole record of the reader's format.
  pub write_record-IsRecord :
      (bytes : Bytes)
      → InRange event.m_timestamp
      → write_record event ≡ ok bytes
      → (payload : Bytes) × IsRecord event payload × (bytes ≡ frame payload)
  unfolding write_record
  write_record-IsRecord bytes range h =
      let (payload, written, h₁) = >>=-eq-ok (serialize event) frame_bytes h in
      let (positive, small, e) = frame_bytes-ok payload bytes h₁ in
      (
        payload,
        record { written = written; not_empty = positive; fits = small; in_range = range },
        e,
      )

  -- A write that reports success has put one whole record behind the log.
  pub append-ok :
      (fault : Fault) (disk : Disk)
      → (append fault event disk).1 ≡ ok tt
      → (bytes : Bytes) × (write_record event ≡ ok bytes)
        × ((append fault event disk).0
            ≡ record disk { log_file = some (contents disk.log_file ++ bytes) })
  unfolding append
  append-ok cannot_be_opened disk h = cc
  append-ok no_fault disk h =
      put_row-ok no_fault (contents disk.log_file) disk (write_record event) h
  append-ok (short_write n) disk h =
      put_row-ok (short_write n) (contents disk.log_file) disk (write_record event) h

  -- After a write to a log of whole records that reports success, for an event whose
  -- timestamp is a 64-bit number, the log holds whole records of the old events and of the
  -- new one behind them.
  pub append-Holds :
      {events : List (RadishEvent V)} {body : Bytes} (fault : Fault) (disk : Disk)
      → Holds events body
      → disk.log_file ≡ some (header ++ body)
      → InRange event.m_timestamp
      → (append fault event disk).1 ≡ ok tt
      → (body' : Bytes) × Holds (events ++ event ∷ []) body'
        × ((append fault event disk).0.log_file ≡ some (header ++ body'))
  append-Holds {body} fault disk holds file range h =
      let (bytes, written, e) = append-ok fault disk h in
      let (payload, is_record, framed) = write_record-IsRecord bytes range written in
      (
        body ++ frame payload,
        Holds-append holds is_record,
        ap (λ (d : Disk). d.log_file) e
            ∙ ap (λ f. some (contents f ++ bytes)) file
            ∙ ap (λ x. some (header ++ (body ++ x))) framed,
      )

  put_row_failed :
      (law : IsReadBack V) {events : List (RadishEvent V)} {body : Bytes} (fault : Fault)
      (opened : Bytes) (disk : Disk) (row : Result Bytes) {e : Exception}
      → Holds events body
      → opened ≡ header ++ body
      → InRange event.m_timestamp
      → write_record event ≡ row
      → (put_row fault opened disk row).1 ≡ err e
      → (get_events (put_row fault opened disk row).0.log_file ≡ ok (map canonical events))
        ⊎ (get_events (put_row fault opened disk row).0.log_file
            ≡ ok (map canonical (events ++ event ∷ [])))
  unfolding put_row
  put_row_failed law fault opened disk (err x) holds o range w h =
      inl (rw o (get_events-Holds law holds))
  put_row_failed law no_fault opened disk (ok x) holds o range w h = absurd (cc)
  put_row_failed law cannot_be_opened opened disk (ok x) holds o range w h = absurd (cc)
  put_row_failed law (short_write n) opened disk (ok x) holds o range w h =
      let (payload, r, framed) = write_record-IsRecord x range w in
      elim (dec_lt n (length (frame payload))) [
        | yes short ↦
            inl (rw (o, framed) (get_events-torn law holds payload n r.not_empty r.fits short))
        | no long ↦ inr (
            rw (o, framed, take_all n (frame payload) (omega arith))
              (get_events-Holds law (Holds-append holds r)))
      ]

  -- After a write to a log of whole records that throws, the reader finds the events of
  -- before, or those and the new one, where all its bytes had reached the file. The values
  -- must be read back as they are written, and the timestamp must be a 64-bit number.
  pub append_failed :
      (law : IsReadBack V) {events : List (RadishEvent V)} {body : Bytes} (fault : Fault)
      (disk : Disk) {e : Exception}
      → Holds events body
      → disk.log_file ≡ some (header ++ body)
      → InRange event.m_timestamp
      → (append fault event disk).1 ≡ err e
      → (get_events (append fault event disk).0.log_file ≡ ok (map canonical events))
        ⊎ (get_events (append fault event disk).0.log_file
            ≡ ok (map canonical (events ++ event ∷ [])))
  unfolding append
  append_failed law cannot_be_opened disk holds file range h =
      inl (rw file (get_events-Holds law holds))
  append_failed law no_fault disk holds file range h =
      put_row_failed law no_fault (contents disk.log_file) disk (write_record event) holds
        (ap contents file) range refl h
  append_failed law (short_write n) disk holds file range h =
      put_row_failed law (short_write n) (contents disk.log_file) disk (write_record event) holds
        (ap contents file) range refl h

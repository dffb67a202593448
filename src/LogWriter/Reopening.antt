-- ===== src/LogWriter/Reopening.antt =====
-- The constructor of `LogWriter` on a log that is there, and what `Append` does behind a torn record.
use radish.Shared.{
  ℕ, ◌+◌, ◌*◌, ◌%◌, ◌^◌, ◌<◌, ◌≤◌, ◌==◌, ◌||◌, false, some, List, ◌++◌, ◌≡◌, refl, ap, ◌∙◌, sym,
  arith, Bytes, length, map, take, ltb, ok, err, write_failed, bytes_eq_refl, append_assoc, subst,
  Option,
}
use radish.Binary.{BinaryValue}
use radish.Binary.Numbers.{read_exact-append}
use radish.Event.{RadishEvent}
use radish.Event.RoundTrip.{IsReadBack, canonical}
use radish.LogReader.{get_events, header, max_record_size}
use radish.LogReader.Records.{frame, IsRecord, Holds}
use radish.LogReader.Logs.{get_events_lost}
use radish.LogWriter.{
  Disk, no_fault, short_write, contents, write_record, append, frame_bytes, put_row, put_bytes,
  ensure_initialized,
}

-- A file that begins with the header is left as it is.
pub ensure_initialized-header :
    (disk : Disk) {body : Bytes}
    → disk.log_file ≡ some (header ++ body)
    → ensure_initialized no_fault disk ≡ (disk, ok tt)
unfolding ensure_initialized
ensure_initialized-header disk {body} e =
    subst
      (λ (f : Option Bytes).
        let d : Disk = record { log_file = f; temporary_file = disk.temporary_file } in
        ensure_initialized no_fault d ≡ (d, ok tt))
      (sym e)
      (rw (read_exact-append header body 8 refl, ensure_initialized) (rw (bytes_eq_refl header)))

frame_bytes-frame :
    (payload : Bytes)
    → 0 < length payload
    → length payload ≤ max_record_size
    → frame_bytes payload ≡ ok (frame payload)
unfolding frame_bytes
frame_bytes-frame payload p q = rw (sized (length payload) p q, small (length payload) q) refl
  where
    sized : (n : ℕ) → 0 < n → n ≤ max_record_size → (n == 0 || ltb (64 * 1024 * 1024) n) ≡ false
    sized n p q = ground arith

    small : (n : ℕ) → n ≤ max_record_size → n % 2 ^ 32 ≡ n
    small n h = omega arith

module _ {ℓ} {V : Type ℓ} ⦃b : BinaryValue V⦄ where
  -- An event whose bytes may be framed is written as their frame.
  write_record-frame :
      {event : RadishEvent V} {bytes : Bytes}
      → IsRecord event bytes
      → write_record event ≡ ok (frame bytes)
  unfolding write_record
  write_record-frame {bytes = bytes} r =
      rw (r.written, frame_bytes-frame bytes r.not_empty r.fits) refl

  append-frame :
      {event : RadishEvent V} {bytes : Bytes} (disk : Disk)
      → IsRecord event bytes
      → append no_fault event disk
        ≡ (record disk { log_file = some (contents disk.log_file ++ frame bytes) }, ok tt)
  unfolding append put_row put_bytes
  append-frame disk r = rw (write_record-frame r) refl

  append-torn :
      {event : RadishEvent V} {bytes : Bytes} (n : ℕ) (disk : Disk)
      → IsRecord event bytes
      → append (short_write n) event disk ≡ (
        record disk { log_file = some (contents disk.log_file ++ take n (frame bytes)) },
        err write_failed,
      )
  unfolding append put_row put_bytes
  append-torn n disk r = rw (write_record-frame r) refl

  -- Let a log hold whole records. If the write of a further record stops behind its length,
  -- Append throws; the constructor of a writer that is opened again on this log leaves it as
  -- it is and does not throw; the next Append, of an event whose record does not make up for
  -- the missing bytes of the torn one, reports success, and the reader finds the events of
  -- before and not the new one. Both events have records of an admitted size, and the values
  -- are read back as they are written.
  pub append_lost :
      (law : IsReadBack V) {events : List (RadishEvent V)} {body : Bytes}
      (lost event : RadishEvent V) {torn bytes : Bytes} (n : ℕ) (disk : Disk)
      → Holds events body
      → disk.log_file ≡ some (header ++ body)
      → IsRecord lost torn
      → IsRecord event bytes
      → 4 ≤ n
      → n + length (frame bytes) < length (frame torn)
      → let crashed = append (short_write n) lost disk in
        let restarted = ensure_initialized no_fault crashed.0 in
        let appended = append no_fault event restarted.0 in
        (crashed.1 ≡ err write_failed)
        × (restarted ≡ (crashed.0, ok tt))
        × (appended.1 ≡ ok tt)
        × (get_events appended.0.log_file ≡ ok (map canonical events))
  append_lost law {events} {body} lost event {torn} {bytes} n disk holds file r r' p q =
      let crashed = append (short_write n) lost disk in
      let cut : crashed.0.log_file ≡ some (header ++ (body ++ take n (frame torn))) =
        ap (λ x. x.0.log_file) (append-torn n disk r)
        ∙ ap (λ f. some (contents f ++ take n (frame torn))) file
        ∙ ap some (append_assoc header body (take n (frame torn))) in
      let restarted = ensure_initialized-header crashed.0 cut in
      let appended = append-frame crashed.0 r' in
      (
        ap (λ x. x.1) (append-torn n disk r),
        restarted,
        rw restarted (ap (λ x. x.1) appended),
        rw restarted (
            ap (λ x. get_events x.0.log_file) appended
            ∙ ap (λ f. get_events (some (contents f ++ frame bytes))) cut
            ∙ ap (λ l. get_events (some l))
                (append_assoc header (body ++ take n (frame torn)) (frame bytes))
            ∙ get_events_lost law holds torn bytes n p r.fits q),
      )

-- ===== src/LogReader/Logs.antt =====
-- Whole log files: what `GetEvents` returns for a file of records and for one that a crash cut off.
use radish.Shared.{
  ℕ, suc, ◌+◌, ◌-◌, ◌<◌, ◌≤◌, some, List, [], ◌++◌, ◌≡◌, refl, ap, ◌∙◌, arith, Bytes, length, map,
  take, append-nil, append_assoc, sym, ok, bytes_eq_refl, length-append, length-take,
}
use radish.Binary.{BinaryValue, read_exact, le_bytes}
use radish.Binary.Numbers.{read_exact-append}
use radish.Event.{RadishEvent}
use radish.Event.RoundTrip.{IsReadBack, canonical}
use radish.LogReader.{
  stop, read_record, read_records, continue, read_header, get_events, header, max_record_size,
}
use radish.LogReader.Records.{
  frame, Holds, read_body_tail, read_record-stop, stop_partial, cut_behind, length-frame,
}

pub read_header-header : (rest : Bytes) → read_header (header ++ rest) ≡ ok rest
unfolding read_header
read_header-header rest =
    rw (read_exact-append header rest 8 refl, read_header) (rw (bytes_eq_refl header))

module _ {ℓ} {V : Type ℓ} ⦃b : BinaryValue V⦄ (law : IsReadBack V) {events : List (RadishEvent V)}
    {body : Bytes} (h : Holds events body) where
  -- A tail at which the loop breaks adds nothing.
  get_events-stop :
      (tail : Bytes)
      → read_record {V = V} tail ≡ stop
      → get_events (some (header ++ (body ++ tail))) ≡ ok (map canonical events)
  unfolding get_events
  get_events-stop tail e = rw (read_header-header (body ++ tail)) (
      read_body_tail law h (suc (length (body ++ tail))) (suc (length tail)) tail (omega arith)
        (omega arith)
      ∙ (unfold read_records continue in rw e (ap (λ l. ok l) (append-nil _))))

  -- A log of whole records is read as the events that were written, less the fields that
  -- their types do not carry, if the values are read back as they are written.
  pub get_events-Holds : get_events (some (header ++ body)) ≡ ok (map canonical events)
  get_events-Holds =
      ap (λ l. get_events (some (header ++ l))) (sym (append-nil body))
      ∙ get_events-stop [] (unfold read_record read_exact in refl)

  -- A crash within the last write loses that record and nothing else: behind whole records,
  -- wherever the write of a record of an admitted size stopped, the events before it are read
  -- and there is no exception, if the values are read back as they are written.
  pub get_events-torn :
      (bytes : Bytes) (n : ℕ)
      → 0 < length bytes
      → length bytes ≤ max_record_size
      → n < length (frame bytes)
      → get_events (some (header ++ (body ++ take n (frame bytes)))) ≡ ok (map canonical events)
  get_events-torn bytes n p q k = get_events-stop _ (read_record-stop bytes n p q k)

  -- The bytes behind a record that was torn behind its length are not read if the torn record is
  -- still incomplete with them in it.
  pub get_events_lost :
      (torn bytes : Bytes) (n : ℕ)
      → 4 ≤ n
      → length torn ≤ max_record_size
      → n + length (frame bytes) < length (frame torn)
      → get_events (some (header ++ ((body ++ take n (frame torn)) ++ frame bytes)))
        ≡ ok (map canonical events)
  get_events_lost torn bytes n p q k =
      let rest = take (n - 4) torn in
      let seam : (body ++ take n (frame torn)) ++ frame bytes
          ≡ body ++ (le_bytes 4 (length torn) ++ (rest ++ frame bytes)) =
        append_assoc body (take n (frame torn)) (frame bytes)
        ∙ ap (λ l. body ++ l)
            (ap (λ l. l ++ frame bytes) (cut_behind torn n p)
              ∙ append_assoc (le_bytes 4 (length torn)) rest (frame bytes)) in
      let cut : length rest ≡ n - 4 = length-take (n - 4) torn (omega (arith, length-frame torn)) in
      ap (λ l. get_events (some (header ++ l))) seam
      ∙ get_events-stop (le_bytes 4 (length torn) ++ (rest ++ frame bytes)) (
          stop_partial (length torn) (rest ++ frame bytes) (omega (arith, length-frame torn)) q
            (omega (arith, cut, length-frame torn, length-append rest (frame bytes))))

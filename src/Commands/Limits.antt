-- ===== src/Commands/Limits.antt =====
-- The limits of the parser against those of the log: which commands can throw.
use radish.Shared.{
  ◌+◌, ◌*◌, ◌/◌, ◌%◌, ◌^◌, ◌<◌, ◌≤◌, Bool, true, false, [], ◌++◌, ◌≡◌, refl, sym, ap, ◌∙◌, arith,
  Bytes, length, take, length-append, minus_one, Result, ok, err, subst,
}
use radish.Binary.{
  string_value, write_container, write_arithmetic, write_optional, le_bytes, to_bits,
  timestamp_width,
}
use radish.Binary.Numbers.{length-le_bytes}
use radish.Binary.Containers.{write_container-inversion}
use radish.Store.{RadishStore, Timestamp, new_expiry_timestamp}
use radish.Event.{
  RadishEvent, create_event, rename_event, delete_event, clear_event, serialize, serialize_fields,
  validate_type, to_tag,
}
use radish.LogWriter.{
  Disk, Fault, no_fault, append, put_row, put_bytes, frame_bytes, write_record, apply_event,
}
use radish.Database
use radish.Database.Applying.{commit-apply_event}
use radish.Database.{RadishDb, commit, finish_commit, swap_in, append_if}
use radish.RespCodec.RoundTrip.{IsBulk}

written :
    (v : Bytes) → IsBulk v → (b : Bytes) × (write_container 1 v ≡ ok b) × (length b ≡ 4 + length v)
written v h = go (write_container 1 v) refl
  where
    fits :
        write_container 1 v
        ≡ ok (le_bytes 4 (length v / 1 * 1 % 2 ^ 32) ++ take (length v / 1 * 1 % 2 ^ 32) v)
    fits = unfold write_container in ground arith

    go :
        (r : Result Bytes)
        → write_container 1 v ≡ r
        → (b : Bytes) × (write_container 1 v ≡ ok b) × (length b ≡ 4 + length v)
    go (err e) k = absurd (cc fits)
    go (ok b) k = (
      b,
      k,
      ap length (write_container-inversion 1 v (omega arith, omega arith) b k).1
          ∙ length-append (le_bytes 4 (length v)) v
          ∙ omega (arith, length-le_bytes 4 (length v)),
    )

-- A record fits, where the fields behind the head of its event are written in 16 MiB at most.
frame_bytes-ok :
    (bytes : Bytes)
    → 0 < length bytes
    → length bytes ≤ 16 * 1024 * 1024
    → (b : Bytes) × (frame_bytes bytes ≡ ok b)
unfolding frame_bytes
frame_bytes-ok bytes h k = (write_arithmetic 4 (length bytes % 2 ^ 32) ++ bytes, ground arith)

record_ok :
    (event : RadishEvent Bytes) (fields : Bytes)
    → validate_type event.m_type ≡ ok tt
    → serialize_fields event.m_type event ≡ ok fields
    → length fields ≤ 9 * 1024 * 1024
    → (b : Bytes) × (write_record event ≡ ok b)
record_ok event fields checked h k =
    let (b, e) = frame_bytes-ok bytes (omega (arith, size)) (omega (arith, size)) in
    (b, (unfold write_record serialize in rw (checked, h) e))
  where
    bytes : Bytes
    bytes =
        write_arithmetic 1 (to_tag event.m_type)
        ++ (write_arithmetic timestamp_width (to_bits event.m_timestamp) ++ fields)

    size : length bytes ≡ 9 + length fields
    size =
        length-append (write_arithmetic 1 (to_tag event.m_type))
          (write_arithmetic timestamp_width (to_bits event.m_timestamp) ++ fields)
        ∙ omega (
          arith,
          length-append (write_arithmetic timestamp_width (to_bits event.m_timestamp)) fields,
          length-le_bytes 1 (to_tag event.m_type),
          length-le_bytes 8 (to_bits event.m_timestamp),
        )

append-no_fault :
    (event : RadishEvent Bytes) (disk : Disk) (b : Bytes)
    → write_record event ≡ ok b
    → (append no_fault event disk).1 ≡ ok tt
unfolding append put_row put_bytes
append-no_fault event disk b h = rw (h, put_row) refl

append_if-no_fault :
    (p : Bool) (event : RadishEvent Bytes) (disk : Disk) (b : Bytes)
    → write_record event ≡ ok b
    → (append_if p no_fault event disk).1 ≡ ok tt
unfolding append_if
append_if-no_fault true event disk b h = append-no_fault event disk b h
append_if-no_fault false event disk b h = refl

-- The result of a database call that does not throw.
abbrev pub Returns {ℓ} : {A : Type ℓ} → RadishDb Bytes × Result A → Type ℓ
Returns {A = A} r = (a : A) × (r.1 ≡ ok a)

swap_in-Returns :
    (db : RadishDb Bytes) (staged : RadishStore Bytes) (r : Disk × Result (Unit {0}))
    → r.1 ≡ ok tt
    → Returns (swap_in db staged r)
unfolding swap_in
swap_in-Returns db staged (disk, err e) h = absurd (cc)
swap_in-Returns db staged (disk, ok u) h = (true, refl)

commit-Returns :
    (now : Timestamp) (fault : Fault) (event : RadishEvent Bytes) (db : RadishDb Bytes)
    (r : RadishStore Bytes × Bool) (b : Bytes)
    → fault ≡ no_fault
    → apply_event now db.m_store event ≡ ok r
    → write_record event ≡ ok b
    → Returns (commit now fault event db)
commit-Returns now fault event db (staged, applied) b well h w =
    subst Returns (sym (commit-apply_event now fault event db)) (
      subst (λ f. Returns (finish_commit f event db (apply_event now db.m_store event))) (sym well)
        (subst (λ o. Returns (finish_commit no_fault event db o)) (sym h) (finished applied)))
  where
    finished : (applied : Bool) → Returns (finish_commit no_fault event db (ok (staged, applied)))
    finished false = (false, unfold finish_commit in refl)
    finished true =
        unfold finish_commit in
        swap_in-Returns db staged (append_if db.m_persistence no_fault event db.disk)
          (append_if-no_fault db.m_persistence event db.disk b w)

module _ (now : Timestamp) (fault : Fault) (well : fault ≡ no_fault) (db : RadishDb Bytes) where
  pub create-Returns :
      (key value : Bytes)
      → IsBulk key
      → IsBulk value
      → Returns (Database.create now fault key value db)
  unfolding Database.create apply_event
  create-Returns key value h k =
      let (kb, ke, kl) = written key h in
      let (vb, ve, vl) = written value k in
      let t = new_expiry_timestamp now db.m_store in
      let (b, e) =
        record_ok (create_event t key value) (kb ++ vb) (unfold validate_type in refl)
          (unfold serialize_fields write_optional in rw (ke, ve) refl)
          (omega (arith, length-append kb vb)) in
      commit-Returns now fault (create_event t key value) db _ b well refl e

  pub rename-Returns :
      (old_key new_key : Bytes)
      → IsBulk old_key
      → IsBulk new_key
      → Returns (Database.rename now fault old_key new_key db)
  unfolding Database.rename apply_event
  rename-Returns old_key new_key h k =
      let (kb, ke, kl) = written old_key h in
      let (rb, re, rl) = written new_key k in
      let (b, e) =
        record_ok (rename_event minus_one old_key new_key) (kb ++ rb) (unfold validate_type in refl)
          (unfold serialize_fields write_optional in rw (ke, re) refl)
          (omega (arith, length-append kb rb)) in
      commit-Returns now fault (rename_event minus_one old_key new_key) db _ b well refl e

  pub delete-Returns : (key : Bytes) → IsBulk key → Returns (Database.delete now fault key db)
  unfolding Database.delete apply_event
  delete-Returns key h =
      let (kb, ke, kl) = written key h in
      let (b, e) =
        record_ok (delete_event minus_one key) kb (unfold validate_type in refl)
          (unfold serialize_fields write_optional in rw ke refl) (omega arith) in
      commit-Returns now fault (delete_event minus_one key) db _ b well refl e

  pub clear-Returns : Returns (Database.clear now fault db)
  unfolding Database.clear apply_event
  clear-Returns =
      let (b, e) =
        record_ok (clear_event minus_one) [] (unfold validate_type in refl)
          (unfold serialize_fields in refl) (omega arith) in
      commit-Returns now fault (clear_event minus_one) db _ b well refl e

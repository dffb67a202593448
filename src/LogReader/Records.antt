-- ===== src/LogReader/Records.antt =====
-- Reading a log that holds whole records, with or without an incomplete one at its end.
use native.Mathlib.Decide.{dec_lt}
use radish.Shared.{
  false, ◌-◌, take-append_ge, ℕ, suc, ◌+◌, ◌<◌, ◌≤◌, none, List, [], ◌∷◌, ◌++◌, ◌≡◌, refl, sym, ap,
  ◌∙◌, arith, Bytes, length, map, take, length-append, append_assoc, append-nil, ltb, Result, ok,
  err, ◌>>=◌, ◌||◌, ◌==◌, length-take,
}
use radish.Binary.{BinaryValue, read_exact, le_bytes}
use radish.Binary.Numbers.{InRange, read_exact-append, length-le_bytes, from_le-le_bytes_four}
use radish.Event.{RadishEvent, serialize}
use radish.Event.RoundTrip.{IsReadBack, canonical, deserialize-serialize}
use radish.LogReader.{
  continue, stop, push, finish_record, read_body, read_sized, read_record, read_records,
  max_record_size,
}
use radish.LogReader.Fuel.{read_records_fuel}

-- A record of the log: the length of an event's bytes, and the bytes.
abbrev pub frame : Bytes → Bytes
frame bytes = le_bytes 4 (length bytes) ++ bytes

-- The bytes that a writer may have framed for an event.
pub record IsRecord {ℓ} {V : Type ℓ} ⦃b : BinaryValue V⦄ (event : RadishEvent V) (bytes : Bytes)
    : Type ℓ where
  pub written : serialize event ≡ ok bytes
  pub not_empty : 0 < length bytes
  pub fits : length bytes ≤ max_record_size
  pub in_range : InRange event.m_timestamp

read_exact-short : (k : ℕ) (s : Bytes) → length s < k → read_exact k s ≡ none
unfolding read_exact
read_exact-short k s h = ground arith

size_accepted : (n : ℕ) → 0 < n → n ≤ max_record_size → (n == 0 || ltb max_record_size n) ≡ false
size_accepted n p q = ground arith

pub length-frame : (bytes : Bytes) → length (frame bytes) ≡ 4 + length bytes
length-frame bytes =
    length-append (le_bytes 4 (length bytes)) bytes
    ∙ ap (λ k. k + length bytes) (length-le_bytes 4 (length bytes))

pub cut_behind :
    (bytes : Bytes) (n : ℕ)
    → 4 ≤ n
    → take n (frame bytes) ≡ le_bytes 4 (length bytes) ++ take (n - 4) bytes
cut_behind bytes n h =
    take-append_ge n (le_bytes 4 (length bytes)) bytes
      (omega (arith, length-le_bytes 4 (length bytes)))
    ∙ ap (λ k. le_bytes 4 (length bytes) ++ take (n - k) bytes) (length-le_bytes 4 (length bytes))

module _ {ℓ} {V : Type ℓ} ⦃b : BinaryValue V⦄ where
  -- The body of a log that holds the given events, each in a whole record.
  pub data Holds : List (RadishEvent V) → Bytes → Type ℓ where
    nothing : Holds [] []
    first :
        {event : RadishEvent V} {events : List (RadishEvent V)} {bytes body log : Bytes}
        → IsRecord event bytes
        → Holds events body
        → log ≡ frame bytes ++ body
        → Holds (event ∷ events) log

  pub Holds-append :
      {events : List (RadishEvent V)} {event : RadishEvent V} {log bytes : Bytes}
      → Holds events log
      → IsRecord event bytes
      → Holds (events ++ event ∷ []) (log ++ frame bytes)
  Holds-append nothing r = first r nothing (sym (append-nil _))
  Holds-append (first {bytes = x} {body = y} r₀ h e) r =
      first r₀ (Holds-append h r) (rw e (append_assoc (frame x) y _))

  -- A length with fewer bytes behind it than it says ends the loop.
  pub stop_partial :
      (n : ℕ) (partial : Bytes)
      → 0 < n
      → n ≤ max_record_size
      → length partial < n
      → read_record {V = V} (le_bytes 4 n ++ partial) ≡ stop
  unfolding read_record
  stop_partial n partial p q h =
      rw (read_exact-append (le_bytes 4 n) partial 4 (length-le_bytes 4 n), read_record)
        (rw (from_le-le_bytes_four n (omega arith)) (
          unfold read_sized read_body in
          rw (size_accepted n p q) (rw (read_exact-short n partial h, read_body))))

  -- A record of which some bytes are missing ends the loop.
  pub read_record-stop :
      (bytes : Bytes) (n : ℕ)
      → 0 < length bytes
      → length bytes ≤ max_record_size
      → n < length (frame bytes)
      → read_record {V = V} (take n (frame bytes)) ≡ stop
  unfolding read_record
  read_record-stop bytes n p q h = elim (dec_lt n 4) [
    | yes short ↦ rw (
      read_exact-short 4 (take n (frame bytes))
          (omega (arith, length-take n (frame bytes) (omega arith))),
      read_record,
    )
    | no long ↦
        let small : length (take (n - 4) bytes) < length bytes = omega (
          arith,
          length-frame bytes,
          length-take (n - 4) bytes (omega (arith, length-frame bytes)),
        ) in
        rw (cut_behind bytes n (omega arith))
          (stop_partial (length bytes) (take (n - 4) bytes) p q small)
  ]

module _ {ℓ} {A : Type ℓ} where
  abbrev pub prepend : List A → Result (List A) → Result (List A)
  prepend xs r = do l ← r; ok (xs ++ l)

  pub prepend-nil : (r : Result (List A)) → prepend [] r ≡ r
  prepend-nil (ok l) = refl
  prepend-nil (err e) = refl

module _ {ℓ} {V : Type ℓ} ⦃b : BinaryValue V⦄ (law : IsReadBack V) where
  read_sized-push :
      {event : RadishEvent V} {bytes : Bytes} (rest : Bytes)
      → IsRecord event bytes
      → read_sized (length bytes) (bytes ++ rest) ≡ push (canonical event) rest
  unfolding read_sized read_body finish_record
  read_sized-push {event} {bytes} rest r = rw (size_accepted (length bytes) r.not_empty r.fits) (
      rw (read_exact-append bytes rest (length bytes) refl, read_body)
        (rw (← append-nil bytes, deserialize-serialize law event bytes [] r.in_range r.written)))

  read_record-push :
      {event : RadishEvent V} {bytes : Bytes} (rest : Bytes)
      → IsRecord event bytes
      → read_record (frame bytes ++ rest) ≡ push (canonical event) rest
  unfolding read_record
  read_record-push {event} {bytes} rest r =
      rw
        (
          append_assoc,
          read_exact-append (le_bytes 4 (length bytes)) (bytes ++ rest) 4 (length-le_bytes 4 _),
          read_record,
        )
        (rw (from_le-le_bytes_four (length bytes) (omega (arith, r.fits))) (read_sized-push rest r))

  step :
      (event : RadishEvent V) (events : List (RadishEvent V)) (k n : ℕ) (file rest : Bytes)
      (r : Result (List (RadishEvent V)))
      → n ≡ suc k
      → read_record file ≡ push event rest
      → read_records k rest ≡ prepend events r
      → read_records n file ≡ prepend (event ∷ events) r
  step event events k n file rest (ok l) e p q = rw e (unfold read_records continue in rw (p, q))
  step event events k n file rest (err x) e p q = rw e (unfold read_records continue in rw (p, q))

  -- The records of a body are read first, and then what stands behind it.
  pub read_records-Holds :
      {events : List (RadishEvent V)} {body : Bytes} (k : ℕ) (tail : Bytes)
      → Holds events body
      → read_records (length events + k) (body ++ tail)
        ≡ prepend (map canonical events) (read_records k tail)
  read_records-Holds k tail nothing =
      ap (λ n. read_records n tail) (omega arith) ∙ sym (prepend-nil (read_records k tail))
  read_records-Holds {events = event ∷ events} k tail (first {bytes = x} {body = y} r h e) =
      rw (e, append_assoc)
        (step (canonical event) (map canonical events) (length events + k) _ _ (y ++ tail)
          (read_records k tail) (omega arith) (read_record-push (y ++ tail) r)
          (read_records-Holds k tail h))

  module _ {events : List (RadishEvent V)} {body : Bytes} (h : Holds events body) where
    -- Reading a body and a tail is reading the tail, with the events of the body in front.
    pub read_body_tail :
        (f g : ℕ) (tail : Bytes)
        → length (body ++ tail) < f
        → length tail < g
        → read_records f (body ++ tail) ≡ prepend (map canonical events) (read_records g tail)
    read_body_tail f g tail p q =
        read_records_fuel f (length events + (f + g)) (body ++ tail) p (omega arith)
        ∙ read_records-Holds (f + g) tail h
        ∙ ap (prepend (map canonical events)) (read_records_fuel (f + g) g tail (omega arith) q)

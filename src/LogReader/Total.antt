-- ===== src/LogReader/Total.antt =====
-- How the loop of `GetEvents` ends.
use radish.Shared.{
  ℕ, zero, suc, ◌<◌, ◌%◌, ◌||◌, Option, none, some, List, [], ◌∷◌, ◌≡◌, refl, arith, Bytes, ℤ,
  length, ltb, ◌==◌, Bool-cases, Option-cases, inl, inr, bytes_eq, Result, ok, err, ◌>>=◌,
  out_of_fuel,
}
use radish.Binary.{
  BinaryValue, read_exact, from_le, from_bits, read_arithmetic, read_container, read_optional,
  string_value,
}
use radish.Event.{
  EventType, create, rename, delete, clear, other, from_tag, RadishEvent, validate_type,
  deserialize, deserialize_fields,
}
use radish.LogReader.{
  Round, stop, throw, push, continue, finish_record, read_body, read_sized, read_record,
  read_records, read_header, header, get_events, max_record_size,
}
use radish.LogReader.Fuel.{read_record-lt}

-- An outcome that is not the mark of a loop without fuel.
abbrev pub Ends {ℓ} : {A : Type ℓ} → Result A → Type 0
Ends (ok a) = Unit
Ends (err out_of_fuel) = ⊥
Ends (err e) = Unit

abbrev EndsRound {ℓ} : {V : Type ℓ} → Round V → Type 0
EndsRound (throw out_of_fuel) = ⊥
EndsRound r = Unit

>>=-Ends {ℓ κ} :
    {A : Type ℓ} {B : Type κ} (m : Result A) (f : A → Result B)
    → Ends m
    → ((a : A) → Ends (f a))
    → Ends (m >>= f)
>>=-Ends (ok a) f h k = k a
>>=-Ends (err out_of_fuel) f h k = h
>>=-Ends (err e) f h k = tt

read_arithmetic-Ends : (w : ℕ) (file : Bytes) → Ends (read_arithmetic w file)
unfolding read_arithmetic
read_arithmetic-Ends w file = elim (Option-cases (read_exact w file)) [
  | inl e ↦ rw (e, Ends) tt
  | inr (p, e) ↦ rw (e, Ends) tt
]

pub read_container-Ends : (n : ℕ) (file : Bytes) → Ends (read_container n file)
unfolding read_container
read_container-Ends n file = elim (Option-cases (read_exact 4 file)) [
  | inl e ↦ rw (e, Ends) tt
  | inr (p, e) ↦ elim (Bool-cases (from_le p.0 % n == 0)) [
    | inl whole ↦ elim (Option-cases (read_exact (from_le p.0) p.1)) [
      | inl short ↦ rw (e, whole, short, Ends) tt
      | inr (q, enough) ↦ rw (e, whole, enough, Ends) tt
    ]
    | inr part ↦ rw (e, part, Ends) tt
  ]
]

validate_type-Ends : (type : EventType) → Ends (validate_type type)
unfolding validate_type
validate_type-Ends create = tt
validate_type-Ends rename = tt
validate_type-Ends delete = tt
validate_type-Ends clear = tt
validate_type-Ends (other n) = tt

read_optional-Ends {ℓ} :
    {A : Type ℓ} (read : Bytes → Result (A × Bytes)) (file : Bytes)
    → Ends (read file)
    → Ends (read_optional read file)
unfolding read_optional
read_optional-Ends read file h = >>=-Ends (read file) _ h (λ p. tt)

key-Ends : (file : Bytes) → Ends (read_optional (read_container 1) file)
key-Ends file = read_optional-Ends (read_container 1) file (read_container-Ends 1 file)

module _ {ℓ} {V : Type ℓ} ⦃b : BinaryValue V⦄ where
  finish_record-Ends :
      (file : Bytes) (r : Result (RadishEvent V × Bytes))
      → Ends r
      → EndsRound (finish_record file r)
  unfolding finish_record
  finish_record-Ends file (err out_of_fuel) h = h
  finish_record-Ends file (err e) h = tt
  finish_record-Ends file (ok (event, [])) h = tt
  finish_record-Ends file (ok (event, c ∷ s)) h = tt

  continue-Ends :
      (r : Round V) (loop : Bytes → Result (List (RadishEvent V)))
      → EndsRound r
      → ((event : RadishEvent V) (rest : Bytes) → r ≡ push event rest → Ends (loop rest))
      → Ends (continue r loop)
  unfolding continue
  continue-Ends stop loop h k = tt
  continue-Ends (throw out_of_fuel) loop h k = h
  continue-Ends (throw e) loop h k = tt
  continue-Ends (push event rest) loop h k = >>=-Ends (loop rest) _ (k event rest refl) (λ l. tt)

module _ {ℓ} (V : Type ℓ) ⦃b : BinaryValue V⦄ (quiet : (file : Bytes) → Ends (b.read file)) where
  payload-Ends : (file : Bytes) → Ends (read_optional b.read file)
  payload-Ends file = read_optional-Ends b.read file (quiet file)

  deserialize_fields-Ends :
      (type : EventType) (t : ℤ) (file : Bytes) → Ends (deserialize_fields {V = V} type t file)
  unfolding deserialize_fields
  deserialize_fields-Ends clear t file = tt
  deserialize_fields-Ends delete t file = >>=-Ends _ _ (key-Ends file) (λ p. tt)
  deserialize_fields-Ends rename t file =
      >>=-Ends _ _ (key-Ends file) (λ p. >>=-Ends _ _ (key-Ends p.1) (λ q. tt))
  deserialize_fields-Ends create t file =
      >>=-Ends _ _ (key-Ends file) (λ p. >>=-Ends _ _ (payload-Ends p.1) (λ q. tt))
  deserialize_fields-Ends (other n) t file =
      >>=-Ends _ _ (key-Ends file) (λ p. >>=-Ends _ _ (payload-Ends p.1) (λ q. tt))

  deserialize-Ends : (file : Bytes) → Ends (deserialize {V = V} file)
  unfolding deserialize
  deserialize-Ends file = >>=-Ends _ _ (read_arithmetic-Ends 1 file) (λ p.
      >>=-Ends _ _ (validate_type-Ends (from_tag p.0)) (λ u.
        >>=-Ends _ _ (read_arithmetic-Ends 8 p.1)
          (λ q. deserialize_fields-Ends (from_tag p.0) (from_bits q.0) q.1)))

  read_record-Ends : (file : Bytes) → EndsRound (read_record {V = V} file)
  unfolding read_record read_sized read_body
  read_record-Ends file = elim (Option-cases (read_exact 4 file)) [
    | inl e ↦ rw (e, EndsRound) tt
    | inr (p, e) ↦ elim (Bool-cases (from_le p.0 == 0 || ltb max_record_size (from_le p.0))) [
      | inl bad ↦ rw (e, bad, EndsRound) tt
      | inr fine ↦ elim (Option-cases (read_exact (from_le p.0) p.1)) [
        | inl short ↦ rw (e, fine, short, EndsRound) tt
        | inr (q, enough) ↦
            rw (e, fine, enough, EndsRound)
              (finish_record-Ends q.1 (deserialize q.0) (deserialize-Ends q.0))
      ]
    ]
  ]

  pub read_records-Ends :
      (fuel : ℕ) (file : Bytes) → length file < fuel → Ends (read_records {V = V} fuel file)
  unfolding read_records
  read_records-Ends zero file h = absurd (omega arith)
  read_records-Ends (suc fuel) file h =
      continue-Ends (read_record file) (read_records fuel) (read_record-Ends file) (λ event rest e.
        let shorter = read_record-lt file event rest e in read_records-Ends fuel rest (omega arith))

  read_header-Ends : (file : Bytes) → Ends (read_header file)
  unfolding read_header
  read_header-Ends file = elim (Option-cases (read_exact (length header) file)) [
    | inl e ↦ rw (e, Ends) tt
    | inr (p, e) ↦ elim (Bool-cases (bytes_eq p.0 header)) [
      | inl same ↦ rw (e, same, Ends) tt
      | inr different ↦ rw (e, different, Ends) tt
    ]
  ]

  -- Whatever the bytes of the file are, `GetEvents` returns events or throws an exception of
  -- the code, and never stops for lack of fuel, if the reader of the values does not.
  pub get_events-Ends : (file : Option Bytes) → Ends (get_events {V = V} file)
  unfolding get_events
  get_events-Ends none = tt
  get_events-Ends (some file) =
      >>=-Ends (read_header file) _ (read_header-Ends file)
        (λ rest. read_records-Ends (suc (length rest)) rest (omega arith))

-- ===== src/LogReader/Fuel.antt =====
-- The fuel of `read_records`, and what each round of the loop takes from the file.
use radish.Shared.{
  ℕ, zero, suc, ◌+◌, ◌<◌, ◌≤◌, Option, none, some, List, [], ◌∷◌, ◌≡◌, refl, arith, Bytes, length,
  length-drop, Result, ok, err, Option-cases, inl, inr,
}
use radish.Binary.{BinaryValue, read_exact, from_le}
use radish.Event.{RadishEvent, deserialize}
use radish.LogReader.{
  Round, continue, stop, throw, push, finish_record, read_body, read_sized, read_record,
  read_records,
}

length-read_exact :
    (n : ℕ) (s x rest : Bytes) → read_exact n s ≡ some (x, rest) → length rest + n ≡ length s
unfolding read_exact
length-read_exact n s x rest h = ground (arith, length-drop n s)

module _ {ℓ} {V : Type ℓ} ⦃b : BinaryValue V⦄ where
  finish_record-push :
      (file : Bytes) (r : Result (RadishEvent V × Bytes)) (event : RadishEvent V) (rest : Bytes)
      → finish_record file r ≡ push event rest
      → rest ≡ file
  unfolding finish_record
  finish_record-push file (err e) event rest h = cc
  finish_record-push file (ok (x, [])) event rest h = cc
  finish_record-push file (ok (x, c ∷ t)) event rest h = cc

  read_body-lt :
      (n : ℕ) (file : Bytes) (event : RadishEvent V) (rest : Bytes)
      → read_body n file ≡ push event rest
      → length rest ≤ length file
  unfolding read_body
  read_body-lt n file event rest h = go (read_exact n file) refl h
    where
      go :
          (o : Option (Bytes × Bytes))
          → read_exact n file ≡ o
          → elim o [ none ↦ stop | some (x, r) ↦ finish_record r (deserialize x) ] ≡ push event rest
          → length rest ≤ length file
      go none e h = cc
      go (some (x, r)) e h =
          rw (finish_record-push r (deserialize x) event rest h)
            (omega (arith, length-read_exact n file x r e))

  -- A round that pushes an event leaves a shorter file.
  pub read_record-lt :
      (file : Bytes) (event : RadishEvent V) (rest : Bytes)
      → read_record file ≡ push event rest
      → length rest < length file
  unfolding read_record read_sized
  read_record-lt file event rest h = elim (Option-cases (read_exact 4 file)) [
    | inl e ↦ ground (arith, e)
    | inr (p, e) ↦
        ground
          (arith, e, length-read_exact 4 file p.0 p.1 e, read_body-lt (from_le p.0) p.1 event rest)
  ]

  continue-fuel :
      (r : Round V) (f g : Bytes → Result (List (RadishEvent V)))
      → ((event : RadishEvent V) (rest : Bytes) → r ≡ push event rest → f rest ≡ g rest)
      → continue r f ≡ continue r g
  unfolding continue
  continue-fuel stop f g h = refl
  continue-fuel (throw e) f g h = refl
  continue-fuel (push event rest) f g h = rw (h event rest refl)

  -- The loop of the reader gives the same result for any two amounts of fuel above the length
  -- of the file.
  pub read_records_fuel :
      (f g : ℕ) (file : Bytes)
      → length file < f
      → length file < g
      → read_records {V = V} f file ≡ read_records g file
  unfolding read_records
  read_records_fuel zero g file h k = absurd (omega arith)
  read_records_fuel (suc f) zero file h k = absurd (omega arith)
  read_records_fuel (suc f) (suc g) file h k =
      continue-fuel (read_record file) (read_records f) (read_records g) λ event rest e.
        let lt = read_record-lt file event rest e in
        read_records_fuel f g rest (omega arith) (omega arith)

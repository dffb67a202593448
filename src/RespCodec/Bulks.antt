-- ===== src/RespCodec/Bulks.antt =====
-- The sizes of the arguments that `ParseCommand` returns.
use radish.Shared.{
  ℕ, zero, suc, ◌-◌, ◌≤◌, false, ◌&&◌, ◌||◌, List, [], ◌∷◌, ◌++◌, ◌≡◌, arith, Bytes, pos, negsuc,
  ltb, ◌==◌, Bool-cases, inl, inr, All, length, take, drop,
}
use radish.RespCodec.{
  cr, lf, RespParseResult, max_arguments, max_bulk_length, ParsedNumber, no_terminator, malformed,
  number, parse_number, Bulk, need_more, reject, argument, check_terminator, read_bulk,
  after_length, parse_bulk, after_bulk, parse_arguments, after_count, parse_command,
}
use radish.RespCodec.RoundTrip.{IsBulk}

abbrev IsSmall : Bulk → Type 0
IsSmall (argument value rest) = IsBulk value
IsSmall _ = Unit

length-take-le {ℓ} : {A : Type ℓ} (n : ℕ) (xs : List A) → length (take n xs) ≤ n
length-take-le zero xs = omega arith
length-take-le (suc n) [] = omega arith
length-take-le (suc n) (x ∷ xs) = omega (arith, length-take-le n xs)

check_terminator-IsSmall : (value s : Bytes) → IsBulk value → IsSmall (check_terminator value s)
unfolding check_terminator
check_terminator-IsSmall value [] h = tt
check_terminator-IsSmall value (c ∷ []) h = tt
check_terminator-IsSmall value (c ∷ d ∷ s) h = elim (Bool-cases (c == cr && d == lf)) [
  | inl here ↦ rw here h
  | inr there ↦ rw there tt
]

read_bulk-IsSmall : (k : ℕ) (s : Bytes) → k ≤ max_bulk_length → IsSmall (read_bulk k s)
unfolding read_bulk
read_bulk-IsSmall k s h = elim (Bool-cases (ltb (length s) k)) [
  | inl short ↦ rw short tt
  | inr enough ↦ elim (Bool-cases (ltb (length s - k) 2)) [
    | inl cut ↦ rw (enough, cut) tt
    | inr more ↦
        rw (enough, more)
          (check_terminator-IsSmall (take k s) (drop k s) (omega (arith, length-take-le k s)))
  ]
]

after_length-IsSmall : (o : ParsedNumber) → IsSmall (after_length o)
unfolding after_length
after_length-IsSmall no_terminator = tt
after_length-IsSmall malformed = tt
after_length-IsSmall (number (negsuc k) rest) = tt
after_length-IsSmall (number (pos k) rest) = elim (Bool-cases (ltb max_bulk_length k)) [
  | inl long ↦ rw long tt
  | inr fits ↦ rw fits (read_bulk-IsSmall k rest (bounded k fits))
]
  where
    bounded : (k : ℕ) → ltb max_bulk_length k ≡ false → k ≤ max_bulk_length
    bounded k h = ground arith

parse_bulk-IsSmall : (s : Bytes) → IsSmall (parse_bulk s)
unfolding parse_bulk
parse_bulk-IsSmall [] = tt
parse_bulk-IsSmall (c ∷ s) = elim (Bool-cases (c == b'$')) [
  | inl dollar ↦ rw dollar (after_length-IsSmall (parse_number s))
  | inr other ↦ rw other tt
]

after_bulk-IsBulk :
    (o : Bulk) (loop : Bytes → Bytes → RespParseResult)
    → IsSmall o
    → ((value rest : Bytes) → IsBulk value → All IsBulk (loop value rest).arguments)
    → All IsBulk (after_bulk o loop).arguments
unfolding after_bulk
after_bulk-IsBulk need_more loop h k = tt
after_bulk-IsBulk (reject message) loop h k = tt
after_bulk-IsBulk (argument value rest) loop h k = k value rest h

All-push :
    (values : List Bytes) (value : Bytes)
    → All IsBulk values
    → IsBulk value
    → All IsBulk (values ++ value ∷ [])
All-push [] value h k = (k, tt)
All-push (x ∷ values) value h k = (h.0, All-push values value h.1 k)

parse_arguments-IsBulk :
    (count : ℕ) (values : List Bytes) (size : ℕ) (s : Bytes)
    → All IsBulk values
    → All IsBulk (parse_arguments count values size s).arguments
unfolding parse_arguments
parse_arguments-IsBulk zero values size s h = h
parse_arguments-IsBulk (suc count) values size s h =
    after_bulk-IsBulk (parse_bulk s) _ (parse_bulk-IsSmall s) (λ value rest small.
      parse_arguments-IsBulk count (values ++ value ∷ []) size rest (All-push values value h small))

after_count-IsBulk : (size : ℕ) (o : ParsedNumber) → All IsBulk (after_count size o).arguments
unfolding after_count
after_count-IsBulk size no_terminator = tt
after_count-IsBulk size malformed = tt
after_count-IsBulk size (number (negsuc n) rest) = tt
after_count-IsBulk size (number (pos n) rest) = elim (Bool-cases (n == 0 || ltb max_arguments n)) [
  | inl invalid ↦ rw invalid tt
  | inr valid ↦ rw valid (parse_arguments-IsBulk n [] size rest tt)
]

-- No argument of a result is longer than 4 MiB.
pub parse_command-IsBulk : (s : Bytes) → All IsBulk (parse_command s).arguments
unfolding parse_command
parse_command-IsBulk [] = tt
parse_command-IsBulk (c ∷ s) = elim (Bool-cases (c == b'*')) [
  | inl star ↦ rw star (after_count-IsBulk (length (c ∷ s)) (parse_number s))
  | inr other ↦ rw other tt
]

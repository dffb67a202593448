-- ===== src/Bench/Statistics/Sorting.antt =====
-- Sorted samples: their elements by index, and how many samples are below a value.
use radish.Shared.{
  ℕ, ◌+◌, ◌<◌, ◌≤◌, ◌^◌, true, false, List, [], ◌∷◌, ◌≡◌, refl, ap, inl, inr, arith, length, All,
  leb, ltb, if◌then◌else◌, Bool-cases, ok,
}
use radish.Bench.Statistics.{insert, sort, add_samples}

-- Each sample is at most those behind it.
abbrev pub IsSorted : List ℕ → Type 0
IsSorted [] = Unit
IsSorted (x ∷ xs) = All (λ y. x ≤ y) xs × IsSorted xs

-- How many samples are at most a value, or less than it.
abbrev pub count_le : ℕ → List ℕ → ℕ
count_le v [] = 0
count_le v (x ∷ xs) = (if leb x v then 1 else 0) + count_le v xs

abbrev pub count_lt : ℕ → List ℕ → ℕ
count_lt v [] = 0
count_lt v (x ∷ xs) = (if ltb x v then 1 else 0) + count_lt v xs

abbrev pub sum : List ℕ → ℕ
sum [] = 0
sum (x ∷ xs) = x + sum xs

-- What is counted of an insertion.
record IsCounted (f : List ℕ → ℕ) : Type 0 where
  weight : ℕ → ℕ
  nothing : f [] ≡ 0
  one_more : (x : ℕ) (xs : List ℕ) → f (x ∷ xs) ≡ weight x + f xs

count-insert : (f : List ℕ → ℕ) → IsCounted f → (x : ℕ) (xs : List ℕ) → f (insert x xs) ≡ f (x ∷ xs)
unfolding insert
count-insert f counted x [] = refl
count-insert f counted x (y ∷ ys) = elim (Bool-cases (leb x y)) [
  | inl front ↦ rw front refl
  | inr behind ↦ rw behind (
      omega (
        arith,
        counted.one_more y (insert x ys),
        counted.one_more x (y ∷ ys),
        counted.one_more y ys,
        counted.one_more x ys,
        count-insert f counted x ys,
      ))
]

count-sort : (f : List ℕ → ℕ) → IsCounted f → (xs : List ℕ) → f (sort xs) ≡ f xs
unfolding sort
count-sort f counted [] = refl
count-sort f counted (x ∷ xs) = omega (
  arith,
  count-insert f counted x (sort xs),
  counted.one_more x xs,
  counted.one_more x (sort xs),
  count-sort f counted xs,
)

pub length-sort : (xs : List ℕ) → length (sort xs) ≡ length xs
length-sort =
    count-sort length record { weight = λ x. 1; nothing = refl; one_more = λ x xs. omega arith }

pub sum-sort : (xs : List ℕ) → sum (sort xs) ≡ sum xs
sum-sort = count-sort sum record { weight = λ x. x; nothing = refl; one_more = λ x xs. refl }

pub count_le-sort : (v : ℕ) (xs : List ℕ) → count_le v (sort xs) ≡ count_le v xs
count_le-sort v =
    count-sort (count_le v)
      record { weight = λ x. if leb x v then 1 else 0; nothing = refl; one_more = λ x xs. refl }

pub count_lt-sort : (v : ℕ) (xs : List ℕ) → count_lt v (sort xs) ≡ count_lt v xs
count_lt-sort v =
    count-sort (count_lt v)
      record { weight = λ x. if ltb x v then 1 else 0; nothing = refl; one_more = λ x xs. refl }

All-insert : (P : ℕ → Type 0) (x : ℕ) (xs : List ℕ) → P x → All P xs → All P (insert x xs)
unfolding insert
All-insert P x [] p ps = (p, tt)
All-insert P x (y ∷ ys) p ps = elim (Bool-cases (leb x y)) [
  | inl front ↦ rw front (p, ps)
  | inr behind ↦ rw behind (ps.0, All-insert P x ys p ps.1)
]

weaken : (x y : ℕ) (ys : List ℕ) → x ≤ y → All (λ z. y ≤ z) ys → All (λ z. x ≤ z) ys
weaken x y [] h k = tt
weaken x y (z ∷ zs) h k = (omega (arith, k.0), weaken x y zs h k.1)

insert-IsSorted : (x : ℕ) (xs : List ℕ) → IsSorted xs → IsSorted (insert x xs)
unfolding insert
insert-IsSorted x [] sorted = (tt, tt)
insert-IsSorted x (y ∷ ys) sorted = elim (Bool-cases (leb x y)) [
  | inl front ↦ rw front ((below x y front, weaken x y ys (below x y front) sorted.0), sorted)
  | inr behind ↦
      rw behind
        (All-insert (λ z. y ≤ z) x ys (above x y behind) sorted.0, insert-IsSorted x ys sorted.1)
]
  where
    below : (x y : ℕ) → leb x y ≡ true → x ≤ y
    below x y h = ground arith

    above : (x y : ℕ) → leb x y ≡ false → y ≤ x
    above x y h = ground arith

pub sort-IsSorted : (xs : List ℕ) → IsSorted (sort xs)
unfolding sort
sort-IsSorted [] = tt
sort-IsSorted (x ∷ xs) = insert-IsSorted x (sort xs) (sort-IsSorted xs)

-- The sum is computed, as long as it does not overflow.
pub add_samples-sum :
    (total : ℕ) (xs : List ℕ) → total + sum xs < 2 ^ 63 → add_samples total xs ≡ ok (total + sum xs)
unfolding add_samples
add_samples-sum total [] h = ap ok (omega arith)
add_samples-sum total (x ∷ xs) h =
    rw (small total x (omega arith), add_samples-sum (total + x) xs (omega arith))
      (ap ok (omega arith))
  where
    small : (n x : ℕ) → n + x < 2 ^ 63 → leb (2 ^ 63) (n + x) ≡ false
    small n x h = ground arith

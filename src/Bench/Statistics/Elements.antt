-- ===== src/Bench/Statistics/Elements.antt =====
-- The elements of sorted samples by index.
use radish.Shared.{
  ℕ, zero, suc, ◌<◌, ◌≤◌, false, List, [], ◌∷◌, ◌≡◌, refl, arith, length, All, ltb, ok,
}
use radish.Bench.Statistics.{element}
use radish.Bench.Statistics.Sorting.{IsSorted, count_le, count_lt}

ok-injective : (a b : ℕ) → ok a ≡ ok b → a ≡ b
ok-injective a b e = cc

element-All : (x i : ℕ) (xs : List ℕ) (v : ℕ) → All (λ y. x ≤ y) xs → element i xs ≡ ok v → x ≤ v
unfolding element
element-All x i [] v h e = absurd (cc)
element-All x zero (y ∷ ys) v h e = omega (arith, h.0, ok-injective y v e)
element-All x (suc i) (y ∷ ys) v h e = element-All x i ys v h.1 e

-- There is an element at every index below the length; where it is sorted, so many are at most it,
-- and no more than the index are less.
pub element-count :
    (i : ℕ) (xs : List ℕ)
    → IsSorted xs
    → i < length xs
    → (v : ℕ) × (element i xs ≡ ok v) × (i < count_le v xs) × (count_lt v xs ≤ i)
unfolding element
element-count i [] sorted h = absurd (omega arith)
element-count zero (x ∷ xs) sorted h =
    (x, refl, ground arith, rw (not_lt x) (omega (arith, none_lt x xs sorted.0)))
  where
    not_lt : (x : ℕ) → ltb x x ≡ false
    not_lt x = ground arith

    none_lt : (x : ℕ) (ys : List ℕ) → All (λ y. x ≤ y) ys → count_lt x ys ≡ 0
    none_lt x [] h = refl
    none_lt x (y ∷ ys) h = ground (arith, none_lt x ys h.1, h.0)
element-count (suc i) (x ∷ xs) sorted h =
    let (v, found, many, few) = element-count i xs sorted.1 (omega arith) in
    (v, found, ground (arith, many, element-All x i xs v sorted.0 found), ground (arith, few))

-- At an index that is not behind another, the element is at most the other one.
pub element-monotone :
    (i j : ℕ) (xs : List ℕ) (v w : ℕ)
    → IsSorted xs
    → i ≤ j
    → element i xs ≡ ok v
    → element j xs ≡ ok w
    → v ≤ w
unfolding element
element-monotone i j [] v w sorted h e e' = absurd (cc)
element-monotone zero zero (x ∷ xs) v w sorted h e e' =
    omega (arith, ok-injective x v e, ok-injective x w e')
element-monotone zero (suc j) (x ∷ xs) v w sorted h e e' =
    omega (arith, ok-injective x v e, element-All x j xs w sorted.0 e')
element-monotone (suc i) zero (x ∷ xs) v w sorted h e e' = absurd (omega arith)
element-monotone (suc i) (suc j) (x ∷ xs) v w sorted h e e' =
    element-monotone i j xs v w sorted.1 (omega arith) e e'

pub count_le-length : (v : ℕ) (xs : List ℕ) → count_le v xs ≤ length xs
count_le-length v [] = omega arith
count_le-length v (x ∷ xs) = ground (arith, count_le-length v xs)

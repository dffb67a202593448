-- ===== src/Commands/Handlers.antt =====
-- Facts about every handler of the table, by the name that it stands under.
use radish.Shared.{
  false, none, arith, some, [], ◌∷◌, ◌≡◌, Bytes, All, subst, bytes_eq, bytes_eq_iff, Bool-cases,
  inl, inr,
}
use radish.Dict.{Dict, lookup}

-- What holds of all entries holds of the one that is found.
pub lookup-All {ℓ κ} :
    {A : Type ℓ} (Q : Bytes → A → Type κ) (m : Dict A) (k : Bytes) (a : A)
    → All (λ p. Q p.0 p.1) m
    → lookup k m ≡ some a
    → Q k a
unfolding lookup
lookup-All Q [] k a h e = absurd (cc)
lookup-All Q ((j, b) ∷ m) k a h e = elim (Bool-cases (bytes_eq j k)) [
  | inl found ↦
      subst (λ x. Q x a) ((bytes_eq_iff j k).0 found)
        (subst (Q j) (let e' : b ≡ a = cc (rw found at e) in e') h.0)
  | inr other ↦ lookup-All Q m k a h.1 (rw other at e)
]

bytes_eq_comm : (s t : Bytes) → bytes_eq s t ≡ false → bytes_eq t s ≡ false
bytes_eq_comm s t h = ground (arith, bytes_eq_iff s t, bytes_eq_iff t s)

-- A key that is not found is none of the keys.
pub lookup-none {ℓ} :
    {A : Type ℓ} (m : Dict A) (k : Bytes) → lookup k m ≡ none → All (λ p. bytes_eq k p.0 ≡ false) m
unfolding lookup
lookup-none [] k e = tt
lookup-none ((j, b) ∷ m) k e = elim (Bool-cases (bytes_eq j k)) [
  | inl found ↦ absurd (cc (rw found at e))
  | inr other ↦ (bytes_eq_comm j k other, lookup-none m k (rw other at e))
]

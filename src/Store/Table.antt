-- ===== src/Store/Table.antt =====
-- The abstract view of a store: a map from keys to values with their deadlines.
use mathlib.Core.Path.{fun_ext}
use radish.Shared.{
  true, false, bytes_eq_iff, Option, none, some, [], ◌∷◌, sym, ◌∙◌, ◌≡◌, refl, arith, Bytes, ◌+ℤ◌,
  bytes_eq, if◌then◌else◌, Option-cases, Bool-cases, inl, inr,
}
use radish.Binary.Numbers.{InRange, from_bits-to_bits}
use radish.Dict.{Dict, lookup, is_some, is_empty, lookup-nil, dict_laws}
use radish.Store.{
  RadishStore, Timestamp, new_store, limited, add_timestamps, passed, is_expired, get, exists,
  create, rename, delete, clear,
}
use radish.Store.Moving.{lookup-move_timestamp}
use radish.Store.Valid.{IsValid}

-- What the store promises to keep of a key: its value and, under a time to live, its deadline.
abbrev pub Table {ℓ} : Type ℓ → Type ℓ
Table V = Bytes → Option (V × Option Timestamp)

-- The deadline that `Create` records under the time to live `ttl`.
abbrev pub deadline : Timestamp → Timestamp → Option Timestamp → Option Timestamp
deadline now ttl timestamp =
    if limited ttl
    then some (elim timestamp [ none ↦ add_timestamps now ttl | some t ↦ t ])
    else none

-- Where the sum is a 64-bit number, the addition does not wrap.
pub add_timestamps-sum :
    (now ttl : Timestamp) → InRange (now +ℤ ttl) → add_timestamps now ttl ≡ now +ℤ ttl
unfolding add_timestamps
add_timestamps-sum now ttl h = from_bits-to_bits (now +ℤ ttl) h

module _ {ℓ} {V : Type ℓ} where
  abbrev pub with_deadline : Option V → Option Timestamp → Option (V × Option Timestamp)
  with_deadline none d = none
  with_deadline (some v) d = some (v, d)

  pub table : RadishStore V → Table V
  table s k = with_deadline (lookup k s.m_data) (lookup k s.m_ttl_data)

  pub table-new_store : (ttl : Timestamp) (k : Bytes) → table (new_store ttl) k ≡ none
  unfolding table lookup
  table-new_store ttl k = refl

  -- The value of an entry whose deadline has not passed.
  abbrev pub live : Timestamp → Option (V × Option Timestamp) → Option V
  live now none = none
  live now (some (v, d)) = if passed now d then none else some v

  -- The abstract operations.
  abbrev pub put : Bytes → V × Option Timestamp → Table V → Table V
  put k e m j = if bytes_eq k j then some e else m j

  abbrev pub remove : Bytes → Table V → Table V
  remove k m j = if bytes_eq k j then none else m j

  abbrev pub move : Bytes → Bytes → Table V → Table V
  move old_key new_key m j =
      if bytes_eq old_key j then none else if bytes_eq new_key j then m old_key else m j

nil_of_empty {ℓ} : {V : Type ℓ} (m : Dict V) → is_empty m ≡ true → m ≡ []
nil_of_empty [] h = refl
nil_of_empty (x ∷ m) h = cc

module _ {ℓ} {V : Type ℓ} (now : Timestamp) (s : RadishStore V) (valid : IsValid s) where
  is_expired-passed : (k : Bytes) → is_expired now s k ≡ passed now (lookup k s.m_ttl_data)
  unfolding is_expired
  is_expired-passed k = elim (Bool-cases (limited s.m_ttl)) [
    | inl on ↦ rw on
    | inr off ↦ rw (off, valid.without_ttl off, lookup-nil)
  ]

  -- In a valid store `Get` returns the value of the entry of the key, if there is one and its
  -- deadline has not passed.
  pub get-table : (k : Bytes) → get now s k ≡ live now (table s k)
  unfolding get table
  get-table k = ground (arith, is_expired-passed k)

  -- In a valid store `Exists` tells whether there is an entry of the key whose deadline has
  -- not passed.
  pub exists-table : (k : Bytes) → exists now s k ≡ is_some (live now (table s k))
  unfolding exists table
  exists-table k = ground (arith, is_expired-passed k)

  -- In a valid store a creation puts the value under the key, with the given deadline or that
  -- of the clock and the time to live, and with none where there is no time to live; no other
  -- entry changes.
  pub table-create :
      (k : Bytes) (v : V) (timestamp : Option Timestamp)
      → table (create now s k v timestamp).0 ≡ put k (v, deadline now s.m_ttl timestamp) (table s)
  unfolding create table
  table-create k v timestamp = fun_ext λ j. elim (Bool-cases (limited s.m_ttl)) [
    | inl on ↦ rw on (simp dict_laws (ground arith))
    | inr off ↦ rw (off, valid.without_ttl off) (simp dict_laws (ground arith))
  ]

  -- In a valid store a deletion takes the entry of the key away, deadline included, and no
  -- other.
  pub table-delete : (k : Bytes) → table (delete s k).0 ≡ remove k (table s)
  unfolding delete table
  table-delete k = fun_ext λ j. simp dict_laws (ground arith)

  -- A valid store that is cleared has no entries and no deadlines left.
  pub table-clear : table (clear s).0 ≡ (λ k. none)
  unfolding clear table
  table-clear = fun_ext λ k. elim (Bool-cases (is_empty s.m_data)) [
    | inl e ↦ rw (e, nil_of_empty s.m_data e, lookup-nil)
    | inr e ↦ rw (e, lookup-nil)
  ]

  -- In a valid store a rename of a live key moves its entry, deadline included, to the new
  -- name, changes no other entry, and takes the key away where both names are the same; a
  -- rename of another key changes nothing.
  pub table-rename :
      (old_key new_key : Bytes)
      → table (rename now s old_key new_key).0
        ≡ (if is_some (live now (table s old_key)) then move old_key new_key (table s) else table s)
  unfolding rename table
  table-rename old_key new_key = elim (Option-cases (lookup old_key s.m_data)) [
    | inl missing ↦ rw (missing, rename)
    | inr (value, found) ↦ elim (Bool-cases (is_expired now s old_key)) [
      | inl gone ↦ rw (found, gone, rename, sym (is_expired-passed old_key) ∙ gone)
      | inr on ↦
          rw (found, on, rename, sym (is_expired-passed old_key) ∙ on)
            (fun_ext λ j. simp (dict_laws, lookup-move_timestamp) (ground (arith, found)))
    ]
  ]

  -- In a valid store the Boolean result of a rename says whether there was a live key to
  -- move.
  pub rename_done :
      (old_key new_key : Bytes)
      → (rename now s old_key new_key).1 ≡ is_some (live now (table s old_key))
  unfolding rename table
  rename_done old_key new_key = ground (arith, is_expired-passed old_key)

  -- The Boolean result of a deletion says whether there was an entry.
  pub delete_done : (k : Bytes) → (delete s k).1 ≡ is_some (table s k)
  unfolding delete table
  delete_done k = ground arith

  -- Where there was nothing to delete, or nothing to clear, the table is that of before.
  pub delete_nothing : (k : Bytes) → (delete s k).1 ≡ false → table s ≡ remove k (table s)
  unfolding delete table
  delete_nothing k h = fun_ext λ j. ground (arith, bytes_eq_iff k j)

  pub clear_nothing : (clear s).1 ≡ false → table s ≡ (λ k. none)
  unfolding clear table
  clear_nothing h = fun_ext λ k. elim (Bool-cases (is_empty s.m_data)) [
    | inl e ↦ rw (nil_of_empty s.m_data e, lookup-nil)
    | inr e ↦ absurd (ground (arith, h, e))
  ]

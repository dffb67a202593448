-- ===== src/Store/Valid.antt =====
-- The invariant of the store: keys are distinct, and deadlines belong to keys that are there.
use radish.Shared.{
  true, false, Option, some, [], ◌≡◌, refl, arith, Bytes, Option-cases, Bool-cases, inl, inr,
}
use radish.Dict.{lookup, insert, erase, contains, is_empty, dict_laws}
use radish.Dict.Distinct.{Distinct, insert-Distinct, erase-Distinct}
use radish.Store.Moving.{lookup-move_timestamp}
use radish.Store.{
  RadishStore, Timestamp, new_store, has_time_to_live, create, rename, delete, clear, limited,
  is_expired, move_timestamp,
}

-- With a time to live every key has a deadline, and only keys have; without one there is none.
pub record IsValid {ℓ} {V : Type ℓ} (s : RadishStore V) : Type ℓ where
  pub distinct : Distinct s.m_data
  pub with_ttl :
      has_time_to_live s ≡ true → (k : Bytes) → contains k s.m_ttl_data ≡ contains k s.m_data
  pub without_ttl : has_time_to_live s ≡ false → s.m_ttl_data ≡ []

module _ {ℓ} {V : Type ℓ} where
  pub new_store-IsValid : (ttl : Timestamp) → IsValid (new_store {V = V} ttl)
  new_store-IsValid ttl = record {
    distinct = tt;
    with_ttl = λ h k. simp dict_laws;
    without_ttl = λ h. refl;
  }

  pub create-IsValid :
      (now : Timestamp) (s : RadishStore V) (key : Bytes) (value : V) (timestamp : Option Timestamp)
      → IsValid s
      → IsValid (create now s key value timestamp).0
  unfolding create
  create-IsValid now s key value timestamp v = elim (Bool-cases (limited s.m_ttl)) [
    | inl on ↦ rw on (record {
      distinct = insert-Distinct key value s.m_data v.distinct;
      with_ttl = λ h k. simp dict_laws (ground (arith, v.with_ttl h k));
      without_ttl = λ h. cc;
    })
    | inr off ↦ rw off (record {
      distinct = insert-Distinct key value s.m_data v.distinct;
      with_ttl = λ h k. cc;
      without_ttl = v.without_ttl;
    })
  ]

  pub delete-IsValid : (s : RadishStore V) (key : Bytes) → IsValid s → IsValid (delete s key).0
  unfolding delete
  delete-IsValid s key v = record {
    distinct = erase-Distinct key s.m_data v.distinct;
    with_ttl = λ h k. simp dict_laws (ground (arith, v.with_ttl h k));
    without_ttl = λ h. rw (v.without_ttl h) (unfold erase in refl);
  }

  pub clear-IsValid : (s : RadishStore V) → IsValid s → IsValid (clear s).0
  unfolding clear
  clear-IsValid s v = elim (Bool-cases (is_empty s.m_data)) [
    | inl e ↦ rw e v
    | inr e ↦
        rw e (record { distinct = tt; with_ttl = λ h k. simp dict_laws; without_ttl = λ h. refl })
  ]

  moved-IsValid :
      (s : RadishStore V) (old_key new_key : Bytes) (value : V)
      → lookup old_key s.m_data ≡ some value
      → IsValid s
      → IsValid (record s {
        m_data = erase old_key (insert new_key value s.m_data);
        m_ttl_data = move_timestamp old_key new_key s.m_ttl_data;
      })
  moved-IsValid s old_key new_key value e v = record {
    distinct = erase-Distinct old_key _ (insert-Distinct new_key value s.m_data v.distinct);
    with_ttl = λ h k.
        simp (dict_laws, lookup-move_timestamp)
          (ground (arith, v.with_ttl h k, v.with_ttl h old_key));
    without_ttl = λ h. rw (v.without_ttl h) (unfold move_timestamp lookup erase in refl);
  }

  pub rename-IsValid :
      (now : Timestamp) (s : RadishStore V) (old_key new_key : Bytes)
      → IsValid s
      → IsValid (rename now s old_key new_key).0
  unfolding rename
  rename-IsValid now s old_key new_key v = elim (Option-cases (lookup old_key s.m_data)) [
    | inl missing ↦ rw (missing, rename) v
    | inr (value, found) ↦ elim (Bool-cases (is_expired now s old_key)) [
      | inl gone ↦ rw (found, gone, rename) v
      | inr live ↦ rw (found, live, rename) (moved-IsValid s old_key new_key value found v)
    ]
  ]

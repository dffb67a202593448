-- ===== src/Store.antt =====
-- The in-memory store, include/RadishStore.h. Each method that reads the clock takes the reading
-- `now` as an argument; a method that mutates returns the new store beside its result.
pub mod Moving
pub mod Valid
pub mod Scanning
pub mod Table
mod Tests
use radish.Shared.{
  ℕ, zero, suc, Bool, true, false, not, ◌&&◌, Option, none, some, List, [], ◌∷◌, ◌≡◌, refl, Bytes,
  ℤ, minus_one, ◌+ℤ◌, leb_ℤ, eqb_ℤ, if◌then◌else◌,
}
use radish.Binary.{from_bits, to_bits}
use radish.Dict.{Dict, lookup, insert, erase, contains, is_empty}

abbrev pub Timestamp : Type 0
Timestamp = ℤ

pub record RadishStore {ℓ} (V : Type ℓ) : Type ℓ where
  pub m_ttl : Timestamp
  pub m_data : Dict V
  pub m_ttl_data : Dict Timestamp

-- `m_ttl != -1`
unfoldable pub limited : Timestamp → Bool
limited ttl = not (eqb_ℤ ttl minus_one)

-- The test `m_clock.Now() >= m_ttlData.at(key)`, false where the map lacks the key.
abbrev pub passed : Timestamp → Option Timestamp → Bool
passed now none = false
passed now (some t) = leb_ℤ t now

-- The deadline moves with the key, and a key with none takes away that of the new name.
unfoldable pub move_timestamp : Bytes → Bytes → Dict Timestamp → Dict Timestamp
move_timestamp old_key new_key ttl_data = elim (lookup old_key ttl_data) [
  | some t ↦ erase old_key (insert new_key t ttl_data)
  | none ↦ erase new_key ttl_data
]

-- A sum of two `long long`. One that is out of range has no defined result; the bits that wrap
-- around stand for it here.
unfoldable pub add_timestamps : Timestamp → Timestamp → Timestamp
add_timestamps a b = from_bits (to_bits (a +ℤ b))

module _ {ℓ} {V : Type ℓ} where
  -- explicit RadishStore(const Timestamp& ttl)
  abbrev pub new_store : Timestamp → RadishStore V
  new_store ttl = record { m_ttl = ttl; m_data = []; m_ttl_data = [] }

  abbrev pub has_time_to_live : RadishStore V → Bool
  has_time_to_live s = limited s.m_ttl

  unfoldable pub get_ttl : RadishStore V → Timestamp
  get_ttl s = s.m_ttl

  unfoldable pub new_expiry_timestamp : Timestamp → RadishStore V → Timestamp
  new_expiry_timestamp now s = if has_time_to_live s then add_timestamps now s.m_ttl else minus_one

  unfoldable pub is_expired : Timestamp → RadishStore V → Bytes → Bool
  is_expired now s key = if has_time_to_live s then passed now (lookup key s.m_ttl_data) else false

  unfoldable pub get : Timestamp → RadishStore V → Bytes → Option V
  get now s key =
      if contains key s.m_data && not (is_expired now s key) then lookup key s.m_data else none

  unfoldable pub insert_timestamp_for_key :
      Timestamp → RadishStore V → Bytes → Option Timestamp → RadishStore V × Timestamp
  insert_timestamp_for_key now s key timestamp =
      let value : Timestamp = elim timestamp [ none ↦ add_timestamps now s.m_ttl | some t ↦ t ] in
      (record s { m_ttl_data = insert key value s.m_ttl_data }, value)

  unfoldable pub create :
      Timestamp → RadishStore V → Bytes → V → Option Timestamp → RadishStore V × Timestamp
  unfolding insert_timestamp_for_key
  create now s key value timestamp =
      let written : RadishStore V = record s { m_data = insert key value s.m_data } in
      if has_time_to_live written
      then insert_timestamp_for_key now written key timestamp
      else (written, minus_one)

  unfoldable pub rename : Timestamp → RadishStore V → Bytes → Bytes → RadishStore V × Bool
  unfolding move_timestamp
  rename now s old_key new_key = elim (lookup old_key s.m_data) [
    | none ↦ (s, false)
    | some value ↦ if is_expired now s old_key then (s, false) else (
      record s {
        m_data = erase old_key (insert new_key value s.m_data);
        m_ttl_data = move_timestamp old_key new_key s.m_ttl_data;
      },
      true,
    )
  ]

  unfoldable pub delete : RadishStore V → Bytes → RadishStore V × Bool
  delete s key = (
    record s { m_data = erase key s.m_data; m_ttl_data = erase key s.m_ttl_data },
    contains key s.m_data,
  )

  unfoldable pub clear : RadishStore V → RadishStore V × Bool
  clear s =
      if is_empty s.m_data then (s, false) else (record s { m_data = []; m_ttl_data = [] }, true)

  -- The loop of `Scan` over the entries, which pushes each live key.
  unfoldable pub scan_loop : Timestamp → RadishStore V → Dict V → List Bytes
  scan_loop now s [] = []
  scan_loop now s ((key, value) ∷ rest) =
      let keys = scan_loop now s rest in if is_expired now s key then keys else key ∷ keys

  unfoldable pub scan : Timestamp → RadishStore V → List Bytes
  unfolding scan_loop
  scan now s = scan_loop now s s.m_data

  -- std::count_if with the test `!IsExpired(entry.first)`.
  unfoldable pub count_live : Timestamp → RadishStore V → Dict V → ℕ
  count_live now s [] = 0
  count_live now s ((key, value) ∷ rest) =
      let count = count_live now s rest in if is_expired now s key then count else suc count

  unfoldable pub size : Timestamp → RadishStore V → ℕ
  unfolding count_live
  size now s = count_live now s s.m_data

  unfoldable pub exists : Timestamp → RadishStore V → Bytes → Bool
  exists now s key = if is_expired now s key then false else contains key s.m_data

  -- a.Swap(b)
  unfoldable pub swap : RadishStore V → RadishStore V → RadishStore V × RadishStore V
  swap a b = (b, a)

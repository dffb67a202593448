-- ===== src/Store/Scanning.antt =====
-- `Scan` and `Size` against `Exists`.
use radish.Shared.{
  ℕ, suc, List, [], ◌∷◌, ◌≡◌, refl, arith, Bytes, bytes_eq, bytes_eq_iff, length, if◌then◌else◌,
}
use radish.Dict.{Dict, lookup, contains}
use radish.Dict.Distinct.{Distinct}
use radish.Store.{RadishStore, Timestamp, is_expired, exists, scan, scan_loop, size, count_live}
use radish.Store.Valid.{IsValid}

-- How often a key stands in a list.
abbrev pub count : Bytes → List Bytes → ℕ
count k [] = 0
count k (j ∷ ks) = if bytes_eq j k then suc (count k ks) else count k ks

module _ {ℓ} {V : Type ℓ} (now : Timestamp) (s : RadishStore V) where
  count-scan_loop :
      (k : Bytes) (m : Dict V)
      → Distinct m
      → count k (scan_loop now s m)
        ≡ (if is_expired now s k then 0 else if contains k m then 1 else 0)
  unfolding scan_loop lookup
  count-scan_loop k [] h = ground arith
  count-scan_loop k ((j, v) ∷ m) h = ground (arith, count-scan_loop k m h.1, bytes_eq_iff j k)

  -- A scan of a valid store lists every key that exists once, and no other.
  pub count-scan :
      (k : Bytes) → IsValid s → count k (scan now s) ≡ (if exists now s k then 1 else 0)
  unfolding scan exists
  count-scan k valid = ground (arith, count-scan_loop k s.m_data valid.distinct)

  count_live-length : (m : Dict V) → count_live now s m ≡ length (scan_loop now s m)
  unfolding count_live scan_loop
  count_live-length [] = refl
  count_live-length ((j, v) ∷ m) = ground (arith, count_live-length m)

  -- The size is the number of keys that a scan lists.
  pub size-length : size now s ≡ length (scan now s)
  unfolding size scan
  size-length = count_live-length s.m_data

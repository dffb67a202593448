-- ===== src/Binary/Tests.antt =====
-- A run of the binary format.
use radish.Shared.{◌∷◌, ◌≡◌, refl, codes, ok}
use radish.Binary.{write_container, le_bytes}

written : write_container 2 (codes "abcd") ≡ ok (4 ∷ 0 ∷ 0 ∷ 0 ∷ codes "abcd")
unfolding write_container le_bytes
written = refl

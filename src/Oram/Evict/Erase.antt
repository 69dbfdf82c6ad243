-- ===== src/Oram/Evict/Erase.antt =====
-- Erasing from a vector by index, as writePath of path-oram/src/oram.cpp does it.
pub mod Laws
use path_oram_base.Common.{ℕ, zero, suc, List, [], ◌∷◌, ltb, if◌then◌else◌}

-- Into a descending order: `sort(begin, end, greater)` of the C++ library.
unfoldable pub insert_desc : ℕ → List ℕ → List ℕ
insert_desc k [] = k ∷ []
insert_desc k (j ∷ js) = if ltb j k then k ∷ j ∷ js else j ∷ insert_desc k js

unfoldable pub sort_desc : List ℕ → List ℕ
sort_desc [] = []
sort_desc (k ∷ ks) = insert_desc k (sort_desc ks)

module _ {ℓ} {A : Type ℓ} where
  -- `v.erase(v.begin() + i)`
  unfoldable pub erase_at : ℕ → List A → List A
  erase_at i [] = []
  erase_at zero (x ∷ xs) = xs
  erase_at (suc i) (x ∷ xs) = x ∷ erase_at i xs

  unfoldable pub erase_all : List ℕ → List A → List A
  erase_all [] xs = xs
  erase_all (i ∷ is) xs = erase_all is (erase_at i xs)

-- ===== src/Tests/Splitting.antt =====
-- Runs at concrete inputs, for the statements about the cutting of files and keys.
use path_oram_base.Common.{[], ◌∷◌}
use path_oram_base.Types.{Bytes}

abbrev ten : Bytes
ten = 80 ∷ 75 ∷ 3 ∷ 4 ∷ 255 ∷ 0 ∷ 0 ∷ 17 ∷ 9 ∷ 200 ∷ []

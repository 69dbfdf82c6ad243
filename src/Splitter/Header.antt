-- ===== src/Splitter/Header.antt =====
-- The header that read_file of path-oram/src/splitter.cpp shares first and handle_text restores.
use path_oram_base.Common.{
  ℕ, ◌^◌, ◌<◌, ◌≡◌, refl, sym, ap, ◌∙◌, arith, [], ◌∷◌, ◌++◌, take, drop, All, All-append,
}
use path_oram_base.Encoding.{
  le_bytes, from_le, IsByte, le_bytes-IsBytes, le_bytes-from_le, from_le-le_bytes, from_le-lt,
}
use path_oram_base.SecretSharing.{prime}
use path_oram_base.Splitter.{header_bytes}
use path_oram_base.Types.{Bytes}

from_le-zero : (a : Bytes) → from_le (a ++ 0 ∷ []) ≡ from_le a
unfolding from_le
from_le-zero [] = refl
from_le-zero (x ∷ a) = omega (arith, from_le-zero a)

header_bytes-All : (tot ct : ℕ) → All IsByte (header_bytes tot ct)
unfolding header_bytes
header_bytes-All tot ct =
    All-append IsByte (le_bytes 4 tot ++ le_bytes 2 6969) (le_bytes 1 ct)
      (All-append IsByte (le_bytes 4 tot) (le_bytes 2 6969) (le_bytes-IsBytes 4 tot).1
        (le_bytes-IsBytes 2 6969).1)
      (le_bytes-IsBytes 1 ct).1

-- The eight bytes of the number, of which the last is 0.
abbrev header : ℕ → ℕ → Bytes
header tot ct = le_bytes 8 (from_le (header_bytes tot ct))

header_back : (tot ct : ℕ) → header tot ct ≡ header_bytes tot ct ++ 0 ∷ []
unfolding header_bytes le_bytes
header_back tot ct =
    ap (le_bytes 8) (sym (from_le-zero (header_bytes tot ct)))
    ∙ le_bytes-from_le (header_bytes tot ct ++ 0 ∷ []) (
        All-append IsByte (header_bytes tot ct) (0 ∷ []) (header_bytes-All tot ct)
          (omega arith, tt))

pub header-tot_sz : (tot ct : ℕ) → tot < 2 ^ 32 → from_le (take 4 (header tot ct)) ≡ tot
unfolding header_bytes le_bytes
header-tot_sz tot ct h =
    ap (λ t. from_le (take 4 t)) (header_back tot ct) ∙ from_le-le_bytes 4 tot h

pub header-emptyct : (tot ct : ℕ) → ct < 256 → from_le (take 1 (drop 6 (header tot ct))) ≡ ct
unfolding header_bytes le_bytes
header-emptyct tot ct h =
    ap (λ t. from_le (take 1 (drop 6 t))) (header_back tot ct) ∙ from_le-le_bytes 1 ct h

pub header_lt : (tot ct : ℕ) → from_le (header_bytes tot ct) < prime
unfolding header_bytes le_bytes
header_lt tot ct = omega (arith, from_le-lt (header_bytes tot ct) (header_bytes-All tot ct))

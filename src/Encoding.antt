-- ===== src/Encoding.antt =====
-- Numbers as bytes: what the casts between `number *` and `uchar *` in path-oram/src and in
-- path_oram_Cloak_Query/ do on a little-endian machine, where a number has eight bytes.
use native.Mathlib.Nat.{pow-suc}
use path_oram_base.Common.{
  ℕ, zero, suc, ◌+◌, ◌*◌, ◌/◌, ◌%◌, ◌^◌, ◌<◌, ◌≡◌, refl, ap, [], ◌∷◌, arith, length, All,
}
use path_oram_base.Types.{Bytes}

abbrev pub IsByte : ℕ → Type 0
IsByte x = x < 256

-- `n` bytes.
abbrev pub IsBytes : ℕ → Bytes → Type 0
IsBytes n xs = (length xs ≡ n) × All IsByte xs

-- The lowest byte first.
unfoldable pub le_bytes : ℕ → ℕ → Bytes
le_bytes zero x = []
le_bytes (suc n) x = (x % 256) ∷ le_bytes n (x / 256)

unfoldable pub from_le : Bytes → ℕ
from_le [] = 0
from_le (x ∷ xs) = x + 256 * from_le xs

pub le_bytes-IsBytes : (n x : ℕ) → IsBytes n (le_bytes n x)
unfolding le_bytes
le_bytes-IsBytes zero x = (refl, tt)
le_bytes-IsBytes (suc n) x =
    let r = le_bytes-IsBytes n (x / 256) in (omega (arith, r.0), (omega arith, r.1))

pub from_le-le_bytes : (n x : ℕ) → x < 256 ^ n → from_le (le_bytes n x) ≡ x
unfolding le_bytes from_le
from_le-le_bytes zero x h = omega arith
from_le-le_bytes (suc n) x h =
    let q : x / 256 < 256 ^ n = omega (arith, pow-suc 256 n) in
    omega (arith, from_le-le_bytes n (x / 256) q)

pub from_le-lt : (xs : Bytes) → All IsByte xs → from_le xs < 256 ^ length xs
unfolding from_le
from_le-lt [] h = omega arith
from_le-lt (x ∷ xs) h = omega (arith, pow-suc 256 (length xs), from_le-lt xs h.1)

pub le_bytes-from_le : (xs : Bytes) → All IsByte xs → le_bytes (length xs) (from_le xs) ≡ xs
unfolding le_bytes from_le
le_bytes-from_le [] h = refl
le_bytes-from_le (x ∷ xs) h =
    let low : (x + 256 * from_le xs) % 256 ≡ x = omega arith in
    let high : (x + 256 * from_le xs) / 256 ≡ from_le xs = omega arith in
    rw (low, high) (ap (◌∷◌ x) (le_bytes-from_le xs h.1))

-- ===== src/Common/Int.antt =====
-- Signed integers over the native numbers, under the library's names, and the remainder and the range of
-- a signed 64-bit number.
use Prim.Native.Nat.{ℕ, zero, suc, ◌+◌, ◌-◌, ◌*◌, ◌%◌, ◌^◌, ◌<◌, ◌≤◌}
use mathlib.Core.Path.{◌≡◌, refl}
use mathlib.Core.Bool.{Bool, true, false, ◌&&◌}
use mathlib.Core.Option.{Option, none, some}
use native.Mathlib.Omega.{arith}
use path_oram_base.Common.Tests.{ltb, leb, if◌then◌else◌}

-- `negsuc n` is -(n + 1).
pub data ℤ : Type 0 where
  pos : ℕ → ℤ
  negsuc : ℕ → ℤ

abbrev pub pos_part : ℤ → ℕ
pos_part (pos n) = n
pos_part (negsuc n) = 0

abbrev pub neg_part : ℤ → ℕ
neg_part (pos n) = 0
neg_part (negsuc n) = suc n

-- a - b, as an integer.
abbrev pub sub_ℕ : ℕ → ℕ → ℤ
sub_ℕ a b = if leb b a then pos (a - b) else negsuc (b - a - 1)

abbrev pub neg_ℤ : ℤ → ℤ
neg_ℤ (pos zero) = pos zero
neg_ℤ (pos (suc n)) = negsuc n
neg_ℤ (negsuc n) = pos (suc n)

infixl 65 ◌+ℤ◌ ◌-ℤ◌
infixl 70 ◌*ℤ◌
unfoldable pub ◌+ℤ◌ : ℤ → ℤ → ℤ
pos m +ℤ pos n = pos (m + n)
pos m +ℤ negsuc n = sub_ℕ m (suc n)
negsuc m +ℤ pos n = sub_ℕ n (suc m)
negsuc m +ℤ negsuc n = negsuc (m + suc n)

unfoldable pub ◌-ℤ◌ : ℤ → ℤ → ℤ
unfolding ◌+ℤ◌
a -ℤ b = a +ℤ neg_ℤ b

unfoldable pub ◌*ℤ◌ : ℤ → ℤ → ℤ
pos m *ℤ pos n = pos (m * n)
pos m *ℤ negsuc n = neg_ℤ (pos (m * suc n))
negsuc m *ℤ pos n = neg_ℤ (pos (suc m * n))
negsuc m *ℤ negsuc n = pos (suc m * suc n)

-- C++'s `%` by a positive number has the sign of its first argument.
unfoldable pub trem : ℤ → ℕ → ℤ
trem (pos n) p = pos (n % p)
trem (negsuc n) p = neg_ℤ (pos (suc n % p))

-- A signed 64-bit result; `none` is overflow.
unfoldable pub ll : ℤ → Option ℤ
ll a = if ltb (pos_part a) (2 ^ 63) && leb (neg_part a) (2 ^ 63) then some a else none

pub int_ext : (a b : ℤ) → pos_part a + neg_part b ≡ pos_part b + neg_part a → a ≡ b
int_ext a b h = ground arith

pub pos_part-*ℤ : (a b : ℤ) → pos_part (a *ℤ b) ≡ pos_part a * pos_part b + neg_part a * neg_part b
unfolding ◌*ℤ◌
pos_part-*ℤ a b = ground arith

pub neg_part-*ℤ : (a b : ℤ) → neg_part (a *ℤ b) ≡ pos_part a * neg_part b + neg_part a * pos_part b
unfolding ◌*ℤ◌
neg_part-*ℤ a b = ground arith

pub +ℤ_parts :
    (a b : ℤ)
    → pos_part (a +ℤ b) + neg_part a + neg_part b ≡ neg_part (a +ℤ b) + pos_part a + pos_part b
unfolding ◌+ℤ◌
+ℤ_parts a b = ground arith

pub -ℤ_parts :
    (a b : ℤ)
    → pos_part (a -ℤ b) + neg_part a + pos_part b ≡ neg_part (a -ℤ b) + pos_part a + neg_part b
unfolding ◌-ℤ◌ ◌+ℤ◌
-ℤ_parts a b = ground arith

-- The distance from 0.
abbrev pub abs : ℤ → ℕ
abs (pos n) = n
abs (negsuc n) = suc n

pub abs-+ℤ : (a b : ℤ) → abs (a +ℤ b) ≤ abs a + abs b
unfolding ◌+ℤ◌
abs-+ℤ a b = ground arith

pub abs_minus : (a b : ℤ) → abs (a -ℤ b) ≤ abs a + abs b
unfolding ◌+ℤ◌ ◌-ℤ◌
abs_minus a b = ground arith

pub abs-*ℤ : (a b : ℤ) → abs (a *ℤ b) ≡ abs a * abs b
unfolding ◌*ℤ◌
abs-*ℤ a b = ground arith

pub abs-neg_ℤ : (a : ℤ) → abs (neg_ℤ a) ≡ abs a
abs-neg_ℤ a = ground arith

pub ll-abs : (a : ℤ) → abs a < 2 ^ 63 → ll a ≡ some a
unfolding ll
ll-abs a h = ground arith

-- The number with this sign and this distance from 0.
unfoldable pub signed : Bool → ℕ → ℤ
signed true n = pos n
signed false n = neg_ℤ (pos n)

pub abs-signed : (s : Bool) (n : ℕ) → abs (signed s n) ≡ n
unfolding signed
abs-signed s n = ground arith

pub signed-+ℤ : (s : Bool) (m n : ℕ) → signed s m +ℤ signed s n ≡ signed s (m + n)
unfolding signed ◌+ℤ◌
signed-+ℤ s m n = ground arith

pub signed-*ℤ : (s : Bool) (m n : ℕ) → pos m *ℤ signed s n ≡ signed s (m * n)
unfolding signed ◌*ℤ◌
signed-*ℤ s m n = ground arith

pub trem-signed : (s : Bool) (n p : ℕ) → trem (signed s n) p ≡ signed s (n % p)
unfolding signed trem
trem-signed true n p = refl
trem-signed false zero p = ground arith
trem-signed false (suc n) p = refl

pub ll-signed : (s : Bool) (n : ℕ) → n < 2 ^ 63 → ll (signed s n) ≡ some (signed s n)
ll-signed s n h = ll-abs (signed s n) (omega (arith, abs-signed s n))

-- Every number has a sign.
pub signed_cases : (a : ℤ) → (s : Bool) × (a ≡ signed s (abs a))
unfolding signed
signed_cases (pos n) = (true, refl)
signed_cases (negsuc n) = (false, refl)

pub *ℤ_signed : (s : Bool) (m n : ℕ) → signed s m *ℤ pos n ≡ signed s (m * n)
unfolding signed ◌*ℤ◌
*ℤ_signed s m n = ground arith

pub signed_zero : (s : Bool) → pos 0 ≡ signed s 0
unfolding signed
signed_zero true = refl
signed_zero false = refl

pub ll_pos : (n : ℕ) → n < 2 ^ 63 → ll (pos n) ≡ some (pos n)
ll_pos n h = ll-abs (pos n) h

pub neg_part_le : (a : ℤ) → neg_part a ≤ abs a
neg_part_le a = ground arith

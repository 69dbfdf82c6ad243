-- ===== src/SecretSharing/Inverse.antt =====
-- The inverse of `lower` in reconstructSecret of path-oram/src/helpers.cpp.
use Prim.Native.Nat.{◌∣◌}
use native.Mathlib.Nat.{
  dvd-mul_left_of_dvd, dvd-mul_right_of_dvd, dvd-add_iff_right, eq-one_of_dvd-one, div-add-mod,
  mod-lt, mod-mod,
}
use path_oram_base.Common.{
  ℕ, suc, ◌+◌, ◌-◌, ◌*◌, ◌/◌, ◌%◌, ◌<◌, ◌≤◌, ◌≡◌, refl, ap, ◌∙◌, some, arith, subst, if◌then◌else◌,
}
use path_oram_base.Common.Int.{
  ℤ, pos, negsuc, ◌+ℤ◌, ◌*ℤ◌, trem, abs, pos_part, neg_part, ll, ll-abs, abs-*ℤ, +ℤ_parts, abs-+ℤ,
  neg_part_le,
}
use path_oram_base.SecretSharing.{prime, inverse, is_negative, acc}
use path_oram_base.SecretSharing.Euclid.{Bezout, gcd_extended-Bezout}
use path_oram_base.SecretSharing.Modulo.{◌~◌, same, mul}
use path_oram_base.SecretSharing.Residue.{residue, residue-*ℤ}

-- PRIME - 1, which stands for -1.
abbrev pub minus_one : ℕ
minus_one = 992429121339693966

-- A number with an inverse has no common divisor with PRIME.
no_divisor : (l v g : ℕ) → ◌~◌ minus_one (v * l) 1 → g ∣ prime → g ∣ l → g ≡ 1
no_divisor l v g h a b = eq-one_of_dvd-one (
    (dvd-add_iff_right g (dvd-mul_right_of_dvd g a (v * l / prime))).1
      (subst (◌∣◌ g) whole (dvd-mul_left_of_dvd g b v)))
  where
    whole : v * l ≡ prime * (v * l / prime) + 1
    whole = omega (arith, div-add-mod (v * l) prime, h)

-- The y of a * x + b * y = 1 is an inverse.
coefficient_inverse :
    (l : ℕ) (x y : ℤ) (r : Bezout prime l x y) → r.g ≡ 1 → ◌~◌ minus_one (l * residue minus_one y) 1
coefficient_inverse l x y r e =
    same minus_one (pos_part x) (neg_part x + l * neg_part y) (l * residue minus_one y) 1
      (omega (arith, r.identity, e))

-- What inverts the distance from 0.
other : ℕ → ℤ → ℕ
other v (pos l) = v
other v (negsuc l) = v * minus_one

abs_inverse :
    (lower : ℤ) (v : ℕ)
    → ◌~◌ minus_one (v * residue minus_one lower) 1
    → ◌~◌ minus_one (other v lower * abs lower) 1
unfolding other
abs_inverse (pos l) v k = ap (λ t. t % prime) (omega arith) ∙ k
abs_inverse (negsuc l) v k = ap (λ t. t % prime) (omega arith) ∙ k

-- y, or y * -1 if `lower` is negative.
turn : ℤ → ℤ → ℤ
turn lower y = if is_negative lower then y *ℤ negsuc 0 else y

turn_lem :
    (lower y : ℤ)
    → abs y ≤ prime
    → (if is_negative lower then ll (y *ℤ negsuc 0) else some y) ≡ some (turn lower y)
unfolding is_negative turn
turn_lem (pos n) y h = refl
turn_lem (negsuc n) y h = ll-abs (y *ℤ negsuc 0) (omega (arith, abs-*ℤ y (negsuc 0)))

abs-turn : (lower y : ℤ) → abs (turn lower y) ≡ abs y
unfolding is_negative turn
abs-turn (pos n) y = refl
abs-turn (negsuc n) y = omega (arith, abs-*ℤ y (negsuc 0))

residue-turn :
    (lower y : ℤ)
    → ◌~◌ minus_one
        (residue minus_one lower * residue minus_one (turn lower y))
        (abs lower * residue minus_one y)
unfolding is_negative turn
residue-turn (pos n) y = same minus_one 0 0 _ _ (omega arith)
residue-turn (negsuc n) y =
    mul minus_one (residue minus_one (negsuc n)) (residue minus_one (negsuc n)) _ _ refl
      (residue-*ℤ minus_one y (negsuc 0))
    ∙ same minus_one 0 (suc n * residue minus_one y * (minus_one - 1)) _ _ (omega arith)

-- Adding PRIME makes it a number from 0 on.
raise :
    (y : ℤ)
    → abs y ≤ prime
    → (i : ℕ) × (y +ℤ pos prime ≡ pos i) × (i ≤ 2 * prime) × ◌~◌ minus_one i (residue minus_one y)
raise y h = go (y +ℤ pos prime) refl
  where
    go :
        (z : ℤ)
        → y +ℤ pos prime ≡ z
        → (i : ℕ) × (z ≡ pos i) × (i ≤ 2 * prime) × ◌~◌ minus_one i (residue minus_one y)
    go (pos i) e = (
      i,
      refl,
      omega (arith, abs-+ℤ y (pos prime), ap abs e),
      same minus_one (neg_part y) 1 i (residue minus_one y)
          (omega (arith, +ℤ_parts y (pos prime), ap pos_part e, ap neg_part e)),
    )
    go (negsuc i) e =
        absurd (omega (arith, +ℤ_parts y (pos prime), neg_part_le y, ap pos_part e, ap neg_part e))

-- Where `lower` has an inverse modulo PRIME, of which v is one, the code finds one.
pub inverse_lem :
    (lower : ℤ) (v : ℕ)
    → abs lower < prime
    → ◌~◌ minus_one (v * residue minus_one lower) 1
    → (i : ℕ) × (inverse lower ≡ some (pos i))
      × (i < prime)
      × ◌~◌ minus_one (residue minus_one lower * i) 1
unfolding inverse trem
inverse_lem lower v h k =
    let (x, y, e, r) =
      gcd_extended-Bezout prime (abs lower) (acc (abs lower)) (omega arith) (omega arith)
        (omega arith) in
    let z = turn lower y in
    let (i, f, small, residue_i) = raise z (omega (arith, abs-turn lower y, r.size_y)) in
    let one = no_divisor_abs r.divides_a r.divides_b in
    (
      i % prime,
      rw (e, turn_lem lower y r.size_y, ll-abs (z +ℤ pos prime) (omega (arith, ap abs f)), f) refl,
      mod-lt i (omega arith),
      mul minus_one (residue minus_one lower) (residue minus_one lower) (i % prime)
            (residue minus_one z) refl (mod-mod i prime ∙ residue_i)
          ∙ residue-turn lower y
          ∙ coefficient_inverse (abs lower) x y r one,
    )
  where
    no_divisor_abs : {g : ℕ} → g ∣ prime → g ∣ abs lower → g ≡ 1
    no_divisor_abs a b = no_divisor (abs lower) (other v lower) _ (abs_inverse lower v k) a b

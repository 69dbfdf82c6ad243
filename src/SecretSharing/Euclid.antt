-- ===== src/SecretSharing/Euclid.antt =====
-- gcdExtended of path-oram/src/helpers.cpp.
use mathlib.Core.WellFounded.{Acc}
use native.Mathlib.Nat.{dvd_refl, dvd-zero, dvd-mod_iff, div-add-mod, mul-le-mul_right}
use Prim.Native.Nat.{◌∣◌}
use path_oram_base.Common.{
  ℕ, zero, suc, ◌+◌, ◌*◌, ◌/◌, ◌%◌, ◌^◌, ◌<◌, ◌≤◌, ◌≡◌, refl, ap, some, arith, ◌⊎◌, inl, inr,
}
use path_oram_base.Common.Int.{
  ℤ, pos, ◌*ℤ◌, ◌-ℤ◌, abs, pos_part, neg_part, ll-abs, -ℤ_parts, abs_minus, abs-*ℤ, pos_part-*ℤ,
  neg_part-*ℤ,
}
use path_oram_base.SecretSharing.{gcd_extended, remainder_lt}

-- x and y with a * x + b * y = g, where g is a common divisor of a and b.
pub record Bezout (a b : ℕ) (x y : ℤ) : Type 0 where
  pub g : ℕ
  pub identity : a * pos_part x + b * pos_part y ≡ g + a * neg_part x + b * neg_part y
  pub divides_a : g ∣ a
  pub divides_b : g ∣ b
  pub size_x : abs x ≤ suc b
  pub size_x_pos : 0 < b → abs x ≤ b
  pub size_y : abs y ≤ a
  pub size_y_zero : b ≡ 0 → abs y ≡ 0

size_step :
    (a c : ℕ) (x y : ℤ)
    → 0 < a
    → Bezout (suc c) (a % suc c) x y
    → (abs y * (a / suc c) ≤ a) × (abs x + abs y * (a / suc c) ≤ a)
size_step a c x y h r =
    let most = mul-le-mul_right (a / suc c) r.size_y in
    let whole = div-add-mod a (suc c) in
    let rest : (a % suc c ≡ 0) ⊎ (0 < a % suc c) = omega arith in
    elim rest [
      | inl e ↦
          let none_left = ap (λ t. t * (a / suc c)) (r.size_y_zero e) in
          (omega (arith, r.size_x), omega (arith, r.size_x))
      | inr p ↦ (omega (arith, r.size_x_pos p), omega (arith, r.size_x_pos p))
    ]

coefficients_step :
    (a c : ℕ) (x y : ℤ)
    → 0 < a
    → Bezout (suc c) (a % suc c) x y
    → Bezout a (suc c) y (x -ℤ y *ℤ pos (a / suc c))
coefficients_step a c x y h r =
    let n = a / suc c in
    let whole = div-add-mod a (suc c) in
    let (small, sum) = size_step a c x y h r in
    record {
      g = r.g;
      identity = omega (
        arith,
        r.identity,
        ap (λ t. suc c * t) (-ℤ_parts x (y *ℤ pos n)),
        ap (λ t. suc c * t) (pos_part-*ℤ y (pos n)),
        ap (λ t. suc c * t) (neg_part-*ℤ y (pos n)),
        ap (λ t. t * pos_part y) whole,
        ap (λ t. t * neg_part y) whole,
      );
      divides_a = (dvd-mod_iff r.g r.divides_a).0 r.divides_b;
      divides_b = r.divides_a;
      size_x = omega (arith, r.size_y);
      size_x_pos = λ p. r.size_y;
      size_y = omega (arith, abs_minus x (y *ℤ pos n), abs-*ℤ y (pos n));
      size_y_zero = λ e. absurd (omega arith);
    }

-- For an `a` from 1 on and a `b`, both below 2 ^ 63, gcdExtended ends and overflows nowhere, and
-- its x and y give a common divisor of a and b as a * x + b * y, where x is no larger than b, or
-- than 1 if b is 0, and y no larger than a.
pub gcd_extended-Bezout :
    (a b : ℕ) (w : Acc ◌<◌ b)
    → 0 < a
    → a < 2 ^ 63
    → b < 2 ^ 63
    → (x : ℤ) × (y : ℤ) × (gcd_extended a b w ≡ some (x, y)) × Bezout a b x y
unfolding gcd_extended
gcd_extended-Bezout a b (Acc.intro zero _) h k l = (
  pos 1,
  pos 0,
  refl,
  record {
    g = a;
    identity = omega arith;
    divides_a = dvd_refl a;
    divides_b = dvd-zero a;
    size_x = omega arith;
    size_x_pos = λ p. absurd (omega arith);
    size_y = omega arith;
    size_y_zero = λ e. refl;
  },
)
gcd_extended-Bezout a b (Acc.intro (suc c) rounds) h k l =
    let (x, y, e, r) =
      gcd_extended-Bezout (suc c) (a % suc c) (rounds (a % suc c) (remainder_lt a c)) (omega arith)
        l (omega (arith, remainder_lt a c)) in
    let product = y *ℤ pos (a / suc c) in
    let (small, sum) = size_step a c x y h r in
    (
      y,
      x -ℤ product,
      rw
          (
            e,
            ll-abs product (omega (arith, abs-*ℤ y (pos (a / suc c)))),
            ll-abs (x -ℤ product) (omega (arith, abs_minus x product, abs-*ℤ y (pos (a / suc c)))),
          )
          refl,
      coefficients_step a c x y h r,
    )

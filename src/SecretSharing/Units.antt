-- ===== src/SecretSharing/Units.antt =====
-- Inverses modulo PRIME of the differences of the points, which are below 10.
use path_oram_base.Common.{
  ℕ, zero, suc, ◌+◌, ◌-◌, ◌*◌, ◌<◌, ◌≤◌, ◌≡◌, refl, ap, ◌∙◌, arith, List, [], ◌∷◌, ◌==◌, false,
  if◌then◌else◌, ltb, ltb→lt, inl, inr, Bool-cases, All,
}
use path_oram_base.SecretSharing.Inverse.{minus_one}
use path_oram_base.SecretSharing.Lagrange.{IsIn, differences, Inverses}
use path_oram_base.SecretSharing.Modulo.{◌~◌, same, mul}

small_inverse : ℕ → ℕ
small_inverse (suc (suc zero)) = 496214560669846984
small_inverse (suc (suc (suc zero))) = 661619414226462645
small_inverse (suc (suc (suc (suc zero)))) = 248107280334923492
small_inverse (suc (suc (suc (suc (suc zero))))) = 396971648535877587
small_inverse (suc (suc (suc (suc (suc (suc zero)))))) = 827024267783078306
small_inverse (suc (suc (suc (suc (suc (suc (suc zero))))))) = 141775588762813424
small_inverse (suc (suc (suc (suc (suc (suc (suc (suc zero)))))))) = 124053640167461746
small_inverse (suc (suc (suc (suc (suc (suc (suc (suc (suc zero))))))))) = 220539804742154215
small_inverse d = 1

small_inverse_lem : (d : ℕ) → 0 < d → d ≤ 9 → ◌~◌ minus_one (small_inverse d * d) 1
unfolding small_inverse
small_inverse_lem zero h k = absurd (omega arith)
small_inverse_lem (suc zero) h k = refl
small_inverse_lem (suc (suc zero)) h k = refl
small_inverse_lem (suc (suc (suc zero))) h k = refl
small_inverse_lem (suc (suc (suc (suc zero)))) h k = refl
small_inverse_lem (suc (suc (suc (suc (suc zero))))) h k = refl
small_inverse_lem (suc (suc (suc (suc (suc (suc zero)))))) h k = refl
small_inverse_lem (suc (suc (suc (suc (suc (suc (suc zero))))))) h k = refl
small_inverse_lem (suc (suc (suc (suc (suc (suc (suc (suc zero)))))))) h k = refl
small_inverse_lem (suc (suc (suc (suc (suc (suc (suc (suc (suc zero))))))))) h k = refl
small_inverse_lem (suc (suc (suc (suc (suc (suc (suc (suc (suc (suc d)))))))))) h k =
    absurd (omega arith)

-- The inverse of x - y.
unit_inverse : ℕ → ℕ → ℕ
unit_inverse x y = if ltb y x then small_inverse (x - y) else minus_one * small_inverse (y - x)

unit_inverse_lem :
    (x y : ℕ)
    → x ≤ 9
    → y ≤ 9
    → (x == y) ≡ false
    → ◌~◌ minus_one (unit_inverse x y * (x + minus_one * y)) 1
unfolding unit_inverse
unit_inverse_lem x y h k e = elim (Bool-cases (ltb y x)) [
  | inl t ↦ rw t (
      same minus_one 0 (small_inverse (x - y) * y) (small_inverse (x - y) * (x + minus_one * y))
        (small_inverse (x - y) * (x - y))
        (ground (arith, ap (λ u. small_inverse (x - y) * u) (above x y (ltb→lt y x t))))
      ∙ small_inverse_lem (x - y) (omega (arith, ltb→lt y x t)) (omega arith))
  | inr t ↦
      let d = y - x in
      let i = small_inverse d in
      let split : y ≡ x + d = ground arith in
      rw t (
        same minus_one 0 (minus_one * (i * x) + minus_one * (i * d) - i * d)
          (minus_one * i * (x + minus_one * y)) (i * d) (omega (arith, ap (λ u. i * u) split))
        ∙ small_inverse_lem d (ground arith) (omega arith))
]
  where
    above : (x y : ℕ) → y < x → y + (x - y) ≡ x
    above x y h = omega arith

-- The inverse of the product of the differences.
pub product_inverse : List ℕ → ℕ → ℕ
product_inverse [] x = 1
product_inverse (y ∷ ys) x =
    let rest = product_inverse ys x in if x == y then rest else unit_inverse x y * rest

pub product_inverse_lem :
    (x : ℕ) (ys : List ℕ)
    → x ≤ 9
    → All (λ y. y ≤ 9) ys
    → ◌~◌ minus_one (product_inverse ys x * differences minus_one x ys) 1
unfolding product_inverse differences
product_inverse_lem x [] h a = refl
product_inverse_lem x (y ∷ ys) h a = elim (Bool-cases (x == y)) [
  | inl e ↦ rw e (product_inverse_lem x ys h a.1)
  | inr e ↦
      let i = product_inverse ys x in
      let u = unit_inverse x y in
      let d = differences minus_one x ys in
      rw e (
        same minus_one 0 0 (u * i * ((x + minus_one * y) * d)) (u * (x + minus_one * y) * (i * d))
          (omega arith)
        ∙ mul minus_one (u * (x + minus_one * y)) 1 (i * d) 1 (unit_inverse_lem x y h a.0 e)
            (product_inverse_lem x ys h a.1))
]

IsIn-All : (x : ℕ) (xs : List ℕ) → All (λ y. y ≤ 9) xs → IsIn x xs → x ≤ 9
unfolding IsIn
IsIn-All x [] a m = absurd m
IsIn-All x (y ∷ ys) a (inl e) = omega (arith, a.0)
IsIn-All x (y ∷ ys) a (inr m) = IsIn-All x ys a.1 m

-- Points up to 9 have inverses.
pub product_inverse-Inverses :
    (xs : List ℕ) → All (λ y. y ≤ 9) xs → Inverses minus_one (product_inverse xs) xs
unfolding Inverses
product_inverse-Inverses xs a x m = product_inverse_lem x xs (IsIn-All x xs a m) a

-- ===== src/SecretSharing/Products.antt =====
-- The loop over `j` of reconstructSecret in path-oram/src/helpers.cpp, on the shares of a polynomial.
use native.Mathlib.Nat.{mul-le-mul_left}
use path_oram_base.Common.{
  ℕ, ◌+◌, ◌*◌, ◌%◌, ◌^◌, ◌<◌, ◌≤◌, ◌≡◌, refl, ap, ◌∙◌, arith, some, List, [], ◌∷◌, map, ◌==◌,
  if◌then◌else◌, inl, inr, Bool-cases, All,
}
use path_oram_base.Common.Int.{ℤ, pos, negsuc, ◌-ℤ◌, ◌+ℤ◌, ◌*ℤ◌, trem, abs, ll-abs, abs-*ℤ}
use path_oram_base.SecretSharing.{prime, SecretPair, products}
use path_oram_base.SecretSharing.Evaluate.{share}
use path_oram_base.SecretSharing.Inverse.{minus_one}
use path_oram_base.SecretSharing.Lagrange.{differences}
use path_oram_base.SecretSharing.Modulo.{◌~◌, mul}
use path_oram_base.SecretSharing.Residue.{
  residue, residue-*ℤ, residue_minus, residue-trem, abs-trem-lt,
}

-- The product of the -y, for the y that are not x.
unfoldable pub others : ℕ → List ℕ → ℕ
others x [] = 1
others x (y ∷ ys) = let rest = others x ys in if x == y then rest else minus_one * y * rest

-- The points of a polynomial with these coefficients.
unfoldable pub shares : List ℕ → List ℕ → List SecretPair
shares cs xs = map (λ x. share x cs) xs

-- Index i is skipped where the x is x_i.
unfoldable pub Agree : ℕ → ℕ → ℕ → List ℕ → Type 0
Agree i x j [] = Unit
Agree i x j (y ∷ ys) = ((i == j) ≡ (x == y)) × Agree i x (j + 1) ys

upper_step :
    (upper : ℤ) (y : ℕ)
    → ◌~◌ minus_one
        (residue minus_one (trem (upper *ℤ pos y *ℤ negsuc 0) prime))
        (residue minus_one upper * (minus_one * y))
upper_step upper y =
    residue-trem minus_one (upper *ℤ pos y *ℤ negsuc 0)
    ∙ residue-*ℤ minus_one (upper *ℤ pos y) (negsuc 0)
    ∙ mul minus_one (residue minus_one (upper *ℤ pos y)) (residue minus_one upper * y) minus_one
        minus_one (residue-*ℤ minus_one upper (pos y) ∙ ap (λ t. t % prime) (omega arith)) refl
    ∙ ap (λ t. t % prime) (omega arith)

lower_step :
    (lower : ℤ) (x y : ℕ)
    → ◌~◌ minus_one
        (residue minus_one (trem (lower *ℤ (pos x -ℤ pos y)) prime))
        (residue minus_one lower * (x + minus_one * y))
lower_step lower x y =
    residue-trem minus_one (lower *ℤ (pos x -ℤ pos y))
    ∙ residue-*ℤ minus_one lower (pos x -ℤ pos y)
    ∙ mul minus_one (residue minus_one lower) (residue minus_one lower)
        (residue minus_one (pos x -ℤ pos y)) (x + minus_one * y) refl
        (residue_minus minus_one (pos x) (pos y) ∙ ap (λ t. t % prime) (omega arith))

-- The difference of two points up to 9.
small_difference : (x y : ℕ) → x ≤ 9 → y ≤ 9 → abs (pos x -ℤ pos y) ≤ 9
unfolding ◌-ℤ◌ ◌+ℤ◌
small_difference x y h k = ground arith

-- With points up to 9 nothing overflows.
no_overflow : (a b : ℕ) → a < prime → b ≤ 9 → a * b < 2 ^ 63
no_overflow a b h k = omega (arith, mul-le-mul_left a k)

pub products_lem :
    (cs ys : List ℕ) (i x j : ℕ) (upper lower : ℤ)
    → x ≤ 9
    → All (λ y. y ≤ 9) ys
    → Agree i x j ys
    → abs upper < prime
    → abs lower < prime
    → (u : ℤ) × (l : ℤ) × (products i (pos x) j (shares cs ys) upper lower ≡ some (u, l))
      × (abs l < prime)
      × ◌~◌ minus_one (residue minus_one u) (residue minus_one upper * others x ys)
      × ◌~◌ minus_one (residue minus_one l) (residue minus_one lower * differences minus_one x ys)
unfolding products Agree others differences shares share
products_lem cs [] i x j upper lower h a g p q =
    (upper, lower, refl, q, ap (λ t. t % prime) (omega arith), ap (λ t. t % prime) (omega arith))
products_lem cs (y ∷ ys) i x j upper lower h a (e, g) p q = elim (Bool-cases (x == y)) [
  | inl t ↦ rw (products, e, t) (products_lem cs ys i x (j + 1) upper lower h a.1 g p q)
  | inr t ↦
      let negated = upper *ℤ pos y *ℤ negsuc 0 in
      let difference = pos x -ℤ pos y in
      let by_difference = lower *ℤ difference in
      let small = small_difference x y h a.0 in
      let (u, l, f, bound_l, residue_u, residue_l) =
        products_lem cs ys i x (j + 1) (trem negated prime) (trem by_difference prime) h a.1 g
          (abs-trem-lt minus_one negated) (abs-trem-lt minus_one by_difference) in
      (
        u,
        l,
        rw
            (
              products,
              e,
              t,
              ll-abs (upper *ℤ pos y)
                  (omega (arith, abs-*ℤ upper (pos y), no_overflow (abs upper) y p a.0)),
              ll-abs negated (
                  omega (
                    arith,
                    abs-*ℤ upper (pos y),
                    abs-*ℤ (upper *ℤ pos y) (negsuc 0),
                    no_overflow (abs upper) y p a.0,
                  )),
              ll-abs difference (omega (arith, small)),
              ll-abs by_difference (
                  omega (
                    arith,
                    abs-*ℤ lower difference,
                    no_overflow (abs lower) (abs difference) q small,
                  )),
            )
            f,
        bound_l,
        rw t (
            residue_u
            ∙ mul minus_one (residue minus_one (trem negated prime))
                (residue minus_one upper * (minus_one * y)) (others x ys) (others x ys)
                (upper_step upper y) refl
            ∙ ap (λ t. t % prime) (omega arith)),
        rw t (
            residue_l
            ∙ mul minus_one (residue minus_one (trem by_difference prime))
                (residue minus_one lower * (x + minus_one * y)) (differences minus_one x ys)
                (differences minus_one x ys) (lower_step lower x y) refl
            ∙ ap (λ t. t % prime) (omega arith)),
      )
]

-- ===== src/SecretSharing/Interpolate.antt =====
-- The weighted sum of the values of a polynomial, which is what reconstructSecret of helpers.cpp adds up.
use native.Mathlib.Nat.{pow-zero, pow-suc}
use path_oram_base.Common.{
  ℕ, zero, suc, ◌+◌, ◌*◌, ◌%◌, ◌^◌, ◌<◌, ◌≤◌, ◌≡◌, refl, ap, ◌∙◌, arith, List, [], ◌∷◌, length,
}
use path_oram_base.SecretSharing.Evaluate.{value}
use path_oram_base.SecretSharing.Lagrange.{
  AllDistinct, weighted, weighted-ext, weighted_linear, Inverses, drop_point, Inverses-drop_point,
  weighted-drop_point, drop_sum, weighted_one,
}
use path_oram_base.SecretSharing.Modulo.{◌~◌, same, add, mul}

module _ (n : ℕ) where
  -- One coefficient of the weighted sum.
  term :
      (e c : ℕ) (cs : List ℕ) (inv : ℕ → ℕ) (xs : List ℕ)
      → weighted n (λ x. value x e (c ∷ cs) * inv x) xs
        ≡ c * weighted n (λ x. x ^ e * inv x) xs + weighted n (λ x. value x (e + 1) cs * inv x) xs
  unfolding value
  term e c cs inv xs =
      weighted-ext n (λ x. value x e (c ∷ cs) * inv x)
        (λ x. c * (x ^ e * inv x) + 1 * (value x (e + 1) cs * inv x)) xs (λ x. omega arith)
      ∙ weighted_linear n c 1 (λ x. x ^ e * inv x) (λ x. value x (e + 1) cs * inv x) xs
      ∙ omega arith

  -- What the weighted n sum of the powers of this exponent is.
  abbrev at_zero : ℕ → ℕ
  at_zero zero = 1
  at_zero (suc m) = 0

  pub weighted_power :
      (m : ℕ) (inv : ℕ → ℕ) (y : ℕ) (xs : List ℕ)
      → m ≤ length xs
      → AllDistinct (y ∷ xs)
      → Inverses n inv (y ∷ xs)
      → ◌~◌ n (weighted n (λ x. x ^ m * inv x) (y ∷ xs)) (at_zero m)
  unfolding AllDistinct
  weighted_power zero inv y xs h d i =
      ap (λ t. t % suc n)
        (weighted-ext n (λ x. x ^ 0 * inv x) inv (y ∷ xs)
          (λ x. omega (arith, ap (λ t. t * inv x) (pow-zero x))))
      ∙ weighted_one n inv y xs d i
  weighted_power (suc m) inv y [] h d i = absurd (omega arith)
  weighted_power (suc m) inv y (z ∷ xs) h d i =
      power_step m inv y (z ∷ xs) (weighted_power m inv y (z ∷ xs) (omega arith) d i) (
        weighted_power m (drop_point n inv y) z xs (omega arith) d.1
          (Inverses-drop_point n inv y (z ∷ xs) d i))
    where
      power_step :
          (m : ℕ) (inv : ℕ → ℕ) (y : ℕ) (xs : List ℕ)
          → ◌~◌ n (weighted n (λ x. x ^ m * inv x) (y ∷ xs)) (at_zero m)
          → ◌~◌ n (weighted n (λ x. x ^ m * drop_point n inv y x) xs) (at_zero m)
          → ◌~◌ n (weighted n (λ x. x ^ suc m * inv x) (y ∷ xs)) 0
      power_step m inv y xs h k =
          let f = λ (x : ℕ). x ^ m * inv x in
          same n (y * weighted n f (y ∷ xs)) 0 (weighted n (λ x. x ^ suc m * inv x) (y ∷ xs))
            (weighted n (drop_point n f y) (y ∷ xs) + y * weighted n f (y ∷ xs))
            (omega (
              arith,
              drop_sum n f y (y ∷ xs),
              weighted-ext n (λ x. x ^ suc m * inv x) (λ x. x * f x) (y ∷ xs)
                  (λ x. omega (arith, ap (λ t. t * inv x) (pow-suc x m))),
            ))
          ∙ add n (weighted n (drop_point n f y) (y ∷ xs)) (n * y * at_zero m)
              (y * weighted n f (y ∷ xs)) (y * at_zero m)
              (weighted-drop_point n f y xs
                ∙ mul n (n * y) (n * y) (weighted n (drop_point n f y) xs) (at_zero m) refl (
                    ap (λ t. t % suc n)
                      (weighted-ext n (drop_point n f y) (λ x. x ^ m * drop_point n inv y x) xs
                        (λ x. omega arith))
                    ∙ k))
              (mul n y y (weighted n f (y ∷ xs)) (at_zero m) refl h)
          ∙ same n 0 (y * at_zero m) (n * y * at_zero m + y * at_zero m) 0 (omega arith)

  -- The terms from exponent 1 on sum up to 0.
  weighted_rest :
      (e : ℕ) (cs : List ℕ) (inv : ℕ → ℕ) (y : ℕ) (xs : List ℕ)
      → 0 < e
      → e + length cs ≤ suc (length xs)
      → AllDistinct (y ∷ xs)
      → Inverses n inv (y ∷ xs)
      → ◌~◌ n (weighted n (λ x. value x e cs * inv x) (y ∷ xs)) 0
  unfolding value
  weighted_rest e [] inv y xs p h d i =
      ap (λ t. t % suc n)
        (weighted-ext n (λ x. 0 * inv x) (λ x. 0 * inv x + 0 * inv x) (y ∷ xs) (λ x. omega arith)
          ∙ weighted_linear n 0 0 inv inv (y ∷ xs)
          ∙ omega arith)
  weighted_rest e (c ∷ cs) inv y xs p h d i =
      ap (λ t. t % suc n) (term e c cs inv (y ∷ xs))
      ∙ add n (c * weighted n (λ x. x ^ e * inv x) (y ∷ xs)) (c * at_zero e)
          (weighted n (λ x. value x (e + 1) cs * inv x) (y ∷ xs)) 0
          (mul n c c (weighted n (λ x. x ^ e * inv x) (y ∷ xs)) (at_zero e) refl
            (weighted_power e inv y xs (omega arith) d i))
          (weighted_rest (e + 1) cs inv y xs (omega arith) (omega arith) d i)
      ∙ ap (λ t. (c * t + 0) % suc n) (at_zero_pos e p)
      ∙ same n 0 0 (c * 0 + 0) 0 (omega arith)
    where
      at_zero_pos : (e : ℕ) → 0 < e → at_zero e ≡ 0
      at_zero_pos zero p = absurd (omega arith)
      at_zero_pos (suc e) p = refl

  -- With at least as many points as coefficients, the value at 0 comes out.
  pub weighted-value :
      (c : ℕ) (cs : List ℕ) (inv : ℕ → ℕ) (y : ℕ) (xs : List ℕ)
      → length cs ≤ length xs
      → AllDistinct (y ∷ xs)
      → Inverses n inv (y ∷ xs)
      → ◌~◌ n (weighted n (λ x. value x 0 (c ∷ cs) * inv x) (y ∷ xs)) c
  weighted-value c cs inv y xs h d i =
      ap (λ t. t % suc n) (term 0 c cs inv (y ∷ xs))
      ∙ add n (c * weighted n (λ x. x ^ 0 * inv x) (y ∷ xs)) c
          (weighted n (λ x. value x (0 + 1) cs * inv x) (y ∷ xs)) 0
          (mul n c c (weighted n (λ x. x ^ 0 * inv x) (y ∷ xs)) 1 refl
              (weighted_power 0 inv y xs (omega arith) d i)
            ∙ same n 0 0 (c * 1) c (omega arith))
          (weighted_rest (0 + 1) cs inv y xs (omega arith) (omega arith) d i)
      ∙ same n 0 0 (c + 0) c (omega arith)

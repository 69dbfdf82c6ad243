-- ===== src/SecretSharing/Lagrange.antt =====
-- Lagrange's interpolation at 0, modulo a number `suc n`, for the points of helpers.cpp's
-- reconstructSecret. Where differences of points are invertible the modulus need not be a prime.
use path_oram_base.Common.{
  ℕ, suc, ◌+◌, ◌*◌, ◌%◌, ◌≡◌, refl, sym, ap, ◌∙◌, arith, List, [], ◌∷◌, ◌==◌, if◌then◌else◌, true,
  false, ◌⊎◌, inl, inr, Bool, ==_refl, eq→==, ne→==,
}
use path_oram_base.SecretSharing.Modulo.{◌~◌, same, add, mul}

unfoldable pub IsIn : ℕ → List ℕ → Type 0
IsIn x [] = ⊥
IsIn x (y ∷ ys) = (x ≡ y) ⊎ IsIn x ys

unfoldable pub AllDistinct : List ℕ → Type 0
unfolding IsIn
AllDistinct [] = Unit
AllDistinct (x ∷ xs) = ((y : ℕ) → IsIn y xs → (y == x) ≡ false) × AllDistinct xs

pub not_both : {b : Bool} → b ≡ true → b ≡ false → ⊥
not_both h k = ground (arith, h, k)

module _ (n : ℕ) where
  -- The product of the -y.
  unfoldable pub negated : List ℕ → ℕ
  negated [] = 1
  negated (y ∷ ys) = n * y * negated ys

  -- The product of the x - y, for the y that are not x.
  unfoldable pub differences : ℕ → List ℕ → ℕ
  differences x [] = 1
  differences x (y ∷ ys) =
      let rest = differences x ys in if x == y then rest else (x + n * y) * rest

  -- The sum over the x of f x times the product of the other -y.
  unfoldable pub weighted : (ℕ → ℕ) → List ℕ → ℕ
  unfolding negated
  weighted f [] = 0
  weighted f (x ∷ xs) = f x * negated xs + n * x * weighted f xs

  pub weighted-ext :
      (f g : ℕ → ℕ) (xs : List ℕ) → ((x : ℕ) → f x ≡ g x) → weighted f xs ≡ weighted g xs
  unfolding weighted
  weighted-ext f g [] h = refl
  weighted-ext f g (x ∷ xs) h = rw (h x, weighted-ext f g xs h) refl

  -- weighted is linear in f.
  pub weighted_linear :
      (c d : ℕ) (f g : ℕ → ℕ) (xs : List ℕ)
      → weighted (λ x. c * f x + d * g x) xs ≡ c * weighted f xs + d * weighted g xs
  unfolding weighted
  weighted_linear c d f g [] = omega arith
  weighted_linear c d f g (x ∷ xs) = omega (arith, ap (λ t. n * x * t) (weighted_linear c d f g xs))

  weighted_swap :
      (f : ℕ → ℕ) (y z : ℕ) (xs : List ℕ) → weighted f (y ∷ z ∷ xs) ≡ weighted f (z ∷ y ∷ xs)
  unfolding weighted negated
  weighted_swap f y z xs = omega arith

  -- Each x of `xs` has an inverse of its product of differences.
  unfoldable pub Inverses : (ℕ → ℕ) → List ℕ → Type 0
  unfolding IsIn differences
  Inverses inv xs = (x : ℕ) → IsIn x xs → ◌~◌ n (inv x * differences x xs) 1

  -- The factor that removes y from the products.
  abbrev pub drop_point : (ℕ → ℕ) → ℕ → ℕ → ℕ
  drop_point inv y x = inv x * (x + n * y)

  pub Inverses-drop_point :
      (inv : ℕ → ℕ) (y : ℕ) (xs : List ℕ)
      → AllDistinct (y ∷ xs)
      → Inverses inv (y ∷ xs)
      → Inverses (drop_point inv y) xs
  unfolding AllDistinct differences IsIn Inverses
  Inverses-drop_point inv y xs (apart, d) h x m =
      ap (λ t. t % suc n) (omega arith) ∙ (rw (differences, apart x m) at (h x (inr m)))

  differences_swap :
      (x y z : ℕ) (xs : List ℕ) → differences x (y ∷ z ∷ xs) ≡ differences x (z ∷ y ∷ xs)
  unfolding differences
  differences_swap x y z xs = both (x == y) (x == z) (x + n * y) (x + n * z) (differences x xs)
    where
      both :
          (b c : Bool) (u v r : ℕ)
          → (if b then if c then r else v * r else u * (if c then r else v * r))
            ≡ (if c then if b then r else u * r else v * (if b then r else u * r))
      both true true u v r = refl
      both true false u v r = refl
      both false true u v r = refl
      both false false u v r = omega arith

  Inverses-swap :
      (inv : ℕ → ℕ) (y z : ℕ) (xs : List ℕ) → Inverses inv (y ∷ z ∷ xs) → Inverses inv (z ∷ y ∷ xs)
  unfolding IsIn Inverses
  Inverses-swap inv y z xs h x m = rw (differences_swap x z y xs) (h x (moved m))
    where
      moved : IsIn x (z ∷ y ∷ xs) → IsIn x (y ∷ z ∷ xs)
      moved (inl e) = inr (inl e)
      moved (inr (inl e)) = inl e
      moved (inr (inr k)) = inr (inr k)

  AllDistinct-swap : (y z : ℕ) (xs : List ℕ) → AllDistinct (y ∷ z ∷ xs) → AllDistinct (z ∷ y ∷ xs)
  unfolding AllDistinct IsIn
  AllDistinct-swap y z xs (ay, (az, d)) = (moved, ((λ x m. ay x (inr m)), d))
    where
      moved : (x : ℕ) → IsIn x (y ∷ xs) → (x == z) ≡ false
      moved x (inl e) = ne→== x z λ k. not_both (eq→== z y (sym k ∙ e)) (ay z (inl refl))
      moved x (inr m) = az x m

  -- Times X - y, only the points but y count.
  pub weighted-drop_point :
      (f : ℕ → ℕ) (y : ℕ) (xs : List ℕ)
      → ◌~◌ n (weighted (drop_point f y) (y ∷ xs)) (n * y * weighted (drop_point f y) xs)
  unfolding weighted
  weighted-drop_point f y xs = same n 0 (f y * y * negated xs) _ _ (omega arith)

  pub drop_sum :
      (f : ℕ → ℕ) (y : ℕ) (xs : List ℕ)
      → weighted (drop_point f y) xs ≡ weighted (λ x. x * f x) xs + n * y * weighted f xs
  drop_sum f y xs =
      weighted-ext (drop_point f y) (λ x. 1 * (x * f x) + n * y * f x) xs (λ x. omega arith)
      ∙ weighted_linear 1 (n * y) (λ x. x * f x) f xs
      ∙ omega arith

  -- Of two equations for a and b, b is 1.
  solve :
      (a b y z u : ℕ)
      → ◌~◌ n (a + n * y * b) (n * y)
      → ◌~◌ n (a + n * z * b) (n * z)
      → ◌~◌ n (u * (z + n * y)) 1
      → ◌~◌ n b 1
  solve a b y z u h k i =
      same n 0 0 b (1 * b) (omega arith)
      ∙ mul n 1 (u * (z + n * y)) b b (sym i) refl
      ∙ same n 0 0 (u * (z + n * y) * b) (u * ((z + n * y) * b)) (omega arith)
      ∙ mul n u u ((z + n * y) * b) (z + n * y) refl product
      ∙ i
    where
      first : ◌~◌ n a (n * z + z * b)
      first =
          same n (z * b) 0 a (a + n * z * b + z * b) (omega arith)
          ∙ add n (a + n * z * b) (n * z) (z * b) (z * b) k refl

      product : ◌~◌ n ((z + n * y) * b) (z + n * y)
      product =
          same n z 0 ((z + n * y) * b) (z + (n * z + z * b + n * y * b)) (omega arith)
          ∙ add n z z (n * z + z * b + n * y * b) (n * y) refl
              (add n (n * z + z * b) a (n * y * b) (n * y * b) (sym first) refl ∙ h)

  -- The weights sum up to 1.
  pub weighted_one :
      (inv : ℕ → ℕ) (y : ℕ) (xs : List ℕ)
      → AllDistinct (y ∷ xs)
      → Inverses inv (y ∷ xs)
      → ◌~◌ n (weighted inv (y ∷ xs)) 1
  unfolding AllDistinct IsIn Inverses differences weighted negated
  weighted_one inv y [] d h =
      same n 0 0 (inv y * 1 + n * y * 0) (inv y * 1) (omega arith)
      ∙ (rw (differences, ==_refl y) at (h y (inl refl)))
  weighted_one inv y (z ∷ xs) d h =
      let d' = AllDistinct-swap y z xs d in
      let h' = Inverses-swap inv y z xs h in
      let without_y =
        weighted_one (drop_point inv y) z xs d.1 (Inverses-drop_point inv y (z ∷ xs) d h) in
      let without_z =
        weighted_one (drop_point inv z) y xs d'.1 (Inverses-drop_point inv z (y ∷ xs) d' h') in
      solve (weighted (λ x. x * inv x) (y ∷ z ∷ xs)) (weighted inv (y ∷ z ∷ xs)) y z
        (inv z * differences z (z ∷ xs))
        (equation inv y (y ∷ z ∷ xs) (weighted (drop_point inv y) (z ∷ xs))
          (weighted-drop_point inv y (z ∷ xs)) without_y)
        (equation inv z (y ∷ z ∷ xs) (weighted (drop_point inv z) (y ∷ xs))
          (ap (λ t. t % suc n) (weighted_swap (drop_point inv z) y z xs)
            ∙ weighted-drop_point inv z (y ∷ xs))
          without_z)
        (same n 0 0 (inv z * differences z (z ∷ xs) * (z + n * y))
            (inv z * ((z + n * y) * differences z (z ∷ xs))) (omega arith)
          ∙ (rw (differences, d.0 z (inl refl)) at (h z (inr (inl refl)))))
    where
      equation :
          (f : ℕ → ℕ) (y : ℕ) (xs : List ℕ) (w : ℕ)
          → ◌~◌ n (weighted (drop_point f y) xs) (n * y * w)
          → ◌~◌ n w 1
          → ◌~◌ n (weighted (λ x. x * f x) xs + n * y * weighted f xs) (n * y)
      equation f y xs w e o =
          ap (λ t. t % suc n) (sym (drop_sum f y xs))
          ∙ e
          ∙ mul n (n * y) (n * y) w 1 refl o
          ∙ same n 0 0 (n * y * 1) (n * y) (omega arith)

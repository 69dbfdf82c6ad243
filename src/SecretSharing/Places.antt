-- ===== src/SecretSharing/Places.antt =====
-- The indices and the sum of reconstructSecret in path-oram/src/helpers.cpp: skipping the own index is
-- skipping the own x, and the sum over the shares is the weighted sum of the interpolation.
use path_oram_base.Common.{
  ℕ, zero, suc, ◌+◌, ◌*◌, ◌<◌, ◌≡◌, refl, sym, ap, ◌∙◌, arith, some, List, [], ◌∷◌, ◌==◌, false,
  inl, inr, get_elem?, ==_refl, ne→==, eq→==,
}
use path_oram_base.SecretSharing.Inverse.{minus_one}
use path_oram_base.SecretSharing.Lagrange.{IsIn, AllDistinct, negated, weighted, not_both}
use path_oram_base.SecretSharing.Products.{others, Agree}

-- x is none of the numbers.
abbrev Apart : ℕ → List ℕ → Type 0
unfolding IsIn
Apart x xs = (y : ℕ) → IsIn y xs → (y == x) ≡ false

==_turned : (x y : ℕ) → (y == x) ≡ false → (x == y) ≡ false
==_turned x y h = ne→== x y λ e. not_both (eq→== y x (sym e)) h

Agree-after : (i x j : ℕ) (xs : List ℕ) → i < j → Apart x xs → Agree i x j xs
unfolding Agree IsIn
Agree-after i x j [] h a = tt
Agree-after i x j (y ∷ xs) h a = (
  ne→== i j (omega arith) ∙ sym (==_turned x y (a y (inl refl))),
  Agree-after i x (j + 1) xs (omega arith) λ z m. a z (inr m),
)

get_elem-IsIn : (xs : List ℕ) (i x : ℕ) → get_elem? xs i ≡ some x → IsIn x xs
unfolding IsIn
get_elem-IsIn [] i x h = absurd (ground (arith, h))
get_elem-IsIn (y ∷ xs) zero x h = inl (ground (arith, h))
get_elem-IsIn (y ∷ xs) (suc i) x h = inr (get_elem-IsIn xs i x h)

Agree-at :
    (xs : List ℕ) (i j k x : ℕ)
    → k ≡ j + i
    → get_elem? xs i ≡ some x
    → AllDistinct xs
    → Agree k x j xs
unfolding Agree AllDistinct IsIn
Agree-at [] i j k x e h d = tt
Agree-at (y ∷ xs) zero j k x e h d =
    let f : y ≡ x = ground (arith, h) in
    (
      eq→== k j (omega arith) ∙ sym (eq→== x y (sym f)),
      Agree-after k x (j + 1) xs (omega arith) λ z m. rw (← f) (d.0 z m),
    )
Agree-at (y ∷ xs) (suc i) j k x e h d = (
  ne→== k j (omega arith) ∙ sym (d.0 x (get_elem-IsIn xs i x h)),
  Agree-at xs i (j + 1) k x (omega arith) h d.1,
)

-- From index i on, `zs` stands in `xs`, and the indices agree with the x.
unfoldable pub Places : ℕ → List ℕ → List ℕ → Type 0
unfolding Agree
Places i [] xs = Unit
Places i (z ∷ zs) xs = Agree i z 0 xs × Places (suc i) zs xs

Places-from :
    (zs xs : List ℕ) (i : ℕ)
    → ((m : ℕ) → get_elem? xs (i + m) ≡ get_elem? zs m)
    → AllDistinct xs
    → Places i zs xs
unfolding Places
Places-from [] xs i h d = tt
Places-from (z ∷ zs) xs i h d = (
  Agree-at xs i 0 i z (omega arith) (ap (get_elem? xs) (omega arith) ∙ h 0) d,
  Places-from zs xs (suc i) (λ m. ap (get_elem? xs) (omega arith) ∙ h (suc m)) d,
)

pub AllDistinct-Places : (xs : List ℕ) → AllDistinct xs → Places 0 xs xs
AllDistinct-Places xs d = Places-from xs xs 0 (λ m. ap (get_elem? xs) (omega arith)) d

-- The sum over `zs` of f z times the product of the other -y.
unfoldable pub total : (ℕ → ℕ) → List ℕ → List ℕ → ℕ
unfolding others
total f [] xs = 0
total f (z ∷ zs) xs = f z * others z xs + total f zs xs

others-negated : (x : ℕ) (xs : List ℕ) → Apart x xs → others x xs ≡ negated minus_one xs
unfolding others negated IsIn
others-negated x [] a = refl
others-negated x (y ∷ xs) a =
    rw (others, ==_turned x y (a y (inl refl)))
      (ap (λ t. minus_one * y * t) (others-negated x xs λ z m. a z (inr m)))

total_cons :
    (f : ℕ → ℕ) (zs : List ℕ) (y : ℕ) (xs : List ℕ)
    → Apart y zs
    → total f zs (y ∷ xs) ≡ minus_one * y * total f zs xs
unfolding total others IsIn
total_cons f [] y xs a = omega arith
total_cons f (z ∷ zs) y xs a =
    rw (a z (inl refl)) (omega (arith, total_cons f zs y xs λ x m. a x (inr m)))

pub total-weighted :
    (f : ℕ → ℕ) (xs : List ℕ) → AllDistinct xs → total f xs xs ≡ weighted minus_one f xs
unfolding total weighted AllDistinct others
total-weighted f [] d = refl
total-weighted f (y ∷ xs) d = rw (==_refl y) (
    omega (
      arith,
      ap (λ t. f y * t) (others-negated y xs d.0),
      total_cons f xs y xs d.0,
      ap (λ t. minus_one * y * t) (total-weighted f xs d.1),
    ))

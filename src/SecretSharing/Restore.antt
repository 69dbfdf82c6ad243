-- ===== src/SecretSharing/Restore.antt =====
-- reconstructSecret of path-oram/src/helpers.cpp and restore of path-oram/src/shamir.cpp.
use native.Mathlib.Nat.{mod-lt, mod-mod, mod-eq_of_lt}
use path_oram_base.Common.{
  ℕ, suc, ◌+◌, ◌*◌, ◌%◌, ◌<◌, ◌≤◌, ◌≡◌, refl, sym, ap, ◌∙◌, subst, arith, some, List, [], ◌∷◌,
  length, All,
}
use path_oram_base.Common.Int.{
  ℤ, pos, negsuc, ◌+ℤ◌, ◌*ℤ◌, trem, abs, pos_part, neg_part, ll_pos, +ℤ_parts, abs-+ℤ, neg_part_le,
}
use path_oram_base.SecretSharing.{prime, reconstruct_loop, reconstruct_secret, restore}
use path_oram_base.SecretSharing.Evaluate.{value, share}
use path_oram_base.SecretSharing.Interpolate.{weighted-value}
use path_oram_base.SecretSharing.Inverse.{minus_one, inverse_lem}
use path_oram_base.SecretSharing.Lagrange.{AllDistinct, differences}
use path_oram_base.SecretSharing.Modulo.{◌~◌, same, add, mul}
use path_oram_base.SecretSharing.Multiply.{modmult_lem}
use path_oram_base.SecretSharing.Places.{Places, AllDistinct-Places, total, total-weighted}
use path_oram_base.SecretSharing.Products.{others, shares, products_lem}
use path_oram_base.SecretSharing.Residue.{residue, residue-*ℤ, residue-trem, abs-trem-lt}
use path_oram_base.SecretSharing.Units.{
  product_inverse, product_inverse_lem, product_inverse-Inverses,
}

-- A number from 0 on that is at least as large stays one.
raised :
    (a : ℕ) (y : ℤ)
    → abs y ≤ a
    → (k : ℕ) × (pos a +ℤ y ≡ pos k) × (k ≤ a + abs y) × ◌~◌ minus_one k (a + residue minus_one y)
raised a y h = go (pos a +ℤ y) refl
  where
    go :
        (z : ℤ)
        → pos a +ℤ y ≡ z
        → (k : ℕ) × (z ≡ pos k) × (k ≤ a + abs y) × ◌~◌ minus_one k (a + residue minus_one y)
    go (pos k) e = (
      k,
      refl,
      omega (arith, abs-+ℤ (pos a) y, ap abs e),
      same minus_one (neg_part y) 0 k (a + residue minus_one y)
          (omega (arith, +ℤ_parts (pos a) y, ap pos_part e, ap neg_part e)),
    )
    go (negsuc k) e =
        absurd (omega (arith, +ℤ_parts (pos a) y, neg_part_le y, ap pos_part e, ap neg_part e))

-- upper times a number, reduced.
by_number : ℤ → ℕ → ℤ
by_number u i = trem (trem (u *ℤ pos (i % prime)) prime) prime

residue-by_number :
    (u : ℤ) (i : ℕ) → ◌~◌ minus_one (residue minus_one (by_number u i)) (residue minus_one u * i)
unfolding by_number
residue-by_number u i =
    residue-trem minus_one (trem (u *ℤ pos (i % prime)) prime)
    ∙ residue-trem minus_one (u *ℤ pos (i % prime))
    ∙ residue-*ℤ minus_one u (pos (i % prime))
    ∙ mul minus_one (residue minus_one u) (residue minus_one u)
        (residue minus_one (pos (i % prime))) i refl
        (ap (λ t. t % prime) (omega arith) ∙ mod-mod i prime)

-- The inverse that the code finds is congruent to any other.
inverse_unique : (d i v : ℕ) → ◌~◌ minus_one (d * i) 1 → ◌~◌ minus_one (v * d) 1 → ◌~◌ minus_one i v
inverse_unique d i v h k =
    ap (λ t. t % prime) (omega arith)
    ∙ mul minus_one 1 (v * d) i i (sym k) refl
    ∙ ap (λ t. t % prime) (omega arith)
    ∙ mul minus_one v v (d * i) 1 refl h
    ∙ ap (λ t. t % prime) (omega arith)

-- What the share at x adds.
abbrev weight : List ℕ → List ℕ → ℕ → ℕ
weight cs xs x = value x 0 cs * product_inverse xs x

-- One share: the quotient of the products, times y, on top of the secret so far.
round :
    (cs xs : List ℕ) (x i s : ℕ) (u : ℤ)
    → s < prime
    → ◌~◌ minus_one (residue minus_one u) (others x xs)
    → ◌~◌ minus_one i (product_inverse xs x)
    → (k : ℕ) × (pos (prime + s) +ℤ by_number (by_number u i) (value x 0 cs % prime) ≡ pos k)
      × (k < 3 * prime)
      × ◌~◌ minus_one k (s + weight cs xs x * others x xs)
unfolding by_number
round cs xs x i s u h hu hi =
    let c = by_number (by_number u i) (value x 0 cs % prime) in
    let small =
      abs-trem-lt minus_one (trem (by_number u i *ℤ pos (value x 0 cs % prime % prime)) prime) in
    let (k, e, bound, r) = raised (prime + s) c (omega (arith, small)) in
    (
      k,
      e,
      omega (arith, small),
      r
          ∙ add minus_one (prime + s) s (residue minus_one c)
              (others x xs * product_inverse xs x * value x 0 cs)
              (same minus_one 0 1 (prime + s) s (omega arith))
              (residue-by_number (by_number u i) (value x 0 cs % prime)
                ∙ mul minus_one (residue minus_one (by_number u i))
                    (others x xs * product_inverse xs x) (value x 0 cs % prime) (value x 0 cs)
                    (residue-by_number u i
                      ∙ mul minus_one (residue minus_one u) (others x xs) i (product_inverse xs x)
                          hu hi)
                    (mod-mod (value x 0 cs) prime))
          ∙ ap (λ t. t % prime) (omega arith),
    )

-- The next sum is congruent to the sum so far.
sum_step : (k s a b : ℕ) → ◌~◌ minus_one k (s + a) → ◌~◌ minus_one (k % prime + b) (s + (a + b))
sum_step k s a b h =
    add minus_one (k % prime) (s + a) b b (mod-mod k prime ∙ h) refl
    ∙ ap (λ t. t % prime) (omega arith)

-- The inverse of the product of differences inverts `lower`.
unit :
    (xs : List ℕ) (x : ℕ) (l : ℤ)
    → x ≤ 9
    → All (λ x. x ≤ 9) xs
    → ◌~◌ minus_one (residue minus_one l) (residue minus_one (pos 1) * differences minus_one x xs)
    → ◌~◌ minus_one (product_inverse xs x * residue minus_one l) 1
unit xs x l hx h r =
    mul minus_one (product_inverse xs x) (product_inverse xs x) (residue minus_one l)
      (differences minus_one x xs) refl (r ∙ ap (λ t. t % prime) (omega arith))
    ∙ product_inverse_lem x xs hx h

loop_lem :
    (cs zs xs : List ℕ) (i s : ℕ)
    → All (λ x. x ≤ 9) zs
    → All (λ x. x ≤ 9) xs
    → Places i zs xs
    → s < prime
    → (t : ℕ) × (reconstruct_loop i (shares cs zs) (shares cs xs) (pos s) ≡ some (pos t))
      × (t < prime)
      × ◌~◌ minus_one t (s + total (weight cs xs) zs xs)
unfolding reconstruct_loop shares share Places total trem ◌+ℤ◌ by_number
loop_lem cs [] xs i s hz hx g h = (s, refl, h, ap (λ t. t % prime) (omega arith))
loop_lem cs (x ∷ zs) xs i s hz hx (g, gs) h =
    let (u, l, e, bound_l, residue_u, residue_l) =
      products_lem cs xs i x 0 (pos 1) (pos 1) hz.0 hx g (omega arith) (omega arith) in
    let unit_l = unit xs x l hz.0 hx residue_l in
    let (v, f, bound_v, unit_v) = inverse_lem l (product_inverse xs x) bound_l unit_l in
    let same_v = inverse_unique (residue minus_one l) v (product_inverse xs x) unit_v unit_l in
    let residue_u' : ◌~◌ minus_one (residue minus_one u) (others x xs) =
      residue_u ∙ ap (λ t. t % prime) (omega arith) in
    let (k, sum, bound_k, residue_k) = round cs xs x v s u h residue_u' same_v in
    let (t, rest, bound_t, residue_t) =
      loop_lem cs zs xs (i + 1) (k % prime) hz.1 hx (next gs) (mod-lt k (omega arith)) in
    (
      t,
      rw
          (
            reconstruct_loop,
            e,
            f,
            modmult_lem u (v % prime) (omega arith),
            modmult_lem (by_number u v) (value x 0 cs % prime % prime) (omega arith),
            ll_pos (prime + s) (omega arith),
            sum,
            ll_pos k (omega arith),
          )
          rest,
      bound_t,
      residue_t
          ∙ sum_step k s (weight cs xs x * others x xs) (total (weight cs xs) zs xs) residue_k,
    )
  where
    next : Places (suc i) zs xs → Places (i + 1) zs xs
    next p = subst (λ t. Places t zs xs) (omega arith) p

-- From at least as many shares as coefficients, with different x up to 9, restore delivers the first
-- coefficient if it is below PRIME; it ends and overflows nowhere.
pub restore-shares :
    (k c : ℕ) (cs : List ℕ) (x : ℕ) (xs : List ℕ)
    → c < prime
    → length cs ≤ length xs
    → All (λ x. x ≤ 9) (x ∷ xs)
    → AllDistinct (x ∷ xs)
    → restore k (shares (c ∷ cs) (x ∷ xs)) ≡ some (pos c)
unfolding restore reconstruct_secret
restore-shares k c cs x xs h n a d =
    let all = x ∷ xs in
    let (t, e, bound, r) =
      loop_lem (c ∷ cs) all all 0 0 a a (AllDistinct-Places all d) (omega arith) in
    let result : ◌~◌ minus_one t c =
      r
      ∙ ap (λ s. s % prime) (omega (arith, total-weighted (weight (c ∷ cs) all) all d))
      ∙ weighted-value minus_one c cs (product_inverse all) x xs n d
          (product_inverse-Inverses all a) in
    e ∙ ap (λ s. some (pos s)) (sym (mod-eq_of_lt bound) ∙ result ∙ mod-eq_of_lt h)

-- ===== src/SecretSharing/Residue.antt =====
-- The residues of signed numbers modulo a number `suc n`: helpers.cpp reduces with C++'s `%`, which keeps
-- the sign.
use native.Mathlib.Nat.{mod-mod, mod-lt}
use path_oram_base.Common.{ℕ, zero, suc, ◌+◌, ◌*◌, ◌%◌, ◌<◌, ◌≡◌, refl, ap, ◌∙◌, arith}
use path_oram_base.Common.Int.{
  ℤ, pos, negsuc, neg_ℤ, ◌+ℤ◌, ◌-ℤ◌, ◌*ℤ◌, trem, abs, pos_part, neg_part, +ℤ_parts, -ℤ_parts,
  pos_part-*ℤ, neg_part-*ℤ,
}
use path_oram_base.SecretSharing.Modulo.{◌~◌, same, mul}

module _ (n : ℕ) where
  abbrev pub residue : ℤ → ℕ
  residue z = pos_part z + n * neg_part z

  pub residue-*ℤ : (a b : ℤ) → ◌~◌ n (residue (a *ℤ b)) (residue a * residue b)
  residue-*ℤ a b =
      same n (n * (neg_part a * neg_part b)) (neg_part a * neg_part b) (residue (a *ℤ b))
        (residue a * residue b) (omega (arith, pos_part-*ℤ a b, ap (λ t. n * t) (neg_part-*ℤ a b)))

  pub residue-+ℤ : (a b : ℤ) → ◌~◌ n (residue (a +ℤ b)) (residue a + residue b)
  residue-+ℤ a b =
      same n (neg_part a + neg_part b) (neg_part (a +ℤ b)) (residue (a +ℤ b))
        (residue a + residue b) (omega (arith, +ℤ_parts a b))

  pub residue_minus : (a b : ℤ) → ◌~◌ n (residue (a -ℤ b)) (residue a + n * residue b)
  residue_minus a b =
      same n (neg_part a + pos_part b + n * neg_part b) (neg_part (a -ℤ b) + neg_part b)
        (residue (a -ℤ b)) (residue a + n * residue b) (omega (arith, -ℤ_parts a b))

  pub residue-trem : (z : ℤ) → ◌~◌ n (residue (trem z (suc n))) (residue z)
  unfolding trem
  residue-trem (pos m) =
      ap (λ t. t % suc n) (omega arith) ∙ mod-mod m (suc n) ∙ ap (λ t. t % suc n) (omega arith)
  residue-trem (negsuc m) =
      ap (λ t. t % suc n) (negative (suc m % suc n))
      ∙ mul n n n (suc m % suc n) (suc m) refl (mod-mod (suc m) (suc n))
      ∙ ap (λ t. t % suc n) (omega arith)
    where
      negative : (r : ℕ) → residue (neg_ℤ (pos r)) ≡ n * r
      negative zero = omega arith
      negative (suc r) = omega arith

  pub abs-trem-lt : (z : ℤ) → abs (trem z (suc n)) < suc n
  unfolding trem
  abs-trem-lt (pos m) = mod-lt m (omega arith)
  abs-trem-lt (negsuc m) = small (suc m % suc n) (mod-lt (suc m) (omega arith))
    where
      small : (r : ℕ) → r < suc n → abs (neg_ℤ (pos r)) < suc n
      small zero h = h
      small (suc r) h = h

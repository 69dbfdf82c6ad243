-- ===== src/SecretSharing/Modulo.antt =====
-- Equality modulo a number `suc n`, where multiplying by n is negation. helpers.cpp counts modulo PRIME.
use native.Mathlib.Nat.{add-mul-mod_self_left, mod-add-mod, add-mod-mod}
use path_oram_base.Common.{ℕ, suc, ◌+◌, ◌*◌, ◌%◌, ◌≡◌, sym, ap, ◌∙◌}
use path_oram_base.SecretSharing.Evaluate.{mul-mod_both}

module _ (n : ℕ) where
  infix 4 ◌~◌
  abbrev pub ◌~◌ : ℕ → ℕ → Type 0
  a ~ b = a % suc n ≡ b % suc n

  -- Multiples of the modulus do not matter.
  pub same : (k l a b : ℕ) → a + suc n * k ≡ b + suc n * l → a ~ b
  same k l a b h =
      sym (add-mul-mod_self_left a (suc n) k)
      ∙ ap (λ t. t % suc n) h
      ∙ add-mul-mod_self_left b (suc n) l

  pub add : (a b c d : ℕ) → a ~ b → c ~ d → a + c ~ b + d
  add a b c d h k =
      sym (mod-add-mod a (suc n) c)
      ∙ ap (λ t. (t + c) % suc n) h
      ∙ mod-add-mod b (suc n) c
      ∙ sym (add-mod-mod b c (suc n))
      ∙ ap (λ t. (b + t) % suc n) k
      ∙ add-mod-mod b d (suc n)

  pub mul : (a b c d : ℕ) → a ~ b → c ~ d → a * c ~ b * d
  mul a b c d h k =
      sym (mul-mod_both (suc n) a c)
      ∙ ap (λ t. t * (c % suc n) % suc n) h
      ∙ ap (λ t. b % suc n * t % suc n) k
      ∙ mul-mod_both (suc n) b d

-- ===== src/Tree/Bounds.antt =====
-- Where the buckets of a path of path-oram/src/oram.cpp stand: the levels take disjoint intervals.
use native.Mathlib.Decide.{dec_lt}
use native.Mathlib.Nat.{
  pow-suc, pow-le-pow_right, mod-eq_of_lt, le-div_iff_mul-le, div-lt_iff_lt-mul,
}
use path_oram_base.Common.{
  ℕ, zero, suc, ◌+◌, ◌-◌, ◌*◌, ◌^◌, ◌≤◌, ◌<◌, ◌≡◌, ◌≢◌, sym, ap, ◌∙◌, arith,
}
use path_oram_base.Tree.{bucket_for_level_leaf}

pub two_pow_add : (a b : ℕ) → 2 ^ (a + b) ≡ 2 ^ a * 2 ^ b
two_pow_add a zero = let e : a + 0 ≡ a = omega arith in rw e (omega arith)
two_pow_add a (suc b) =
    let e : a + suc b ≡ suc (a + b) = omega arith in
    rw (e, pow-suc 2 (a + b), pow-suc 2 b) (omega (arith, ap (λ (t : ℕ). t * 2) (two_pow_add a b)))

pub two_pow_pos : (a : ℕ) → 0 < 2 ^ a
two_pow_pos zero = omega arith
two_pow_pos (suc a) = rw (pow-suc 2 a) (omega (arith, two_pow_pos a))

pub two_pow_mono : (a b : ℕ) → a ≤ b → 2 ^ a ≤ 2 ^ b
two_pow_mono a b h = pow-le-pow_right (omega arith) h

-- A tree that the shifts of an int can describe, and a leaf of it.
pub record IsLeaf (height leaf : ℕ) : Type 0 where
  pub tall : 0 < height
  pub short : height ≤ 31
  pub below : leaf < 2 ^ (height - 1)

module _ (height leaf : ℕ) (w : IsLeaf height leaf) where
  pub no_wrap : leaf + 2 ^ (height - 1) < 2 ^ 64
  no_wrap = omega (arith, two_pow_mono (height - 1) 30 (omega (arith, w.short)), w.below)

  module _ (level : ℕ) (h : level < height) where
    pub split : 2 ^ level * 2 ^ (height - 1 - level) ≡ 2 ^ (height - 1)
    split =
        let e : level + (height - 1 - level) ≡ height - 1 = omega arith in
        sym (two_pow_add level (height - 1 - level)) ∙ ap (λ (t : ℕ). 2 ^ t) e

    -- For a tree of 1 to 31 levels, a leaf of it and a level of the tree, the bucket of level k on
    -- the path to the leaf has a number from 2 ^ k to 2 ^ (k + 1) - 1.
    pub bucket_bounds :
        (2 ^ level ≤ bucket_for_level_leaf height level leaf)
        × (bucket_for_level_leaf height level leaf < 2 ^ suc level)
    unfolding bucket_for_level_leaf
    bucket_bounds = rw (mod-eq_of_lt no_wrap) (
      (le-div_iff_mul-le (two_pow_pos (height - 1 - level))).1 (omega (arith, split)),
      (div-lt_iff_lt-mul (two_pow_pos (height - 1 - level))).1
          (rw (pow-suc 2 level) (omega (arith, split, w.below))),
    )

    pub bucket-lt : bucket_for_level_leaf height level leaf < 2 ^ height
    bucket-lt = omega (arith, bucket_bounds, two_pow_mono (suc level) height h)

  bucket-increasing :
      (i j : ℕ)
      → i < j
      → j < height
      → bucket_for_level_leaf height i leaf < bucket_for_level_leaf height j leaf
  bucket-increasing i j p q =
      omega (arith, bucket_bounds i (omega arith), bucket_bounds j q, two_pow_mono (suc i) j p)

  -- For a tree of 1 to 31 levels and a leaf of it, different levels of the path to the leaf are
  -- different buckets.
  pub bucket-injective :
      (i j : ℕ)
      → i < height
      → j < height
      → i ≢ j
      → bucket_for_level_leaf height i leaf ≢ bucket_for_level_leaf height j leaf
  bucket-injective i j p q n e = elim (dec_lt i j) [
    | yes r ↦ omega (arith, bucket-increasing i j r q)
    | no r ↦ omega (arith, bucket-increasing j i (omega arith) p)
  ]

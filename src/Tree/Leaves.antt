-- ===== src/Tree/Leaves.antt =====
-- leavesForLocation of path-oram/src/oram.cpp.
use native.Mathlib.Nat.{
  pow-suc, mod-eq_of_lt, le-div_iff_mul-le, div-lt_iff_lt-mul, mul-le-mul_right,
}
use path_oram_base.Common.{
  ℕ, zero, suc, ◌+◌, ◌-◌, ◌*◌, ◌/◌, ◌^◌, ◌≤◌, ◌<◌, ◌≡◌, ◌↔◌, refl, arith, lt→ltb, le→ltb,
}
use path_oram_base.Tree.Bounds.{IsLeaf, two_pow_pos, split, no_wrap}
use path_oram_base.Tree.{bucket_for_level_leaf, log2_floor, leaves_for_location}

-- Enough halvings find the level of a location.
pub log2_floor-level : (fuel k n : ℕ) → k < fuel → 2 ^ k ≤ n → n < 2 ^ suc k → log2_floor fuel n ≡ k
unfolding log2_floor
log2_floor-level zero k n f h q = absurd (omega arith)
log2_floor-level (suc fuel) zero n f h q = rw (log2_floor, lt→ltb n 2 (omega arith)) refl
log2_floor-level (suc fuel) (suc k) n f h q =
    let more : 2 ≤ n = omega (arith, pow-suc 2 k, two_pow_pos k) in
    rw (log2_floor, le→ltb n 2 more)
      (omega (
        arith,
        log2_floor-level fuel k (n / 2) (omega arith) (omega (arith, pow-suc 2 k))
            (omega (arith, pow-suc 2 (suc k))),
      ))

-- The numbers that a division takes to one quotient.
quotient-interval :
    (p q leaf location : ℕ)
    → 0 < p
    → q ≤ location * p
    → ((location * p - q ≤ leaf) × (leaf ≤ (location + 1) * p - 1 - q))
      ↔ ((leaf + q) / p ≡ location)
quotient-interval p q leaf location h k =
    let next : (location + 1) * p ≡ location * p + p = omega arith in
    (
      λ r.
          let low : location ≤ (leaf + q) / p = (le-div_iff_mul-le h).1 (omega (arith, r.0)) in
          let high : (leaf + q) / p < location + 1 =
            (div-lt_iff_lt-mul h).1 (omega (arith, r.1, next)) in
          omega (arith, low, high),
      λ e.
          let low : location * p ≤ leaf + q = (le-div_iff_mul-le h).0 (omega (arith, e)) in
          let high : leaf + q < (location + 1) * p = (div-lt_iff_lt-mul h).0 (omega (arith, e)) in
          (omega (arith, low), omega (arith, high)),
    )

module _ (height leaf : ℕ) (w : IsLeaf height leaf) (level location : ℕ) (h : level < height)
    (above : 2 ^ level ≤ location) (below : location < 2 ^ suc level) where
  -- For a tree of 1 to 31 levels, a leaf of it, a level of the tree and a location of that level,
  -- the leaf is from the first to the last leaf that leavesForLocation gives for the location
  -- exactly if the path to the leaf has the location at that level.
  pub leaves_for_location_iff :
      (((leaves_for_location height location).0 ≤ leaf)
        × (leaf ≤ (leaves_for_location height location).1))
      ↔ (bucket_for_level_leaf height level leaf ≡ location)
  unfolding leaves_for_location bucket_for_level_leaf
  leaves_for_location_iff =
      let to_leaves : height - level - 1 ≡ height - 1 - level = omega arith in
      rw
        (
          log2_floor-level 64 level location (omega (arith, w.short)) above below,
          mod-eq_of_lt (no_wrap height leaf w),
          to_leaves,
        )
        (quotient-interval (2 ^ (height - 1 - level)) (2 ^ (height - 1)) leaf location
          (two_pow_pos (height - 1 - level))
          (omega (
            arith,
            split height leaf w level h,
            mul-le-mul_right (2 ^ (height - 1 - level)) above,
          )))

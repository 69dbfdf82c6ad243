-- ===== src/Oram/Access/Finding.antt =====
-- Where access of path-oram/src/oram.cpp finds a block: all there is of it in the tree is on the
-- path to its leaf.
use native.Mathlib.Decide.{ℕ_discrete}
use path_oram_base.Common.{
  ℕ, zero, suc, ◌^◌, ◌≤◌, ◌<◌, ◌≡◌, ◌≢◌, refl, sym, ◌∙◌, Bool, false, List, [], ◌∷◌, inl, inr,
  arith, ◌==◌, if◌then◌else◌, ==_refl, ne→==, tally, total, total-suc, total_change, total_congr,
  total_bound, All, Bool-cases,
}
use path_oram_base.Oram.Cache.Laws.{view}
use path_oram_base.Oram.Invariant.{Inv, IsPlaced, leaves-IsLeaf}
use path_oram_base.Oram.Path.Reading.{path_tally}
use path_oram_base.Oram.{Oram}
use path_oram_base.PositionMap.{PositionMap}
use path_oram_base.Storage.{Storage}
use path_oram_base.Tree.Bounds.{IsLeaf, bucket-injective, bucket-lt}
use path_oram_base.Tree.Paths.{IsOnPath, level_total-le}
use path_oram_base.Tree.{bucket_for_level_leaf}
use path_oram_base.Types.{Block, is_real, real, real-true, real-false}

module _ (height leaf : ℕ) (w : IsLeaf height leaf) where
  -- A function, but for one place.
  unfoldable cut : ℕ → (ℕ → ℕ) → ℕ → ℕ
  cut b g l = if l == b then 0 else g l

  -- A function that is nothing off the first `n` levels of the path adds up to its values there.
  total-path_le :
      (g : ℕ → ℕ) (n : ℕ)
      → n ≤ height
      → ((l : ℕ) → l < 2 ^ height → (¬ IsOnPath height leaf n l) → g l ≡ 0)
      → total g (2 ^ height) ≤ total (λ j. g (bucket_for_level_leaf height j leaf)) n
  unfolding cut
  total-path_le g zero h k =
      omega (
        arith,
        total_bound g (2 ^ height) 0 (λ l q. omega (arith, k l q (λ o. omega (arith, o.1)))),
      )
  total-path_le g (suc n) h k =
      let b = bucket_for_level_leaf height n leaf in
      omega (
        arith,
        total_change g (cut b g) (2 ^ height) b (bucket-lt height leaf w n h)
            (λ l q. sym (away l q)),
        at_cut,
        total-path_le (cut b g) n (omega arith) nowhere,
        total_congr (λ j. cut b g (bucket_for_level_leaf height j leaf))
            (λ j. g (bucket_for_level_leaf height j leaf)) n
            (λ j q. away _ (bucket-injective height leaf w j n (omega arith) h (omega arith))),
        total-suc (λ j. g (bucket_for_level_leaf height j leaf)) n,
      )
    where
      away :
          (l : ℕ)
          → l ≢ bucket_for_level_leaf height n leaf
          → cut (bucket_for_level_leaf height n leaf) g l ≡ g l
      away l q = rw (ne→== l (bucket_for_level_leaf height n leaf) q) refl

      at_cut : cut (bucket_for_level_leaf height n leaf) g (bucket_for_level_leaf height n leaf) ≡ 0
      at_cut = rw (==_refl (bucket_for_level_leaf height n leaf)) refl

      nowhere :
          (l : ℕ)
          → l < 2 ^ height
          → (¬ IsOnPath height leaf n l)
          → cut (bucket_for_level_leaf height n leaf) g l ≡ 0
      nowhere l m o = elim (ℕ_discrete l (bucket_for_level_leaf height n leaf)) [
        | yes e ↦ rw e at_cut
        | no q ↦
            away l q
            ∙ k l m (λ r. elim (ℕ_discrete r.0 n) [
              | yes e ↦ q (sym r.2 ∙ (rw e refl))
              | no e ↦ o (r.0, omega (arith, r.1, e), r.2)
            ])
      ]

module _ (p : Block → Bool) (b : ℕ) (only : (j : ℕ) (v : List ℕ) → j ≢ b → p (j, v) ≡ false) where
  tally-placed_off :
      (height : ℕ) (m : PositionMap) (l : ℕ)
      → (¬ IsOnPath height (m.leaves b) height l)
      → (es : List Block) → All (IsPlaced height m l) es
      → tally (real p) es ≡ 0
  tally-placed_off height m l o [] h = refl
  tally-placed_off height m l o ((j, v) ∷ es) h =
      let rest = tally-placed_off height m l o es h.1 in
      elim (Bool-cases (is_real (j, v))) [
        | inr r ↦ rw (real-false p (j, v) r) (omega (arith, rest))
        | inl r ↦ elim (ℕ_discrete j b) [
          | yes e ↦ absurd (o (rw e at (h.0 r).1))
          | no e ↦ rw (real-true p (j, v) r, only j v e) (omega (arith, rest))
        ]
      ]

  -- If an object satisfies the invariant and the position map knows a block, then a test that only
  -- this block can pass finds on the path to the leaf of the block what it finds in the whole
  -- tree.
  pub path_tally-total :
      {T : Storage} (s : Oram T)
      → Inv s
      → b < s.map.capacity
      → path_tally (real p) s (s.map.leaves b)
        ≡ total (λ l. tally (real p) (view s l)) (2 ^ s.height)
  path_tally-total s v h =
      let w = leaves-IsLeaf s b v.sized h in
      omega (
        arith,
        level_total-le s.height (s.map.leaves b) w (λ l. tally (real p) (view s l)) s.height
            (omega arith),
        total-path_le s.height (s.map.leaves b) w (λ l. tally (real p) (view s l)) s.height
            (omega arith) (λ l q o. tally-placed_off s.height s.map l o (view s l) (v.placed l q)),
      )

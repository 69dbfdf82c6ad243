-- ===== src/Oram/Evict/Uploading.antt =====
-- setCache of path-oram/src/oram.cpp with the requests of writePath: the buckets of the path are
-- replaced, and no other.
use path_oram_base.Common.{
  ℕ, zero, suc, ◌+◌, ◌^◌, ◌≤◌, ◌<◌, ◌≡◌, ◌≢◌, refl, sym, ap, ◌∙◌, subst, Bool, List, [], ◌∷◌, ◌⊎◌,
  inl, inr, arith, tally, total, total_change, total_congr, total-suc, total_none, All,
}
use path_oram_base.Common.Assoc.{assign, IsMap, assign-IsMap, assign-All}
use path_oram_base.Oram.Cache.Laws.Fill.{through, through-assign}
use path_oram_base.Oram.Cache.Laws.{IsRequest}
use path_oram_base.Oram.Cache.{assign_all}
use path_oram_base.Oram.Evict.Planning.{Serves, load}
use path_oram_base.Oram.Invariant.{IsPlaced}
use path_oram_base.PositionMap.{PositionMap}
use path_oram_base.Storage.{Storage}
use path_oram_base.Tree.Bounds.{IsLeaf, bucket-injective, bucket-lt}
use path_oram_base.Tree.Paths.{IsOnPath}
use path_oram_base.Tree.{bucket_for_level_leaf}
use path_oram_base.Types.{Block, Bucket}
use native.Mathlib.Decide.{ℕ_discrete}

pub IsOnPath-cases : (height leaf n l : ℕ) → IsOnPath height leaf n l ⊎ (¬ IsOnPath height leaf n l)
IsOnPath-cases height leaf zero l = inr (λ q. omega (arith, q.1))
IsOnPath-cases height leaf (suc n) l = elim (ℕ_discrete (bucket_for_level_leaf height n leaf) l) [
  | yes e ↦ inl (n, omega arith, e)
  | no e ↦ elim (IsOnPath-cases height leaf n l) [
    | inl q ↦ inl (q.0, omega (arith, q.1), q.2)
    | inr q ↦ inr (λ r. earlier e q r)
  ]
]
  where
    earlier :
        bucket_for_level_leaf height n leaf ≢ l
        → (¬ IsOnPath height leaf n l)
        → IsOnPath height leaf (suc n) l
        → ⊥
    earlier e q (j, h, f) = elim (ℕ_discrete j n) [
      | yes same ↦ e (subst (λ t. bucket_for_level_leaf height t leaf ≡ l) same f)
      | no other ↦ q (j, omega arith, f)
    ]

through-assign_other :
    (f : ℕ → Bucket) (l j : ℕ) (b : Bucket) (cache : List (ℕ × Bucket))
    → j ≢ l
    → through (assign l b cache) f j ≡ through cache f j
through-assign_other f l j b cache h = ground (arith, through-assign f l j b cache)

through-assign_self :
    (f : ℕ → Bucket) (l : ℕ) (b : Bucket) (cache : List (ℕ × Bucket))
    → through (assign l b cache) f l ≡ b
through-assign_self f l b cache = ground (arith, through-assign f l l b cache)

module _ (T : Storage) (height : ℕ) (m : PositionMap) (leaf : ℕ) (w : IsLeaf height leaf)
    (f : ℕ → Bucket) where
  -- What the requests change in a count over the whole tree.
  pub assign_all-total :
      (q : Block → Bool) (n : ℕ) (rs : List (ℕ × Bucket)) (cache : List (ℕ × Bucket))
      → n ≤ height
      → Serves T height m leaf n rs
      → total (λ l. tally q (through (assign_all rs cache) f l)) (2 ^ height)
          + total (λ j. tally q (through cache f (bucket_for_level_leaf height j leaf))) n
        ≡ total (λ l. tally q (through cache f l)) (2 ^ height) + load q rs
  unfolding assign_all
  assign_all-total q zero [] cache h s = rw total_none refl
  assign_all-total q zero (r ∷ rs) cache h s = absurd s
  assign_all-total q (suc n) [] cache h s = absurd s
  assign_all-total q (suc n) ((l, b) ∷ rs) cache h s = omega (
    arith,
    assign_all-total q n rs (assign l b cache) (omega arith) s.3,
    total_change (λ i. tally q (through (assign l b cache) f i)) (λ i. tally q (through cache f i))
        (2 ^ height) l (subst (λ t. t < 2 ^ height) (sym s.0) (bucket-lt height leaf w n h))
        (λ i k. ap (tally q) (through-assign_other f l i b cache k)),
    ap (tally q) (through-assign_self f l b cache),
    total-suc (λ j. tally q (through cache f (bucket_for_level_leaf height j leaf))) n,
    ap (λ t. tally q (through cache f t)) s.0,
    total_congr (λ j. tally q (through (assign l b cache) f (bucket_for_level_leaf height j leaf)))
        (λ j. tally q (through cache f (bucket_for_level_leaf height j leaf))) n
        (λ j k. ap (tally q) (
          through-assign_other f l (bucket_for_level_leaf height j leaf) b cache
            (λ e. bucket-injective height leaf w j n (omega arith) h (omega arith) (e ∙ s.0)))),
  )

  pub assign_all-IsMap :
      (rs : List (ℕ × Bucket)) (cache : List (ℕ × Bucket))
      → IsMap cache
      → IsMap (assign_all rs cache)
  unfolding assign_all
  assign_all-IsMap [] cache h = h
  assign_all-IsMap ((l, b) ∷ rs) cache h = assign_all-IsMap rs _ (assign-IsMap l b cache h)

  pub assign_all-valid :
      (n : ℕ) (rs : List (ℕ × Bucket)) (cache : List (ℕ × Bucket))
      → n ≤ height
      → 2 ^ height ≤ T.capacity
      → Serves T height m leaf n rs
      → All (IsRequest T) cache
      → All (IsRequest T) (assign_all rs cache)
  unfolding assign_all
  assign_all-valid zero [] cache h fits s a = a
  assign_all-valid zero (r ∷ rs) cache h fits s a = absurd s
  assign_all-valid (suc n) [] cache h fits s a = absurd s
  assign_all-valid (suc n) ((l, b) ∷ rs) cache h fits s a =
      assign_all-valid n rs _ (omega arith) fits s.3 (
        assign-All (IsRequest T) l b cache (omega (arith, s.0, bucket-lt height leaf w n h), s.1) a)

  -- A location off the path keeps its bucket.
  pub assign_all_off :
      (n : ℕ) (rs : List (ℕ × Bucket)) (cache : List (ℕ × Bucket)) (l : ℕ)
      → Serves T height m leaf n rs
      → (¬ IsOnPath height leaf n l)
      → through (assign_all rs cache) f l ≡ through cache f l
  unfolding assign_all
  assign_all_off zero [] cache l s h = refl
  assign_all_off zero (r ∷ rs) cache l s h = absurd s
  assign_all_off (suc n) [] cache l s h = absurd s
  assign_all_off (suc n) ((k, b) ∷ rs) cache l s h =
      assign_all_off n rs (assign k b cache) l s.3 (λ q. h (q.0, omega (arith, q.1), q.2))
      ∙ through-assign_other f k l b cache (λ e. h (n, omega arith, sym s.0 ∙ sym e))

  -- A location on the path has a bucket of blocks that belong there.
  pub assign_all_on :
      (n : ℕ) (rs : List (ℕ × Bucket)) (cache : List (ℕ × Bucket)) (l : ℕ)
      → n ≤ height
      → Serves T height m leaf n rs
      → IsOnPath height leaf n l
      → All (IsPlaced height m l) (through (assign_all rs cache) f l)
  unfolding assign_all
  assign_all_on zero rs cache l h s q = absurd (omega (arith, q.1))
  assign_all_on (suc n) [] cache l h s q = absurd s
  assign_all_on (suc n) ((k, b) ∷ rs) cache l h s q = elim (IsOnPath-cases height leaf n l) [
    | inl r ↦ assign_all_on n rs (assign k b cache) l (omega arith) s.3 r
    | inr r ↦
        let here : l ≡ k = last r q.0 q.1 q.2 ∙ sym s.0 in
        rw (assign_all_off n rs (assign k b cache) l s.3 r, here, through-assign_self f k b cache)
          s.2
  ]
    where
      last :
          (¬ IsOnPath height leaf n l)
          → (j : ℕ) → j < suc n
          → bucket_for_level_leaf height j leaf ≡ l
          → l ≡ bucket_for_level_leaf height n leaf
      last r j p e = elim (ℕ_discrete j n) [
        | yes same ↦ sym e ∙ ap (λ t. bucket_for_level_leaf height t leaf) same
        | no other ↦ absurd (r (j, omega arith, e))
      ]

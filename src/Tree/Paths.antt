-- ===== src/Tree/Paths.antt =====
-- The locations that readPath of path-oram/src/oram.cpp collects.
use path_oram_base.Common.{
  ℕ, zero, suc, ◌+◌, ◌^◌, ◌<◌, ◌≡◌, ◌≢◌, ◌∙◌, refl, subst, total_next, total_none, total-suc,
  total_beyond, total-suc, total_beyond, ◌≤◌, Bool, List, [], ◌∷◌, ◌++◌, arith, ◌==◌, tally,
  tally-append, total, All, All-append, All-map, ne→==,
}
use path_oram_base.Storage.{gather}
use path_oram_base.Tree.Bounds.{IsLeaf, bucket-injective, bucket-lt, bucket_bounds}
use path_oram_base.Tree.{bucket_for_level_leaf, insert_location, path_from, add_path}
use path_oram_base.Types.{Block, Bucket}

-- The location is one of the first `n` buckets on the path to the leaf.
abbrev pub IsOnPath : ℕ → ℕ → ℕ → ℕ → Type 0
IsOnPath height leaf n l = (j : ℕ) × (j < n) × (bucket_for_level_leaf height j leaf ≡ l)

abbrev pub level_tally : (Block → Bool) → (ℕ → Bucket) → ℕ → ℕ → ℕ → ℕ
level_tally p f height leaf j = tally p (f (bucket_for_level_leaf height j leaf))

tally-gather-append :
    (p : Block → Bool) (f : ℕ → Bucket) (ls : List ℕ) (l : ℕ)
    → tally p (gather f (ls ++ l ∷ [])) ≡ tally p (gather f ls) + tally p (f l)
unfolding gather
tally-gather-append p f [] l = rw (tally-append p (f l) []) (omega arith)
tally-gather-append p f (k ∷ ls) l =
    rw (tally-append p (f k) (gather f (ls ++ l ∷ [])), tally-append p (f k) (gather f ls))
      (omega (arith, tally-gather-append p f ls l))

insert-absent : (l : ℕ) (ls : List ℕ) → All (λ k. k ≢ l) ls → insert_location l ls ≡ ls ++ l ∷ []
unfolding insert_location
insert-absent l ls h = rw (absent ls h)
  where
    absent : (ks : List ℕ) → All (λ k. k ≢ l) ks → tally (λ k. k == l) ks ≡ 0
    absent [] q = refl
    absent (k ∷ ks) q = ground (arith, ne→== k l q.0, absent ks q.1)

module _ (height leaf : ℕ) (w : IsLeaf height leaf) where
  -- What the loop has collected before a level.
  abbrev Before : ℕ → List ℕ → Type 0
  Before n = All (IsOnPath height leaf n)

  insert_next :
      (n : ℕ) (ls : List ℕ)
      → n < height
      → Before n ls
      → insert_location (bucket_for_level_leaf height n leaf) ls
        ≡ ls ++ bucket_for_level_leaf height n leaf ∷ []
  insert_next n ls h before = insert-absent _ ls (
      All-map _ _
        (λ k q e.
          bucket-injective height leaf w q.0 n (omega (arith, q.1)) h (omega (arith, q.1))
            (q.2 ∙ e))
        ls before)

  Before-suc : (n : ℕ) (ls : List ℕ) → Before n ls → Before (n + 1) ls
  Before-suc n ls h = All-map _ _ (λ k q. (q.0, omega (arith, q.1), q.2)) ls h

  Before-next :
      (n : ℕ) (ls : List ℕ)
      → Before n ls
      → Before (n + 1) (ls ++ bucket_for_level_leaf height n leaf ∷ [])
  Before-next n ls h = All-append _ ls _ (Before-suc n ls h) ((n, omega arith, refl), tt)

  path_from-tally :
      (p : Block → Bool) (f : ℕ → Bucket) (rounds n : ℕ) (ls : List ℕ)
      → n + rounds ≡ height
      → Before n ls
      → tally p (gather f (path_from rounds height n leaf ls))
          + total (level_tally p f height leaf) n
        ≡ tally p (gather f ls) + total (level_tally p f height leaf) height
  unfolding path_from
  path_from-tally p f zero n ls e h = let e' : n ≡ height = omega arith in rw e' refl
  path_from-tally p f (suc rounds) n ls e h = rw (insert_next n ls (omega arith) h) (
      omega (
        arith,
        path_from-tally p f rounds (n + 1) (ls ++ bucket_for_level_leaf height n leaf ∷ [])
            (omega arith) (Before-next n ls h),
        tally-gather-append p f ls (bucket_for_level_leaf height n leaf),
        total_next (level_tally p f height leaf) n,
      ))

  path_from-Before :
      (rounds n m : ℕ) (ls : List ℕ)
      → n + rounds ≡ m
      → m ≤ height
      → Before n ls
      → Before m (path_from rounds height n leaf ls)
  unfolding path_from
  path_from-Before zero n m ls e k h = let e' : n ≡ m = omega arith in subst (λ t. Before t ls) e' h
  path_from-Before (suc rounds) n m ls e k h =
      rw (insert_next n ls (omega arith) h)
        (path_from-Before rounds (n + 1) m _ (omega arith) k (Before-next n ls h))

  -- For a tree of 1 to 31 levels and a leaf of it, the locations that readPath collects hold, of
  -- every kind of block, what the buckets of the path hold when they are counted level by level.
  pub add_path-tally :
      (p : Block → Bool) (f : ℕ → Bucket)
      → tally p (gather f (add_path height leaf [])) ≡ total (level_tally p f height leaf) height
  unfolding add_path gather
  add_path-tally p f = omega (
    arith,
    path_from-tally p f height 0 [] (omega arith) tt,
    total_none (level_tally p f height leaf),
  )

  -- For a tree of 1 to 31 levels and a leaf of it, readPath collects only locations of buckets on
  -- the path to the leaf.
  pub add_path-IsOnPath : All (IsOnPath height leaf height) (add_path height leaf [])
  unfolding add_path
  add_path-IsOnPath = path_from-Before height 0 height [] (omega arith) (omega arith) tt

  pub add_path-lt : All (λ l. l < 2 ^ height) (add_path height leaf [])
  add_path-lt =
      All-map _ _ (λ k q. subst (λ t. t < 2 ^ height) q.2 (bucket-lt height leaf w q.0 q.1)) _
        add_path-IsOnPath

  -- Over the levels of a path there is no more than over the whole tree.
  pub level_total-le :
      (g : ℕ → ℕ) (n : ℕ)
      → n ≤ height
      → total (λ j. g (bucket_for_level_leaf height j leaf)) n ≤ total g (2 ^ n)
  level_total-le g zero h = rw total_none (omega arith)
  level_total-le g (suc n) h =
      let b = bucket_bounds height leaf w n h in
      omega (
        arith,
        level_total-le g n (omega arith),
        total-suc (λ j. g (bucket_for_level_leaf height j leaf)) n,
        total_beyond g (2 ^ n) (bucket_for_level_leaf height n leaf) (2 ^ suc n) b.0 b.1,
      )

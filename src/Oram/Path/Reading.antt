-- ===== src/Oram/Path/Reading.antt =====
-- readPath of path-oram/src/oram.cpp with `putInStash`: the blocks of a path go to the stash.
use path_oram_base.Common.{
  ℕ, ◌+◌, ◌*◌, ◌^◌, ◌≤◌, ◌<◌, ◌≡◌, ◌∙◌, Bool, true, false, refl, List, [], ◌∷◌, arith, tally, total,
  total_bound, tally-le-length, All, All-map,
}
use path_oram_base.Common.Assoc.{count, has_key, IsMap}
use path_oram_base.Common.Effect.{ok}
use path_oram_base.Oram.Cache.Fetch.{Fetched, get_cache-fetches}
use path_oram_base.Oram.Cache.Laws.Fill.{through}
use path_oram_base.Oram.Cache.Laws.{IsRequest, IsCached, view, view-IsBucket}
use path_oram_base.Oram.Invariant.{HasRoom}
use path_oram_base.Oram.Path.Stashing.{
  stash_all, tally-stash_all, stash_all-All, stash_real-all, with_entries,
}
use path_oram_base.Oram.Path.{read_path}
use path_oram_base.Oram.{Oram}
use path_oram_base.Storage.{Storage}
use path_oram_base.Tree.Bounds.{IsLeaf, bucket-lt}
use path_oram_base.Tree.Paths.{
  IsOnPath, level_tally, add_path-tally, add_path-IsOnPath, add_path-lt,
}
use path_oram_base.Tree.{add_path, bucket_for_level_leaf}
use path_oram_base.Types.{Block, Bucket, is_real, real}

module _ {T : Storage} where
  -- How many blocks of the path pass a test.
  abbrev pub path_tally : (Block → Bool) → Oram T → ℕ → ℕ
  path_tally p s leaf = total (level_tally p (view s) s.height leaf) s.height

  -- What reading the path to `leaf` into the stash does.
  pub record Stashed (s : Oram T) (leaf : ℕ) : Type 1 where
    pub path : List ℕ
    pub cache : List (ℕ × Bucket)
    pub entries : List Block
    pub runs :
        read_path leaf [] true s ≡ ok path (with_entries (record s { cache = cache }) entries)
    pub same : (l : ℕ) → through cache (T.view s.storage) l ≡ view s l
    pub cache_map : IsMap cache
    pub cache_valid : All (IsRequest T) cache
    pub gathers :
        (p : Block → Bool) → tally p entries ≡ tally p s.stash.entries + path_tally (real p) s leaf
    pub keeps :
        (P : Block → Type 0)
        → All P s.stash.entries
        → ((l : ℕ)
            → l < 2 ^ s.height
            → IsOnPath s.height leaf s.height l
            → All (λ e. is_real e ≡ true → P e) (view s l))
        → All P entries

  module _ (s : Oram T) (leaf : ℕ) (v : IsCached s) (w : IsLeaf s.height leaf)
      (fits : 2 ^ s.height ≤ T.capacity) where
    pub path_blocks-le : (p : Block → Bool) → path_tally p s leaf ≤ s.height * s.bucket_size
    path_blocks-le p = total_bound _ s.height s.bucket_size (λ j h. omega (
      arith,
      tally-le-length p (view s (bucket_for_level_leaf s.height j leaf)),
      (view-IsBucket s (bucket_for_level_leaf s.height j leaf) v
          (omega (arith, bucket-lt s.height leaf w j h))).0,
      v.same_buckets,
    ))

    fetched : Fetched s (add_path s.height leaf []) false
    fetched = get_cache-fetches s (add_path s.height leaf []) false v (
        All-map (λ l. l < 2 ^ s.height) _ (λ l h. omega (arith, fits)) _
          (add_path-lt s.height leaf w))

    delivered : (p : Block → Bool) → tally p fetched.response ≡ path_tally p s leaf
    delivered p = fetched.delivers p ∙ add_path-tally s.height leaf w p (view s)

    -- Let the cache be a map of good buckets before a good storage that has the whole tree, and
    -- the leaf exist. If the stash has room for a path and one more block, and no block is there
    -- twice in the stash and on the path, then reading the path into the stash does not throw, no
    -- location changes, and the stash has, of every kind of block, what it had and what the path
    -- has without its dummies.
    pub read_path-Stashed :
        HasRoom s
        → ((b : ℕ) → count b s.stash.entries + path_tally (real (has_key b)) s leaf ≤ 1)
        → Stashed s leaf
    unfolding read_path
    read_path-Stashed room alone = record {
      path = add_path s.height leaf [];
      cache = fetched.cache;
      entries = stash_all fetched.response s.stash.entries;
      runs =
          rw
            (
              fetched.runs,
              stash_real-all fetched.response (record s { cache = fetched.cache })
                  (λ b. omega (arith, alone b, delivered (real (has_key b))))
                  (omega (arith, room, delivered is_real, path_blocks-le is_real)),
            )
            refl;
      same = fetched.same;
      cache_map = fetched.cache_map;
      cache_valid = fetched.cache_valid;
      gathers = λ p.
          omega (arith, tally-stash_all p fetched.response s.stash.entries, delivered (real p));
      keeps = λ P h k. stash_all-All P fetched.response s.stash.entries h (
          fetched.delivers_all (λ e. is_real e ≡ true → P e)
            (both P k _ (add_path-lt s.height leaf w) (add_path-IsOnPath s.height leaf w)));
    }
      where
        both :
            (P : Block → Type 0)
            → ((l : ℕ)
                → l < 2 ^ s.height
                → IsOnPath s.height leaf s.height l
                → All (λ e. is_real e ≡ true → P e) (view s l))
            → (ls : List ℕ) → All (λ l. l < 2 ^ s.height) ls
            → All (IsOnPath s.height leaf s.height) ls
            → All (λ l. All (λ e. is_real e ≡ true → P e) (view s l)) ls
        both P k [] a b = tt
        both P k (l ∷ ls) a b = (k l a.0 b.0, both P k ls a.1 b.1)

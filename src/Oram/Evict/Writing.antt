-- ===== src/Oram/Evict/Writing.antt =====
-- writePath of path-oram/src/oram.cpp as a whole.
use path_oram_base.Common.{
  ℕ, ◌+◌, ◌^◌, ◌<◌, ◌≡◌, ◌∙◌, Bool, List, [], ◌∷◌, arith, tally, total, All,
}
use path_oram_base.Common.Assoc.{IsMap}
use path_oram_base.Common.Effect.{ok, bind}
use path_oram_base.Oram.Cache.Laws.Fill.{through}
use path_oram_base.Oram.Cache.Laws.{IsRequest, IsCached, view}
use path_oram_base.Oram.Cache.{assign_all, set_cache}
use path_oram_base.Oram.Evict.Choice.{ids}
use path_oram_base.Oram.Evict.Deleting.{
  erase_ids, erase_ids-All, erase_ids-IsMap, tally-erase_ids, delete_blocks-runs,
}
use path_oram_base.Oram.Evict.Planning.{Planned, plan_levels-Planned}
use path_oram_base.Oram.Evict.Uploading.{
  assign_all-total, assign_all-IsMap, assign_all-valid, assign_all_off, assign_all_on,
}
use path_oram_base.Oram.Evict.{Plan, write_path}
use path_oram_base.Oram.Invariant.{IsPlaced, IsEntry, IsSized}
use path_oram_base.Oram.Path.Reading.{path_tally}
use path_oram_base.Oram.Path.Stashing.{with_entries}
use path_oram_base.Oram.{Oram}
use path_oram_base.Random.Shuffle.{Shuffled, shuffle-Shuffled}
use path_oram_base.Random.{Words}
use path_oram_base.Stash
use path_oram_base.Storage.{Storage}
use path_oram_base.Tree.Bounds.{IsLeaf}
use path_oram_base.Tree.Paths.{IsOnPath}
use path_oram_base.Types.{Block, Bucket, real}

module _ {T : Storage} where
  -- What writing the path to `leaf` does.
  pub record Written (s : Oram T) (leaf : ℕ) : Type 0 where
    pub cache : List (ℕ × Bucket)
    pub entries : List Block
    pub words : Words
    pub runs :
        write_path leaf s ≡ ok tt (with_entries (record s { cache = cache; words = words }) entries)
    pub cache_map : IsMap cache
    pub cache_valid : All (IsRequest T) cache
    pub stash_map : IsMap entries
    pub stash_valid : All (IsEntry T s.map) entries
    pub moves :
        (p : Block → Bool)
        → tally p entries
            + total (λ l. tally (real p) (through cache (T.view s.storage) l)) (2 ^ s.height)
            + path_tally (real p) s leaf
          ≡ tally p s.stash.entries + total (λ l. tally (real p) (view s l)) (2 ^ s.height)
    pub off :
        (l : ℕ)
        → (¬ IsOnPath s.height leaf s.height l)
        → through cache (T.view s.storage) l ≡ view s l
    pub on :
        (l : ℕ)
        → IsOnPath s.height leaf s.height l
        → All (IsPlaced s.height s.map l) (through cache (T.view s.storage) l)

  module _ (s : Oram T) (leaf : ℕ) (v : IsCached s) (z : IsSized s) (w : IsLeaf s.height leaf)
      (stash_map : IsMap s.stash.entries)
      (stash_valid : All (IsEntry T s.map) s.stash.entries) where
    shuffled : Shuffled s.stash.entries s.words
    shuffled = shuffle-Shuffled s.stash.entries s.words

    first_plan : Plan
    first_plan = record { current_stash = shuffled.result; to_delete = []; requests = [] }

    planned : Planned (record s { words = shuffled.words }) s.height leaf first_plan
    unfolding first_plan
    planned =
        plan_levels-Planned s.height leaf (record s { words = shuffled.words }) first_plan
          v.same_blocks v.same_buckets v.some_blocks z.small (omega arith)
          (shuffled.keeps (IsEntry T s.map) stash_valid)

    small_ids : (es : List Block) → All (IsEntry T s.map) es → All (λ id. id < 2 ^ 31) (ids es)
    small_ids [] h = tt
    small_ids (e ∷ es) h = (omega (arith, h.0.0, z.small), small_ids es h.1)

    split :
        (p : Block → Bool)
        → tally p planned.result.current_stash + tally p planned.taken ≡ tally p s.stash.entries
    unfolding first_plan
    split p = planned.balance p ∙ shuffled.counts p

    -- Let the cache be a map of good buckets before a good storage, the sizes agree, the position
    -- map have at most 2 ^ 31 blocks, the leaf exist, and the stash be a map of good blocks that
    -- the position map knows. Then writing the path to the leaf does not throw; the cache and the
    -- stash stay maps of good entries; together the new stash, the new tree and the old buckets of
    -- the path have as many blocks of every kind as the old stash and tree; off the path no
    -- location changes; and each block that stands on the path stands on the path to its own leaf.
    pub write_path-Written : Written s leaf
    unfolding write_path first_plan view Stash.get_all set_cache
    write_path-Written =
        let f = T.view s.storage in
        let new_entries = erase_ids (ids planned.taken) s.stash.entries in
        record {
          cache = assign_all planned.added s.cache;
          entries = new_entries;
          words = planned.words;
          runs =
              rw (shuffled.runs, bind, planned.runs, bind, planned.requests, planned.deleted)
                (delete_blocks-runs (ids planned.taken)
                  (record s { cache = assign_all planned.added s.cache; words = planned.words })
                  (small_ids planned.taken planned.taken_valid));
          cache_map = assign_all-IsMap T s.height s.map leaf w f planned.added s.cache v.cache_map;
          cache_valid =
              assign_all-valid T s.height s.map leaf w f s.height planned.added s.cache
                (omega arith) z.fits planned.serves v.cache_valid;
          stash_map = erase_ids-IsMap (ids planned.taken) s.stash.entries stash_map;
          stash_valid =
              erase_ids-All (IsEntry T s.map) (ids planned.taken) s.stash.entries stash_valid;
          moves = λ p. omega (
            arith,
            assign_all-total T s.height s.map leaf w f (real p) s.height planned.added s.cache
                (omega arith) planned.serves,
            tally-erase_ids planned.taken planned.result.current_stash s.stash.entries stash_map
                split p,
            split p,
            planned.loads p,
          );
          off = λ l h.
              assign_all_off T s.height s.map leaf w f s.height planned.added s.cache l
                planned.serves h;
          on = λ l h.
              assign_all_on T s.height s.map leaf w f s.height planned.added s.cache l (omega arith)
                planned.serves h;
        }

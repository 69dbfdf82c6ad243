-- ===== src/Oram/Evict.antt =====
-- writePath of path-oram/src/oram.cpp.
pub mod Erase
pub mod Choice
pub mod Filling
pub mod Planning
pub mod Uploading
pub mod Deleting
pub mod Writing
use path_oram_base.Common.{
  ℕ, zero, suc, ◌+◌, ◌-◌, ◌%◌, ◌^◌, Bool, true, false, List, [], ◌∷◌, ◌++◌, ◌==◌, ltb,
  if◌then◌else◌, length,
}
use path_oram_base.Common.Effect.{M, ok, bind, for_each}
use path_oram_base.Oram.{Oram, on_map, on_stash, on_words}
use path_oram_base.Oram.Cache.{set_cache}
use path_oram_base.PositionMap
use path_oram_base.Random.{get_random_block}
use path_oram_base.Stash
use path_oram_base.Storage.{Storage}
use path_oram_base.Tree.{bucket_for_level_leaf, can_include}
use path_oram_base.Types.{Block, Bucket, empty_id}
use Erase.{erase_all, sort_desc}

-- A 64-bit number stored in the `vector<int>` named toDelete and read back as a number.
unfoldable pub through_int : ℕ → ℕ
through_int n = let low = n % 2 ^ 32 in if ltb low (2 ^ 31) then low else low + (2 ^ 64 - 2 ^ 32)

-- What the loop over the stash has collected: toInsert from its back to its front, the IDs to
-- delete from the stash, and the indices to delete from the local copy.
pub record Chosen : Type 0 where
  pub to_insert : List Block
  pub to_delete : List ℕ
  pub indices : List ℕ

-- An entry goes into the bucket.
unfoldable pub include : Block → ℕ → Chosen → Chosen
include e i c = record {
  to_insert = e ∷ c.to_insert;
  to_delete = c.to_delete ++ e.0 ∷ [];
  indices = c.indices ++ i ∷ [];
}

-- Nothing chosen yet at this level.
unfoldable pub none_chosen : List ℕ → Chosen
none_chosen to_delete = record { to_insert = []; to_delete = to_delete; indices = [] }

-- What the loop over the levels carries.
pub record Plan : Type 0 where
  pub current_stash : List Block
  pub to_delete : List ℕ
  pub requests : List (ℕ × Bucket)

module _ {T : Storage} where
  -- The loop over currentStash, from index `i` on.
  unfoldable pub choose : ℕ → ℕ → ℕ → List Block → Chosen → M (Oram T) Chosen
  choose leaf level i [] c s = ok c s
  choose leaf level i (e ∷ es) c s = bind (on_map (PositionMap.get e.0) s) (λ entry_leaf t.
      elim (can_include t.height entry_leaf leaf level) [
        | true ↦
            let c' = include e i c in
            elim (length c'.to_insert == t.bucket_size) [
              | true ↦ ok c' t
              | false ↦ choose leaf level (i + 1) es c' t
            ]
        | false ↦ choose leaf level (i + 1) es c t
      ])

  -- The loop that writes the bucket: from the back of toInsert, then dummies.
  unfoldable pub fill_bucket : ℕ → List Block → M (Oram T) Bucket
  fill_bucket zero to_insert s = ok [] s
  fill_bucket (suc z) (e ∷ to_insert) s =
      bind (fill_bucket z to_insert s) (λ bucket. ok (e ∷ bucket))
  fill_bucket (suc z) [] s =
      bind (on_words (get_random_block s.data_size) s)
        (λ bytes t. bind (fill_bucket z [] t) (λ bucket. ok ((empty_id, bytes) ∷ bucket)))

  -- One level.
  unfoldable pub plan_level : ℕ → ℕ → Plan → M (Oram T) Plan
  plan_level leaf level p s =
      bind (choose leaf level 0 p.current_stash (none_chosen p.to_delete) s) (λ c t.
        bind (fill_bucket t.bucket_size c.to_insert t) (λ bucket u.
          ok
            (record {
              current_stash = erase_all (sort_desc c.indices) p.current_stash;
              to_delete = c.to_delete;
              requests = p.requests ++ (bucket_for_level_leaf u.height level leaf, bucket) ∷ [];
            })
            u))

  -- The levels below `levels`, from the leaf up to the root.
  unfoldable pub plan_levels : ℕ → ℕ → Plan → M (Oram T) Plan
  plan_levels zero leaf p s = ok p s
  plan_levels (suc level) leaf p s = bind (plan_level leaf level p s) (plan_levels level leaf)

  unfoldable pub delete_blocks : List ℕ → M (Oram T) (Unit {0})
  delete_blocks ids = for_each (λ id. on_stash (Stash.delete_block (through_int id))) ids

  -- writePath
  unfoldable pub write_path : ℕ → M (Oram T) (Unit {0})
  unfolding delete_blocks
  write_path leaf s = bind (on_words (Stash.get_all s.stash) s) (λ current_stash t.
      bind
        (plan_levels t.height leaf
          (record { current_stash = current_stash; to_delete = []; requests = [] }) t)
        (λ p u. bind (set_cache p.requests u) (λ _. delete_blocks p.to_delete)))

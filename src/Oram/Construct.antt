-- ===== src/Oram/Construct.antt =====
-- The constructor of ORAM in path-oram/src/oram.cpp.
pub mod Laws
pub mod Recall
use path_oram_base.Common.{ℕ, zero, suc, ◌+◌, ◌-◌, ◌*◌, ◌%◌, ◌^◌, Bool, true, false, List, []}
use path_oram_base.Common.Effect.{M, Outcome, ok, bind}
use path_oram_base.Oram.{Config, Oram, on_map, on_storage, on_words}
use path_oram_base.PositionMap.{PositionMap}
use path_oram_base.PositionMap
use path_oram_base.Random.{Words, get_random_u_long}
use path_oram_base.Stash.{Stash}
use path_oram_base.Storage.{Storage}

-- The number of blocks, a 64-bit product.
unfoldable pub block_count : ℕ → ℕ → ℕ
block_count log_capacity z = 2 ^ log_capacity % 2 ^ 64 * z % 2 ^ 64

module _ {T : Storage} where
  -- The loop that draws a leaf for every block, from block `i` on.
  unfoldable pub fill_positions : ℕ → ℕ → M (Oram T) (Unit {0})
  fill_positions zero i s = ok tt s
  fill_positions (suc rounds) i s =
      bind (on_words (get_random_u_long (2 ^ (s.height - 1))) s)
        (λ leaf t. bind (on_map (PositionMap.set i leaf) t) (λ _. fill_positions rounds (i + 1)))

  -- The members, before the body of the constructor runs.
  unfoldable pub members : ℕ → ℕ → ℕ → T.State → PositionMap → Stash → ℕ → Words → Oram T
  members log_capacity block_size z storage map stash batch_size words = record {
    config = record {
      data_size = block_size;
      bucket_size = z;
      height = log_capacity;
      batch_size = batch_size;
    };
    storage = storage;
    map = map;
    stash = stash;
    cache = [];
    words = words;
  }

  -- The body.
  unfoldable pub initialize : M (Oram T) (Unit {0})
  unfolding block_count
  initialize s =
      bind (on_storage T.fill_with_zeroes s)
        (λ _ t. fill_positions (block_count t.height t.bucket_size) 0 t)

  unfoldable pub new_oram :
      ℕ → ℕ → ℕ → T.State → PositionMap → Stash → Bool → ℕ → Words → Outcome (Oram T) (Unit {0})
  unfolding members initialize
  new_oram log_capacity block_size z storage map stash true batch_size words =
      initialize (members log_capacity block_size z storage map stash batch_size words)
  new_oram log_capacity block_size z storage map stash false batch_size words =
      ok tt (members log_capacity block_size z storage map stash batch_size words)

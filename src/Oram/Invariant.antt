-- ===== src/Oram/Invariant.antt =====
-- The invariant of an ORAM object of path-oram/src/oram.cpp, and the census of its blocks.
use path_oram_base.Common.{
  ℕ, ◌+◌, ◌-◌, ◌*◌, ◌^◌, ◌≤◌, ◌<◌, ◌≡◌, Bool, true, length, tally, total, All,
}
use path_oram_base.Common.Assoc.{has_key, IsMap}
use path_oram_base.Oram.Cache.Laws.{IsCached, view}
use path_oram_base.Oram.{Oram}
use path_oram_base.PositionMap.{PositionMap}
use path_oram_base.Storage.{Storage, IsBlock}
use path_oram_base.Tree.Bounds.{IsLeaf}
use path_oram_base.Tree.Paths.{IsOnPath}
use path_oram_base.Types.{Block, is_real, real}

-- How many blocks pass a test, in the stash and among the blocks of the tree that are no dummies.
unfoldable pub census : {T : Storage} → (Block → Bool) → Oram T → ℕ
census p s = tally p s.stash.entries + total (λ l. tally (real p) (view s l)) (2 ^ s.height)

-- A block in the tree stands on the path to its leaf.
abbrev pub IsPlaced : ℕ → PositionMap → ℕ → Block → Type 0
IsPlaced height m l e =
    is_real e ≡ true → (e.0 < m.capacity) × IsOnPath height (m.leaves e.0) height l

abbrev pub IsEntry : Storage → PositionMap → Block → Type 0
IsEntry T m e = (e.0 < m.capacity) × IsBlock T.block_size e

-- The dimensions, which no operation changes, and the leaves of the position map.
pub record IsSized {T : Storage} (s : Oram T) : Type 0 where
  pub tall : 0 < s.height
  pub short : s.height ≤ 31
  pub fits : 2 ^ s.height ≤ T.capacity
  pub small : s.map.capacity ≤ 2 ^ 31
  pub leaves_below : (b : ℕ) → b < s.map.capacity → s.map.leaves b < 2 ^ (s.height - 1)

-- Every block is at one place at most, in the stash or on the path to its leaf.
pub record Inv {T : Storage} (s : Oram T) : Type 0 where
  pub cached : IsCached s
  pub sized : IsSized s
  pub stash_map : IsMap s.stash.entries
  pub stash_valid : All (IsEntry T s.map) s.stash.entries
  pub placed : (l : ℕ) → l < 2 ^ s.height → All (IsPlaced s.height s.map l) (view s l)
  pub alone : (b : ℕ) → census (has_key b) s ≤ 1

-- The stash has room for a whole path and one more block.
abbrev pub HasRoom : {T : Storage} → Oram T → Type 0
HasRoom s = length s.stash.entries + s.height * s.bucket_size < s.stash.capacity

pub leaves-IsLeaf :
    {T : Storage} (s : Oram T) (b : ℕ)
    → IsSized s
    → b < s.map.capacity
    → IsLeaf s.height (s.map.leaves b)
leaves-IsLeaf s b z h = record { tall = z.tall; short = z.short; below = z.leaves_below b h }

-- ===== src/Tree.antt =====
-- The geometry of the tree in path-oram/src/oram.cpp. Buckets are numbered from the root, which
-- is 1, level by level. A `height` of 1 to 31 keeps the shifts of `1`, an int, in range.
pub mod Bounds
pub mod Paths
pub mod Leaves
use path_oram_base.Common.{
  ℕ, zero, suc, ◌+◌, ◌-◌, ◌*◌, ◌/◌, ◌%◌, ◌^◌, Bool, List, [], ◌∷◌, ◌++◌, ◌==◌, ltb, if◌then◌else◌,
  tally,
}

-- bucketForLevelLeaf: the bucket at `level` on the path to `leaf`.
unfoldable pub bucket_for_level_leaf : ℕ → ℕ → ℕ → ℕ
bucket_for_level_leaf height level leaf =
    (leaf + 2 ^ (height - 1)) % 2 ^ 64 / 2 ^ (height - 1 - level)

-- canInclude: do the two paths share their bucket at this level?
unfoldable pub can_include : ℕ → ℕ → ℕ → ℕ → Bool
can_include height path_leaf block_position level =
    bucket_for_level_leaf height level path_leaf
    == bucket_for_level_leaf height level block_position

-- `path.insert(location)` on an unordered_set.
unfoldable pub insert_location : ℕ → List ℕ → List ℕ
insert_location l ls = if tally (λ k. k == l) ls == 0 then ls ++ l ∷ [] else ls

-- The loop of readPath over the levels, from `level` on, with `rounds` levels left.
unfoldable pub path_from : ℕ → ℕ → ℕ → ℕ → List ℕ → List ℕ
path_from zero height level leaf path = path
path_from (suc rounds) height level leaf path =
    path_from rounds height (level + 1) leaf
      (insert_location (bucket_for_level_leaf height level leaf) path)

unfoldable pub add_path : ℕ → ℕ → List ℕ → List ℕ
add_path height leaf path = path_from height height 0 leaf path

-- floor(log2(n)), by halving; `fuel` bounds the halvings.
unfoldable pub log2_floor : ℕ → ℕ → ℕ
log2_floor zero n = 0
log2_floor (suc fuel) n = elim (ltb n 2) [
  | Bool.true ↦ 0
  | Bool.false ↦ log2_floor fuel (n / 2) + 1
]

-- leavesForLocation: the first and the last leaf below a location. 64 halvings reach 1 from any
-- 64-bit number.
unfoldable pub leaves_for_location : ℕ → ℕ → ℕ × ℕ
leaves_for_location height location =
    let to_leaves = height - log2_floor 64 location - 1 in
    (
      location * 2 ^ to_leaves - 2 ^ (height - 1),
      (location + 1) * 2 ^ to_leaves - 1 - 2 ^ (height - 1),
    )

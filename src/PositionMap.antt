-- ===== src/PositionMap.antt =====
-- path-oram/src/position-map-adapter.cpp: InMemoryPositionMapAdapter. The array is a function
-- from indices, with whatever stood in the memory that `new number[capacity]` gave.
pub mod Files
use path_oram_base.Common.{ℕ, ◌<◌, ◌≤◌, le→leb, ◌≡◌, ◌==◌, leb, if◌then◌else◌, lt→leb}
use path_oram_base.Common.Effect.{M, ok, err, throw_if, block_out_of_bound, bind}

pub record PositionMap : Type 0 where
  pub capacity : ℕ
  pub leaves : ℕ → ℕ

-- checkCapacity
unfoldable pub check_capacity : ℕ → M PositionMap (Unit {0})
check_capacity block m = throw_if (leb m.capacity block) (block_out_of_bound block m.capacity) m

unfoldable pub get : ℕ → M PositionMap ℕ
unfolding check_capacity
get block m = bind (check_capacity block m) (λ _ t. ok (t.leaves block) t)

unfoldable pub set : ℕ → ℕ → M PositionMap (Unit {0})
unfolding check_capacity
set block leaf m =
    bind (check_capacity block m)
      (λ _ t. ok tt (record t { leaves = λ b. if b == block then leaf else t.leaves b }))

module _ (block : ℕ) (m : PositionMap) (h : block < m.capacity) where
  -- Inside its capacity the map throws nothing.
  pub get_within : get block m ≡ ok (m.leaves block) m
  unfolding get
  get_within = rw (lt→leb block m.capacity h)

  pub set_within :
      (leaf : ℕ)
      → set block leaf m
        ≡ ok tt (record m { leaves = λ b. if b == block then leaf else m.leaves b })
  unfolding set
  set_within leaf = rw (lt→leb block m.capacity h)

module _ (block : ℕ) (m : PositionMap) (h : m.capacity ≤ block) where
  -- Outside its capacity it throws.
  pub get_outside : get block m ≡ err (block_out_of_bound block m.capacity) m
  unfolding get
  get_outside = rw (le→leb m.capacity block h)

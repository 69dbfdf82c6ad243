-- ===== src/Stash/Laws.antt =====
-- What the operations of the stash in path-oram/src/stash-adapter.cpp do, branch by branch.
use path_oram_base.Common.{ℕ, ◌<◌, ◌≡◌, ◌∷◌, arith, length, ne→==}
use path_oram_base.Common.Assoc.{insert, assign, count}
use path_oram_base.Common.Effect.{ok}
use path_oram_base.Stash.{Stash, add, update}
use path_oram_base.Types.{Bytes}

module _ (block : ℕ) (bytes : Bytes) (s : Stash) where
  -- With room, a new entry is added.
  pub add_room :
      count block s.entries ≡ 0
      → length s.entries < s.capacity
      → add block bytes s ≡ ok tt (record s { entries = (block, bytes) ∷ s.entries })
  unfolding add insert
  add_room h k = rw (ne→== (length s.entries) s.capacity (omega arith), h)

  -- With room, an update always succeeds.
  pub update_room :
      length s.entries < s.capacity
      → update block bytes s ≡ ok tt (record s { entries = assign block bytes s.entries })
  unfolding update
  update_room k = rw (ne→== (length s.entries) s.capacity (omega arith))

-- ===== src/Oram/Access/Errors.antt =====
-- When get and put of path-oram/src/oram.cpp throw.
use path_oram_base.Common.{ℕ, ◌≤◌, ◌<◌, ◌≡◌, refl, arith, length, All, ◌⊎◌, inl, inr}
use path_oram_base.Common.Effect.{err, bind, within, block_out_of_bound}
use path_oram_base.Oram.Access.Calls.{Gets, Puts, get-Gets, put-Puts}
use path_oram_base.Oram.Access.{get, put, access}
use path_oram_base.Oram.Invariant.{Inv, HasRoom}
use path_oram_base.Oram.Memory.{Memory, Represents}
use path_oram_base.Oram.{Oram}
use path_oram_base.PositionMap.{get_outside}
use path_oram_base.Storage.{Storage}
use path_oram_base.Types.{Bytes}

module _ {T : Storage} (s : Oram T) where
  -- Let an object satisfy the invariant and represent a memory, the stash have room for a path and
  -- one more block, and the data be bytes that fit a block. Then either the block is not below the
  -- capacity of the position map, and get and put throw that it is out of bound and change
  -- nothing; or it is below, and neither throws: get delivers what the memory has for the block,
  -- up to padding with zeros, before what the response held, and leaves an object that represents
  -- the same memory, and put leaves one that represents the memory in which the data are written
  -- to the block, both with the invariant and the same dimensions.
  pub calls_outcome :
      (m : Memory) (block : ℕ) (bytes response : Bytes)
      → Inv s
      → Represents m s
      → HasRoom s
      → length bytes ≤ T.block_size
      → All (λ x. x < 256) bytes
      → ((s.map.capacity ≤ block)
          × (get block response s ≡ err (block_out_of_bound block s.map.capacity) s)
          × (put block bytes s ≡ err (block_out_of_bound block s.map.capacity) s))
        ⊎ ((block < s.map.capacity) × Gets s m block response × Puts s m block bytes)
  unfolding get put access
  calls_outcome m block bytes response v rep room short range =
      let known : (s.map.capacity ≤ block) ⊎ (block < s.map.capacity) = omega arith in
      elim known [
        | inl h ↦ inl (
          h,
          rw (get_outside block s.map h, within, bind) refl,
          rw (get_outside block s.map h, within, bind) refl,
        )
        | inr h ↦ inr (
          h,
          get-Gets s m block response v rep h room,
          put-Puts s m block bytes v rep h room short range,
        )
      ]

-- ===== src/Oram/Recursive.antt =====
-- ORAMPositionMapAdapter of path-oram/src/position-map-adapter.cpp: a position map that keeps its
-- leaves as the blocks of another ORAM, eight bytes each.
use path_oram_base.Common.{
  ℕ, zero, suc, ◌+◌, ◌-◌, ◌*◌, ◌^◌, ◌<◌, ◌≤◌, ◌≡◌, refl, sym, ap, ◌∙◌, [], ◌∷◌, ◌++◌, some, arith,
  length, take, replicate, take-append, subst,
}
use mathlib.Core.List.{append-nil}
use path_oram_base.Common.Effect.{M, ok, bind}
use path_oram_base.Encoding.{le_bytes, from_le, le_bytes-IsBytes, from_le-le_bytes}
use path_oram_base.Oram.Access.Calls.{get-Gets, put-Puts}
use path_oram_base.Oram.Access.Reads.{SameSizes}
use path_oram_base.Oram.Access
use path_oram_base.Oram.Invariant.{Inv, HasRoom}
use path_oram_base.Oram.Memory.{Memory, write, Represents, Answers}
use path_oram_base.Oram.{Oram}
use path_oram_base.Storage.{Storage, pad}
use path_oram_base.Types.{Bytes}

module _ {T : Storage} where
  -- get: the first eight bytes of what is returned.
  unfoldable pub get_leaf : ℕ → M (Oram T) ℕ
  get_leaf block s = bind (Access.get block [] s) (λ returned. ok (from_le (take 8 returned)))

  -- set
  unfoldable pub set_leaf : ℕ → ℕ → M (Oram T) (Unit {0})
  set_leaf block leaf = Access.put block (le_bytes 8 leaf)

from_le-zeros : (n : ℕ) → from_le (replicate n 0) ≡ 0
unfolding from_le
from_le-zeros zero = refl
from_le-zeros (suc n) = omega (arith, from_le-zeros n)

-- Zeros at the end do not count, nor does what is cut off.
from_le-take-pad :
    (k n : ℕ) (xs : Bytes) → from_le (take k (xs ++ replicate n 0)) ≡ from_le (take k xs)
unfolding from_le
from_le-take-pad zero n xs = refl
from_le-take-pad (suc k) n (x ∷ xs) = ap (λ t. x + 256 * t) (from_le-take-pad k n xs)
from_le-take-pad (suc k) zero [] = refl
from_le-take-pad (suc k) (suc n) [] = omega (arith, from_le-take-pad k n [], nothing k)
  where
    nothing : (k : ℕ) → from_le (take k []) ≡ 0
    nothing zero = refl
    nothing (suc k) = refl

-- A response that is a leaf up to padding has its number.
leaf_of_response :
    (n leaf : ℕ) (v : Bytes)
    → leaf < 2 ^ 64
    → pad n v ≡ pad n (le_bytes 8 leaf)
    → from_le (take 8 (v ++ [])) ≡ leaf
unfolding pad
leaf_of_response n leaf v h e =
    let size : length (le_bytes 8 leaf) ≡ 8 = (le_bytes-IsBytes 8 leaf).0 in
    ap (λ t. from_le (take 8 t)) (append-nil v)
    ∙ sym (from_le-take-pad 8 (n - length v) v)
    ∙ ap (λ t. from_le (take 8 t)) e
    ∙ ap from_le (take-append 8 (le_bytes 8 leaf) (replicate (n - length (le_bytes 8 leaf)) 0) size)
    ∙ from_le-le_bytes 8 leaf (omega (arith, h))

module _ {T : Storage} (s : Oram T) (m : Memory) (b : ℕ) (v : Inv s) (rep : Represents m s)
    (known : b < s.map.capacity) (room : HasRoom s) where
  -- Let the ORAM of a recursive position map satisfy the invariant and represent a memory, know
  -- the block, and have room in its stash, and let the memory have the eight bytes of a 64-bit
  -- leaf for the block. Then get of the map does not throw and returns the leaf, and the ORAM then
  -- satisfies the invariant, has the same dimensions and represents the same memory.
  pub get_leaf-Gets :
      (leaf : ℕ)
      → leaf < 2 ^ 64
      → m b ≡ some (le_bytes 8 leaf)
      → (t : Oram T) × (get_leaf b s ≡ ok leaf t) × Inv t × SameSizes s t × Represents m t
  unfolding get_leaf
  get_leaf-Gets leaf h e =
      let g = get-Gets s m b [] v rep known room in
      let (w, whole, same) = subst (λ o. Answers T.block_size o [] g.result) e g.answers in
      (
        g.after,
        rw (g.runs, bind)
            (ap (λ x. ok x g.after)
              (ap (λ x. from_le (take 8 x)) whole ∙ leaf_of_response T.block_size leaf w h same)),
        g.inv,
        g.sizes,
        g.represents,
      )

  -- Let the ORAM of a recursive position map satisfy the invariant and represent a memory, know
  -- the block, have room in its stash and blocks of at least eight bytes. Then set of the map does
  -- not throw, and the ORAM then satisfies the invariant, has the same dimensions and represents
  -- the memory with the eight bytes of the leaf written to the block.
  pub set_leaf-Puts :
      (leaf : ℕ)
      → 8 ≤ T.block_size
      → (t : Oram T) × (set_leaf b leaf s ≡ ok tt t)
        × Inv t
        × SameSizes s t
        × Represents (write m b (le_bytes 8 leaf)) t
  unfolding set_leaf
  set_leaf-Puts leaf h =
      let bytes = le_bytes-IsBytes 8 leaf in
      let p = put-Puts s m b (le_bytes 8 leaf) v rep known room (omega (arith, bytes.0)) bytes.1 in
      (p.after, p.runs, p.inv, p.sizes, p.represents)

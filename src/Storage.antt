-- ===== src/Storage.antt =====
-- What the protocol asks of a storage adapter (AbsStorageAdapter, path-oram/include/
-- storage-adapter.hpp): `get` of locations, `set` of requests and `fillWithZeroes`, and the laws that tie them to
-- the buckets that the adapter holds. The implementations of path-oram/src/storage-adapter.cpp
-- prove these laws; the protocol uses nothing else.
pub mod Adapter
pub mod Memory
pub mod Files
use path_oram_base.Common.{
  ℕ, ◌-◌, ◌*◌, ◌^◌, ◌≤◌, ◌<◌, ◌≡◌, Option, none, some, true, false, Bool, List, [], ◌∷◌, ◌++◌, map,
  length, replicate, All, All-append, refl, arith, length-append, suc, zero,
}
use path_oram_base.Common.Assoc.{lookup, IsMap}
use path_oram_base.Common.Effect.{M, ok}
use path_oram_base.Types.{Bytes, Block, Bucket, is_real}

-- `resize(n, 0x00)` of data that is no longer than `n`.
unfoldable pub pad : ℕ → Bytes → Bytes
pad n xs = xs ++ replicate (n - length xs) 0

unfoldable pub pad_block : ℕ → Block → Block
pad_block n e = (e.0, pad n e.1)

-- A block with a 64-bit ID whose data are at most `n` bytes.
abbrev pub IsBlock : ℕ → Block → Type 0
IsBlock n e = (e.0 < 2 ^ 64) × (length e.1 ≤ n) × All (λ x. x < 256) e.1

-- A bucket of `z` blocks.
abbrev pub IsBucket : ℕ → ℕ → Bucket → Type 0
IsBucket n z b = (length b ≡ z) × All (IsBlock n) b

-- The buckets at some locations, one after the other.
unfoldable pub gather : (ℕ → Bucket) → List ℕ → List Block
gather f [] = []
gather f (l ∷ ls) = f l ++ gather f ls

-- What stands at a location after some requests: what was requested for it, padded, if anything.
abbrev pub written : ℕ → Option Bucket → Bucket → Bucket
written n none old = old
written n (some b) old = map (pad_block n) b

-- `IsReady` holds as soon as the adapter has its space, `IsGood` once every location is filled.
pub record Storage : Type 1 where
  pub State : Type 0
  pub capacity : ℕ
  pub block_size : ℕ
  pub bucket_size : ℕ
  pub get : List ℕ → M State (List Block)
  pub set : List (ℕ × Bucket) → M State (Unit {0})
  pub fill_with_zeroes : M State (Unit {0})
  pub IsReady : State → Type 0
  pub IsGood : State → Type 0
  pub view : State → ℕ → Bucket
  pub view-IsBucket :
      (s : State) (l : ℕ) → IsGood s → l < capacity → IsBucket block_size bucket_size (view s l)
  pub get-view :
      (s : State) (ls : List ℕ)
      → IsGood s
      → All (λ l. l < capacity) ls
      → get ls s ≡ ok (gather (view s) ls) s
  pub set-view :
      (s : State) (rs : List (ℕ × Bucket))
      → IsGood s
      → IsMap rs
      → All (λ r. (r.0 < capacity) × IsBucket block_size bucket_size r.1) rs
      → (t : State) × (set rs s ≡ ok tt t)
        × IsGood t
        × ((l : ℕ) → l < capacity → view t l ≡ written block_size (lookup l rs) (view s l))
  pub fill_with_zeroes-view :
      (s : State)
      → IsReady s
      → (t : State) × (fill_with_zeroes s ≡ ok tt t)
        × IsGood t
        × ((l : ℕ) → l < capacity → All (λ e. is_real e ≡ false) (view t l))

pub gather-All :
    (P : Block → Type 0) (f : ℕ → Bucket) (ls : List ℕ)
    → All (λ l. All P (f l)) ls
    → All P (gather f ls)
unfolding gather
gather-All P f [] h = tt
gather-All P f (l ∷ ls) h = All-append P (f l) _ h.0 (gather-All P f ls h.1)

pub length-gather :
    (f : ℕ → Bucket) (z : ℕ) (ls : List ℕ)
    → All (λ l. length (f l) ≡ z) ls
    → length (gather f ls) ≡ length ls * z
unfolding gather
length-gather f z [] h = omega arith
length-gather f z (l ∷ ls) h =
    omega (arith, length-append (f l) (gather f ls), h.0, length-gather f z ls h.1)

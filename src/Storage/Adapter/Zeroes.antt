-- ===== src/Storage/Adapter/Zeroes.antt =====
-- The requests of fillWithZeroes in path-oram/src/storage-adapter.cpp.
use native.Mathlib.Decide.{ℕ_discrete}
use path_oram_base.Common.Assoc.{lookup, count, IsMap}
use path_oram_base.Common.{
  ℕ, zero, suc, ◌+◌, ◌<◌, ◌≤◌, ◌≡◌, refl, false, [], map, some, arith, replicate, length-replicate,
  replicate-All, All,
}
use path_oram_base.Storage.Adapter.{zero_requests}
use path_oram_base.Storage.{pad_block, IsBlock, IsBucket}
use path_oram_base.Types.{Block, empty_id, is_real}

count-zero_requests_below : (z n i j : ℕ) → j < i → count j (zero_requests z n i) ≡ 0
unfolding zero_requests
count-zero_requests_below z zero i j h = refl
count-zero_requests_below z (suc n) i j h = ground (arith, count-zero_requests_below z n (i + 1) j)

pub zero_requests-IsMap : (z n i : ℕ) → IsMap (zero_requests z n i)
unfolding zero_requests
zero_requests-IsMap z zero i j = omega arith
zero_requests-IsMap z (suc n) i j = elim (ℕ_discrete i j) [
  | yes e ↦ ground (arith, count-zero_requests_below z n (i + 1) j)
  | no e ↦ ground (arith, zero_requests-IsMap z n (i + 1) j)
]

pub zero_requests-All :
    (z m capacity n i : ℕ)
    → i + n ≤ capacity
    → All (λ q. (q.0 < capacity) × IsBucket m z q.1) (zero_requests z n i)
unfolding zero_requests
zero_requests-All z m capacity zero i h = tt
zero_requests-All z m capacity (suc n) i h = (
  (
    omega arith,
    (
      length-replicate {A = Block} z (empty_id, []),
      replicate-All (IsBlock m) z (empty_id, []) (omega arith, omega arith, tt),
    ),
  ),
  zero_requests-All z m capacity n (i + 1) (omega arith),
)

pub lookup-zero_requests :
    (z n i j : ℕ)
    → i ≤ j
    → j < i + n
    → lookup j (zero_requests z n i) ≡ some (replicate z (empty_id, []))
unfolding zero_requests lookup
lookup-zero_requests z zero i j h k = absurd (omega arith)
lookup-zero_requests z (suc n) i j h k = ground (arith, lookup-zero_requests z n (i + 1) j)

pub padded_dummies :
    (n z : ℕ) → All (λ e. is_real e ≡ false) (map (pad_block n) (replicate z (empty_id, [])))
unfolding pad_block is_real
padded_dummies n zero = tt
padded_dummies n (suc z) = (refl, padded_dummies n z)

-- ===== src/Storage/Adapter/Settled.antt =====
-- The constructor of AbsStorageAdapter in path-oram/src/storage-adapter.cpp.
use native.Mathlib.Nat.{mod-eq_of_lt}
use path_oram_base.Common.{
  ℕ, ◌+◌, ◌*◌, ◌^◌, ◌%◌, ◌<◌, ◌≤◌, ◌≡◌, ◌≢◌, refl, arith, length, ◌==◌, ltb, inl, inr, All,
  Bool-cases, if◌then◌else◌,
}
use path_oram_base.Common.Effect.{
  Outcome, ok, err, block_size_too_small, block_size_not_multiple, no_blocks_in_bucket,
}
use path_oram_base.Encoding.{IsByte, IsBytes}
use path_oram_base.Random.Blocks.{get_random_block-runs}
use path_oram_base.Random.{Words, get_random_block}
use path_oram_base.Storage.Adapter.Seal.{IsSettings}
use path_oram_base.Storage.Adapter.{Settings, new_settings}
use path_oram_base.Types.{Bytes}

module _ (capacity n : ℕ) (key : Bytes) (z batch_limit : ℕ) (bytes : All IsByte key)
    (fits : (n + 16) * z + 16 < 2 ^ 64) (w : Words) where
  -- Of a key of another size there is nothing left.
  key_cases :
      (key' : Bytes) × (w' : Words) × IsBytes 32 key'
      × (length key ≡ 32 → key' ≡ key)
      × ((if length key == 32 then ok key w else get_random_block 32 w) ≡ ok key' w')
  key_cases = elim (Bool-cases (length key == 32)) [
    | inl e ↦ (key, w, (ground arith, bytes), (λ h. refl), rw e refl)
    | inr e ↦
        let (k, w', r, good) = get_random_block-runs 32 w in
        (k, w', good, (λ h. absurd (ground (arith, h, e))), rw e r)
  ]

  -- What the constructor says to its arguments.
  pub data Settled : Outcome Words Settings → Type 0 where
    small : (w' : Words) → n < 32 → Settled (err (block_size_too_small n) w')
    uneven : (w' : Words) → 32 ≤ n → n % 16 ≢ 0 → Settled (err (block_size_not_multiple n) w')
    empty : (w' : Words) → 32 ≤ n → n % 16 ≡ 0 → z ≡ 0 → Settled (err no_blocks_in_bucket w')
    settled :
        (c : Settings) (w' : Words)
        → IsSettings c
        → c.capacity ≡ capacity
        → c.user_block_size ≡ n
        → c.bucket_size ≡ z
        → c.batch_limit ≡ batch_limit
        → (length key ≡ 32 → c.key ≡ key)
        → Settled (ok c w')

  -- If the key has bytes, and (the block size + 16) * Z + 16 is below 2 ^ 64, the constructor of
  -- the storage adapter throws for a block size below 32, else for one that is not a multiple of
  -- 16, else for buckets of no blocks, and otherwise leaves the capacity, the block size, Z and
  -- the batch limit that it was given, the block size on the storage that they make, and a key of
  -- 32 bytes, which is the one given if that has 32 bytes.
  pub new_settings-Settled : Settled (new_settings capacity n key z batch_limit w)
  unfolding new_settings
  new_settings-Settled =
      let (key', w', good, kept, e) = key_cases in
      rw e (elim (Bool-cases (ltb n 32)) [
        | inl s ↦ rw s (small w' (ground arith))
        | inr s ↦ elim (Bool-cases (n % 16 == 0)) [
          | inr u ↦ rw (s, u) (uneven w' (ground arith) (ground arith))
          | inl u ↦ elim (Bool-cases (z == 0)) [
            | inl m ↦ rw (s, u, m) (empty w' (ground arith) (ground arith) (ground arith))
            | inr m ↦
                rw (s, u, m)
                  (settled _ w'
                    (record {
                      key_good = good;
                      some_blocks = ground arith;
                      long_enough = ground arith;
                      whole = ground arith;
                      size = mod-eq_of_lt fits;
                    })
                    refl refl refl refl kept)
          ]
        ]
      ])

-- ===== src/Tests/Adapters.antt =====
-- Runs at concrete inputs, for the statements about path-oram/src/storage-adapter.cpp.
use path_oram_base.Common.{
  ℕ, ◌-◌, ◌*◌, ◌≤◌, ◌<◌, ◌≡◌, refl, ap, false, List, [], ◌∷◌, arith, length, map, replicate,
  length-map, length-replicate, replicate-All, All, ◌==◌, if◌then◌else◌,
}
use path_oram_base.Common.Assoc.{lookup}
use path_oram_base.Common.Effect.{ok}
use path_oram_base.Encoding.{IsByte, IsBytes}
use path_oram_base.Storage.Adapter.Batches.{batch_limit_lem}
use path_oram_base.Storage.Adapter.Meets.{set-written, fill_with_zeroes-dummies}
use path_oram_base.Storage.Adapter.Reading.{IsFilled, bucket_view, get-gather}
use path_oram_base.Storage.Adapter.Seal.{
  IsSettings, sealed, opened, Good, length-sealed, opened-sealed,
}
use path_oram_base.Storage.Adapter.Settled.{Settled, new_settings-Settled}
use path_oram_base.Storage.Adapter.{
  Settings, Adapter, get, set, fill_with_zeroes, new_settings, get_raws, get_batch, set_raws,
  set_batch,
}
use path_oram_base.Storage.Files.{read_block, write_block, read_block-write_block}
use path_oram_base.Storage.Memory.{memory_store, memory_store-IsRawStore}
use path_oram_base.Storage.{gather, written, pad_block}
use path_oram_base.Types.{Bytes, Bucket, is_real}
use path_oram_base.Utility.{Cipher, IsCipher, Suite, cbc}

-- A cipher that flips the bits of every byte.
abbrev flip : Bytes → Bytes
flip xs = map (λ x. 255 - x) xs

abbrev flipping : Cipher
flipping = record {
  cbc_encrypt = λ key iv xs. flip xs;
  cbc_decrypt = λ key iv xs. flip xs;
  ctr_encrypt = λ key iv xs. flip xs;
}

flip-flip : (xs : Bytes) → All IsByte xs → flip (flip xs) ≡ xs
flip-flip [] h = refl
flip-flip (x ∷ xs) h =
    let same : 255 - (255 - x) ≡ x = omega (arith, h.0) in rw same (ap (◌∷◌ x) (flip-flip xs h.1))

pub flipping-IsCipher : IsCipher flipping
flipping-IsCipher = record {
  cbc_length = λ key iv xs h k b q. length-map (λ x. 255 - x) xs;
  cbc_inverse = λ key iv xs h k b q. flip-flip xs b;
  ctr_length = λ key iv xs h k b. length-map (λ x. 255 - x) xs;
  ctr_inverse = λ key iv xs h k b. flip-flip xs b;
}

abbrev pub suite : Suite
suite = record { cipher = flipping; cipher_mode = cbc }

abbrev pub settings : Settings
settings = record {
  key = replicate 32 1;
  bucket_size = 1;
  batch_limit = 1;
  capacity = 4;
  block_size = 64;
  user_block_size = 32;
}

pub settings-IsSettings : IsSettings settings
settings-IsSettings = record {
  key_good = (length-replicate {A = ℕ} 32 1, replicate-All IsByte 32 1 (omega arith));
  some_blocks = omega arith;
  long_enough = omega arith;
  whole = omega arith;
  size = refl;
}

abbrev zeroes : Bytes
zeroes = replicate 16 0

abbrev one_block : Bucket
one_block = (7, 5 ∷ []) ∷ []

zeroes-IsBytes : IsBytes 16 zeroes
zeroes-IsBytes = (length-replicate {A = ℕ} 16 0, replicate-All IsByte 16 0 (omega arith))

one_block-Good : Good suite settings one_block
one_block-Good = (refl, ((omega arith, omega arith, (omega arith, tt)), tt))

abbrev two_requests : List (ℕ × Bucket)
two_requests = (1, one_block) ∷ (0, one_block) ∷ []

-- An adapter of which every location has the same block.
abbrev adapter : Adapter memory_store
adapter = record { raw = λ l. sealed suite settings zeroes one_block; words = λ i. i }

adapter-IsFilled :
    IsFilled suite settings flipping-IsCipher settings-IsSettings
      (memory_store-IsRawStore 4 64)
      adapter
unfolding memory_store-IsRawStore
adapter-IsFilled = (
  λ l h.
      length-sealed suite settings flipping-IsCipher settings-IsSettings zeroes one_block
        zeroes-IsBytes one_block-Good,
  λ l h. (zeroes, one_block, zeroes-IsBytes, one_block-Good, refl),
)

opened-sealed_example :
    opened suite settings (sealed suite settings zeroes one_block) ≡ map (pad_block 32) one_block
opened-sealed_example =
    opened-sealed suite settings flipping-IsCipher settings-IsSettings zeroes one_block
      zeroes-IsBytes one_block-Good

get-gather_example :
    get suite settings (2 ∷ 2 ∷ []) adapter
    ≡ ok
        (gather
          (bucket_view suite settings flipping-IsCipher settings-IsSettings
            (memory_store-IsRawStore 4 64)
            adapter)
          (2 ∷ 2 ∷ []))
        adapter
get-gather_example =
    get-gather suite settings flipping-IsCipher settings-IsSettings (memory_store-IsRawStore 4 64)
      adapter (2 ∷ 2 ∷ []) adapter-IsFilled (omega arith, (omega arith, tt))

set-written_example :
    (t : Adapter memory_store) × (set suite settings two_requests adapter ≡ ok tt t)
    × IsFilled suite settings flipping-IsCipher settings-IsSettings (memory_store-IsRawStore 4 64) t
    × ((l : ℕ)
        → l < 4
        → bucket_view suite settings flipping-IsCipher settings-IsSettings
            (memory_store-IsRawStore 4 64)
            t
            l
          ≡ written 32 (lookup l two_requests) (
              bucket_view suite settings flipping-IsCipher settings-IsSettings
                (memory_store-IsRawStore 4 64)
                adapter
                l))
set-written_example =
    set-written suite settings flipping-IsCipher settings-IsSettings (memory_store-IsRawStore 4 64)
      adapter two_requests adapter-IsFilled (λ k. ground arith)
      ((omega arith, one_block-Good), ((omega arith, one_block-Good), tt))

fill_with_zeroes-dummies_example :
    (t : Adapter memory_store) × (fill_with_zeroes suite settings adapter ≡ ok tt t)
    × IsFilled suite settings flipping-IsCipher settings-IsSettings (memory_store-IsRawStore 4 64) t
    × ((l : ℕ)
        → l < 4
        → All
            (λ e. is_real e ≡ false)
            (bucket_view suite settings flipping-IsCipher settings-IsSettings
              (memory_store-IsRawStore 4 64)
              t
              l))
fill_with_zeroes-dummies_example =
    fill_with_zeroes-dummies suite settings flipping-IsCipher settings-IsSettings
      (memory_store-IsRawStore 4 64) adapter adapter-IsFilled.0

batch_limit_lem_example :
    (get_raws suite settings (0 ∷ 1 ∷ []) adapter
      ≡ get_batch suite settings (0 ∷ 1 ∷ []) [] adapter)
    × (set_raws suite settings ((0, zeroes) ∷ (1, []) ∷ []) adapter
        ≡ set_batch suite settings ((0, zeroes) ∷ (1, []) ∷ []) adapter)
batch_limit_lem_example =
    batch_limit_lem suite settings (0 ∷ 1 ∷ []) ((0, zeroes) ∷ (1, []) ∷ []) adapter

new_settings-Settled_example :
    Settled 4 48
      (1 ∷ [])
      2
      0
      (omega arith, tt)
      (omega arith)
      (λ i. i)
      (new_settings 4 48 (1 ∷ []) 2 0 (λ i. i))
new_settings-Settled_example =
    new_settings-Settled 4 48 (1 ∷ []) 2 0 (omega arith, tt) (omega arith) (λ i. i)

read_block-write_block_example :
    (t : Bytes) × (old : Bytes) × (write_block 2 1 (8 ∷ 9 ∷ []) (replicate 6 0) ≡ ok tt t)
    × (2 * 3 ≤ length t)
    × (read_block 2 0 (replicate 6 0) ≡ ok old (replicate 6 0))
    × (read_block 2 0 t ≡ ok (if 0 == 1 then 8 ∷ 9 ∷ [] else old) t)
read_block-write_block_example =
    read_block-write_block 3 2 1 0 (8 ∷ 9 ∷ []) (replicate 6 0) (omega arith) (omega arith) refl
      (omega (arith, length-replicate {A = ℕ} 6 0))

-- ===== src/Storage/Files.antt =====
-- FileSystemStorageAdapter of path-oram/src/storage-adapter.cpp. The file is its bytes. Opening
-- and closing it are not modelled.
use path_oram_base.Common.{
  ℕ, suc, ◌+◌, ◌*◌, ◌<◌, ◌≤◌, ◌≡◌, ◌≢◌, refl, sym, ap, ◌∙◌, [], ◌++◌, arith, length, ◌==◌,
  if◌then◌else◌, ne→==, ==_refl,
}
use native.Mathlib.Decide.{dec_lt, ℕ_discrete}
use native.Mathlib.Nat.{mul-le-mul_right}
use mathlib.Core.List.{append-nil}
use path_oram_base.Common.Effect.{M, ok}
use path_oram_base.Common.Slices.{
  slice, splice, length-splice, slice-splice_self, slice-splice_before, slice-splice_after,
}
use path_oram_base.Storage.Adapter.{RawStore}
use path_oram_base.Storage.Adapter.Reading.{IsRawStore}
use path_oram_base.Types.{Bytes}

-- getInternal: seekg and read, into an empty response. `size` is the block size of the adapter, and
-- the file is long enough.
unfoldable pub read_block : ℕ → ℕ → M Bytes Bytes
read_block size location file = ok (slice (location * size) size file ++ []) file

-- setInternal: seekp and write. `raw` has the block size.
unfoldable pub write_block : ℕ → ℕ → Bytes → M Bytes (Unit {0})
write_block size location raw file = ok tt (splice (location * size) raw file)

abbrev pub file_store : ℕ → RawStore
file_store size = record {
  State = Bytes;
  get_internal = read_block size;
  set_internal = write_block size;
}

module _ (size : ℕ) where
  fits :
      (capacity l : ℕ) (raw file : Bytes)
      → l < capacity
      → capacity * size ≤ length file
      → length raw ≡ size
      → l * size + length raw ≤ length file
  fits capacity l raw file h g k = omega (arith, mul-le-mul_right size h)

  same :
      (l : ℕ) (raw file : Bytes)
      → length raw ≡ size
      → l * size + length raw ≤ length file
      → slice (l * size) size (splice (l * size) raw file) ≡ raw
  same l raw file k h =
      ap (λ n. slice (l * size) n (splice (l * size) raw file)) (sym k)
      ∙ slice-splice_self (l * size) raw file h

  other :
      (j l : ℕ) (raw file : Bytes)
      → j ≢ l
      → length raw ≡ size
      → l * size + length raw ≤ length file
      → slice (j * size) size (splice (l * size) raw file) ≡ slice (j * size) size file
  other j l raw file n k h = elim (dec_lt j l) [
    | yes p ↦
        slice-splice_before (l * size) raw file h (j * size) size
          (omega (arith, mul-le-mul_right size p))
    | no p ↦
        let q : suc l ≤ j = omega (arith, n) in
        slice-splice_after (l * size) raw file h (j * size) size
          (omega (arith, k, mul-le-mul_right size q))
  ]

-- A file that is long enough keeps what is written.
pub file_store-IsRawStore : (capacity size : ℕ) → IsRawStore (file_store size) capacity size
unfolding read_block write_block
file_store-IsRawStore capacity size = record {
  IsGood = λ file. capacity * size ≤ length file;
  view = λ file l. slice (l * size) size file;
  get-view = λ file l g h. ap (λ t. ok t file) (append-nil (slice (l * size) size file));
  set-view = λ file l raw g h k. (
    splice (l * size) raw file,
    refl,
    omega (arith, length-splice (l * size) raw file (fits size capacity l raw file h g k)),
    λ j q. elim (ℕ_discrete j l) [
      | yes e ↦ rw (e, ==_refl l) (same size l raw file k (fits size capacity l raw file h g k))
      | no e ↦ rw (ne→== j l e) (other size j l raw file e k (fits size capacity l raw file h g k))
    ],
  );
}

-- If the file has the blocks of all the locations below the capacity, then writing a whole block
-- at one of them keeps the file long enough, and a read at any of them delivers the bytes written,
-- if it is the same location, and otherwise what it delivered before.
pub read_block-write_block :
    (capacity size l j : ℕ) (raw file : Bytes)
    → l < capacity
    → j < capacity
    → length raw ≡ size
    → size * capacity ≤ length file
    → (t : Bytes) × (old : Bytes) × (write_block size l raw file ≡ ok tt t)
      × (size * capacity ≤ length t)
      × (read_block size j file ≡ ok old file)
      × (read_block size j t ≡ ok (if j == l then raw else old) t)
unfolding read_block write_block
read_block-write_block capacity size l j raw file h q k g =
    let room : l * size + length raw ≤ length file =
      fits size capacity l raw file h (omega arith) k in
    (
      splice (l * size) raw file,
      slice (j * size) size file,
      refl,
      omega (arith, length-splice (l * size) raw file room),
      ap (λ t. ok t file) (append-nil (slice (j * size) size file)),
      ap (λ t. ok t (splice (l * size) raw file))
          (append-nil (slice (j * size) size (splice (l * size) raw file)) ∙ elim (ℕ_discrete j l) [
            | yes e ↦ rw (e, ==_refl l) (same size l raw file k room)
            | no e ↦ rw (ne→== j l e) (other size j l raw file e k room)
          ]),
    )

-- ===== src/Stash/Files.antt =====
-- storeToFile and loadFromFile of path-oram/src/stash-adapter.cpp. A file is its bytes; `opened`
-- says whether it could be opened. Copying past the end of a buffer is undefined in the code; here it
-- gives what lies inside, and the statements are about entries that fit.
pub mod RoundTrip
use path_oram_base.Common.{
  ℕ, zero, suc, ◌+◌, ◌*◌, ◌%◌, ◌^◌, Bool, true, false, not, List, [], ◌∷◌, ◌++◌, length, take, ◌==◌,
  ltb, leb, ◌||◌, if◌then◌else◌,
}
use path_oram_base.Common.Assoc.{insert}
use path_oram_base.Common.Effect.{M, ok, throw_if, cannot_open, bind}
use path_oram_base.Common.Slices.{slice, splice}
use path_oram_base.Encoding.{le_bytes, from_le}
use path_oram_base.Stash.{Stash}
use path_oram_base.Types.{Bytes, Block}

-- The size of the data of the first entry.
unfoldable pub first_size : List Block → ℕ
first_size [] = 0
first_size (e ∷ es) = length e.1

-- The loop that copies records of `size` bytes into the buffer, from the i-th on.
unfoldable pub store_records : ℕ → ℕ → List Block → Bytes → Bytes
store_records size i [] buffer = buffer
store_records size i (e ∷ es) buffer =
    store_records size (i + 1) es
      (splice (size * i + 8) e.1 (splice (size * i) (le_bytes 8 e.0) buffer))

-- storeToFile, where `fresh n` is what a new buffer of n bytes holds.
unfoldable pub store_to_file : Bool → (ℕ → Bytes) → Stash → M Bytes (Unit {0})
store_to_file opened fresh s file = bind (throw_if (not opened) cannot_open file) (λ _ file'.
    let n = length s.entries * (8 + first_size s.entries) in
    let buffer = store_records (8 + first_size s.entries) 0 s.entries (fresh n) in
    ok tt (if length s.entries == 0 then [] else take n buffer))

-- The loop over the records, of which each takes eight bytes and more, so that the size of the file
-- is fuel enough.
unfoldable pub load_records : ℕ → ℕ → ℕ → Bytes → List Block → List Block
load_records zero n i buffer entries = entries
load_records (suc fuel) n i buffer entries = elim (ltb i (length buffer)) [
  | false ↦ entries
  | true ↦
      load_records fuel n (i + (8 + n)) buffer
        (insert (from_le (slice i 8 buffer)) (slice (i + 8) n buffer) entries)
]

-- loadFromFile: the size of the file goes through an int.
unfoldable pub load_from_file : Bool → Bytes → ℕ → M Stash (Unit {0})
load_from_file opened file block_size s = bind (throw_if (not opened) cannot_open s) (λ _ t.
    let size = length file % 2 ^ 32 in
    let loaded = load_records size block_size 0 (take size file) t.entries in
    ok tt (if size == 0 || leb (2 ^ 31) size then t else record t { entries = loaded }))

-- ===== src/Cloak/Stash.antt =====
-- path_oram_Cloak_Query/src/stash-adapter.cpp, where it differs from path-oram/: entries are cut or padded
-- to one size, and what is stored and loaded is checked.
pub mod Uniform
pub mod Files
use path_oram_base.Common.{
  ℕ, zero, suc, ◌+◌, ◌-◌, ◌*◌, ◌/◌, ◌%◌, ◌^◌, Bool, true, false, not, List, [], ◌∷◌, ◌++◌, length,
  take, replicate, ◌==◌, ltb, leb, ◌||◌, if◌then◌else◌,
}
use path_oram_base.Common.Assoc.{insert, assign}
use path_oram_base.Common.Effect.{
  M, ok, bind, throw_if, cannot_open, size_mismatch, buffer_overflow,
}
use path_oram_base.Common.Slices.{slice, splice}
use path_oram_base.Encoding.{le_bytes, from_le}
use path_oram_base.Stash.{Stash, check_overflow}
use path_oram_base.Types.{Bytes, Block}

-- The size that entries get: that of the first one, or of the new data.
unfoldable pub reference_size : List Block → Bytes → ℕ
reference_size [] bytes = length bytes
reference_size (e ∷ es) bytes = length e.1

-- Data of that size.
unfoldable pub adjusted : ℕ → Bytes → Bytes
adjusted n bytes =
    if ltb (length bytes) n then bytes ++ replicate (n - length bytes) 0 else take n bytes

-- An ID that is skipped: ULONG_MAX, or more than 1e12.
unfoldable pub is_suspicious : ℕ → Bool
is_suspicious block = block == 2 ^ 64 - 1 || ltb 1000000000000 block

-- add
unfoldable pub add : ℕ → Bytes → M Stash (Unit {0})
add block bytes s = bind (check_overflow block s) (λ _ t. ok tt (
    if is_suspicious block then t else record t {
      entries = insert block (adjusted (reference_size t.entries bytes) bytes) t.entries;
    }))

-- update
unfoldable pub update : ℕ → Bytes → M Stash (Unit {0})
update block bytes s = bind (check_overflow block s) (λ _ t. ok tt (record t {
  entries = assign block (adjusted (reference_size t.entries bytes) bytes) t.entries;
}))

-- The check of storeToFile, over the entries.
unfoldable pub check_sizes : ℕ → List Block → M Bytes (Unit {0})
check_sizes n [] file = ok tt file
check_sizes n (e ∷ es) file =
    bind (throw_if (not (length e.1 == n)) (size_mismatch n (length e.1) e.0) file)
      (λ _. check_sizes n es)

-- The loop of storeToFile, from the i-th record on.
unfoldable pub store_checked : ℕ → ℕ → List Block → Bytes → M Bytes Bytes
store_checked size i [] buffer file = ok buffer file
store_checked size i (e ∷ es) buffer file =
    bind (throw_if (ltb (length buffer) (size * i + size)) buffer_overflow file) (λ _.
      store_checked size (i + 1) es
        (splice (size * i + 8) e.1 (splice (size * i) (le_bytes 8 e.0) buffer)))

-- storeToFile. Opening the file empties it.
unfoldable pub store_to_file : Bool → Stash → M Bytes (Unit {0})
store_to_file opened s file = bind (throw_if (not opened) cannot_open file) (λ _ _.
    if length s.entries == 0
    then ok tt []
    else (let n = reference_size s.entries [] in
        let total = length s.entries * (8 + n) in
        bind (check_sizes n s.entries []) (λ _ t.
          bind (store_checked (8 + n) 0 s.entries (replicate total 0) t)
            (λ buffer _. ok tt (take total buffer)))))

-- The loop of loadFromFile over the whole records, from the i-th on.
unfoldable pub load_checked : ℕ → ℕ → ℕ → Bytes → List Block → List Block
load_checked zero n i buffer entries = entries
load_checked (suc rounds) n i buffer entries =
    let offset = i * (8 + n) in
    let block = from_le (slice offset 8 buffer) in
    load_checked rounds n (i + 1) buffer
      (if is_suspicious block then entries else insert block (slice (offset + 8) n buffer) entries)

-- loadFromFile: the size of the file goes through an int.
unfoldable pub load_from_file : Bool → Bytes → ℕ → M Stash (Unit {0})
load_from_file opened file block_size s = bind (throw_if (not opened) cannot_open s) (λ _ t.
    let size = length file % 2 ^ 32 in
    let loaded = load_checked (size / (8 + block_size)) block_size 0 (take size file) t.entries in
    ok tt (if size == 0 || leb (2 ^ 31) size then t else record t { entries = loaded }))

-- ===== src/Splitter.antt =====
-- Cutting a file or a key into numbers that are shared among servers, and putting it together again:
-- path-oram/src/splitter.cpp, and split_keys and the joining of keys in trusted_proxy_layer.cpp. A file of
-- shares is the numbers on its lines; a server whose file is missing is `none`.
pub mod Numbers
pub mod Pieces
pub mod Servers
pub mod Header
pub mod Blocks
pub mod RoundTrip
use path_oram_base.Common.{
  ℕ, zero, suc, ◌+◌, ◌-◌, ◌*◌, ◌/◌, ◌%◌, ◌^◌, Bool, true, false, Option, none, some, List, [], ◌∷◌,
  ◌++◌, length, map, take, drop, replicate, get_elem?, ◌==◌, ltb, if◌then◌else◌,
}
use path_oram_base.Common.Checked.{◌>>=◌}
use path_oram_base.Common.Int.{ℤ, pos, negsuc}
use path_oram_base.Encoding.{le_bytes, from_le}
use path_oram_base.Random.{Words}
use path_oram_base.SecretSharing.{SecretPair, split, restore}
use path_oram_base.Types.{Bytes}

abbrev pub ShareFiles : Type 0
ShareFiles = List (Option (List ℤ))

-- The loop `while (size)`, which takes seven bytes at a time: with fewer at the end, `size` misses 0.
unfoldable pub numbers : Bytes → Option (List ℕ)
numbers [] = some []
numbers (a ∷ b ∷ c ∷ d ∷ e ∷ f ∷ g ∷ bytes) = do
  rest ← numbers bytes
  some (from_le (a ∷ b ∷ c ∷ d ∷ e ∷ f ∷ g ∷ []) ∷ rest)
numbers bytes = none

-- complete[i].push_back(ret[i]): with too few shares it reads past the end.
unfoldable pub push_all : List (List SecretPair) → List SecretPair → Option (List (List SecretPair))
push_all [] ret = some []
push_all (shares ∷ complete) [] = none
push_all (shares ∷ complete) (pair ∷ ret) = do
  rest ← push_all complete ret
  some ((shares ++ pair ∷ []) ∷ rest)

-- The numbers are shared one after the other, each with k - 1 new random coefficients.
unfoldable pub share_numbers :
    ℕ → ℕ → Words → List ℕ → List (List SecretPair) → Option (List (List SecretPair))
share_numbers n k words [] complete = some complete
share_numbers n k words (number ∷ numbers) complete = do
  ret ← split number n k words
  complete' ← push_all complete ret
  share_numbers n k (λ i. words (k - 1 + i)) numbers complete'

-- What the files of the servers hold.
unfoldable pub lines_of : List (List SecretPair) → List (List ℤ)
lines_of complete = map (map λ pair. pair.y) complete

-- The loop that reads pieces of the file and the code for the rest, of which the buffer is filled up.
unfoldable pub read_pieces : ℕ → ℕ → ℕ → Bytes → Option (List ℕ)
read_pieces zero piece ct_empty file = none
read_pieces (suc fuel) piece ct_empty file = elim (ltb (length file) piece) [
  | true ↦ if length file == 0 then some [] else numbers (file ++ replicate ct_empty 0)
  | false ↦ do
    first ← numbers (take piece file)
    rest ← read_pieces fuel piece ct_empty (drop piece file)
    some (first ++ rest)
]

-- `ct_empty` is not initialised, and stays `junk` for a multiple of seven.
unfoldable pub empty_count : ℕ → ℕ → ℕ
empty_count junk tot_sz =
    let curr_sz = tot_sz + 7 in if curr_sz % 7 == 0 then junk else (curr_sz / 7 + 1) * 7 - curr_sz

-- The first seven bytes of header_t, with CHECK_SUM.
unfoldable pub header_bytes : ℕ → ℕ → Bytes
header_bytes tot_sz ct_empty = le_bytes 4 tot_sz ++ le_bytes 2 6969 ++ le_bytes 1 ct_empty

-- read_file, with CHUNK_SIZE. Each round takes a piece of the file, so its size is enough fuel.
unfoldable pub read_file : ℕ → ℕ → ℕ → Words → Bytes → Option (List (List ℤ))
unfolding read_pieces lines_of
read_file n k junk words file = do
  let ct_empty = empty_count junk (length file)
  cut ← read_pieces (suc (length file)) 42000 ct_empty file
  complete ←
      share_numbers n k words (from_le (header_bytes (length file) ct_empty) ∷ cut) (replicate n [])
  some (lines_of complete)

-- The loop for the header, from server `i` on.
unfoldable pub find_head : ℕ → ShareFiles → Option (List SecretPair)
find_head i [] = some []
find_head i (none ∷ files) = find_head (i + 1) files
find_head i (some lines ∷ files) = do
  val ← get_elem? lines 0
  rest ← find_head (i + 1) files
  some (record { x = pos i; y = val } ∷ rest)

-- ans[j].push_back for every block: `none` where the file has too few lines.
unfoldable pub push_values : ℕ → List ℤ → List (List SecretPair) → Option (List (List SecretPair))
push_values i lines [] = some []
push_values i [] (shares ∷ ans) = none
push_values i (val ∷ lines) (shares ∷ ans) = do
  rest ← push_values i lines ans
  some ((shares ++ record { x = pos i; y = val } ∷ []) ∷ rest)

-- The loop over the files, from server `i` on, after `skip` lines of each.
unfoldable pub read_shares :
    ℕ → ℕ → ShareFiles → List (List SecretPair) → Option (List (List SecretPair))
read_shares skip i [] ans = some ans
read_shares skip i (none ∷ files) ans = read_shares skip (i + 1) files ans
read_shares skip i (some lines ∷ files) ans = do
  ans' ← push_values i (drop skip lines) ans
  read_shares skip (i + 1) files ans'

-- The first `n` bytes of a `long long`.
unfoldable pub low_bytes : ℕ → ℤ → Bytes
low_bytes n (pos v) = le_bytes n v
low_bytes n (negsuc v) = le_bytes n (2 ^ 64 - 1 - v)

-- The loop over the blocks, with `tot` bytes left.
unfoldable pub write_blocks : ℕ → ℕ → List (List SecretPair) → Option Bytes
write_blocks k tot [] = some []
write_blocks k tot (shares ∷ ans) = do
  ret ← restore k shares
  rest ← write_blocks k (if ltb tot 7 then 0 else tot - 7) ans
  some (low_bytes (if ltb tot 7 then tot else 7) ret ++ rest)

-- How many files a run finds, if they are too few, or else the bytes that it writes.
pub data Combined : Type 0 where
  too_few : ℕ → Combined
  combined : Bytes → Combined

-- handle_text after the header: `ret` is the number that was restored.
unfoldable pub handle_body : ℕ → ℤ → ShareFiles → Option Combined
handle_body k ret files = do
  let header = low_bytes 8 ret
  let tot_sz = from_le (take 4 header)
  let emptyct = from_le (take 1 (drop 6 header))
  let blocks = (emptyct + tot_sz) % 2 ^ 32 / 7
  ans ← read_shares 1 1 files (replicate blocks [])
  bytes ← write_blocks k tot_sz ans
  some (combined bytes)

-- handle_text after the loop for the header: a wrong checksum only prints a warning.
unfoldable pub handle_heads : ℕ → List SecretPair → ShareFiles → Option Combined
handle_heads k heads files = elim (ltb (length heads) k) [
  | true ↦ some (too_few (length heads))
  | false ↦ do ret ← restore k heads; handle_body k ret files
]

-- handle_text
unfoldable pub handle_text : ℕ → ShareFiles → Option Combined
handle_text k files = do heads ← find_head 1 files; handle_heads k heads files

-- split_keys: of the 35 bytes of its buffer the last three are not initialised.
unfoldable pub split_keys : ℕ → ℕ → Words → Bytes → Bytes → Option (List (List ℤ))
unfolding lines_of
split_keys n k words junk key = do
  cut ← numbers (key ++ junk)
  complete ← share_numbers n k words cut (replicate n [])
  some (lines_of complete)

-- How many files there are.
unfoldable pub found : ShareFiles → ℕ
found [] = 0
found (none ∷ files) = found files
found (some lines ∷ files) = suc (found files)

-- The joining of the key in shamirSecretSharing: five blocks for 32 bytes.
unfoldable pub join_keys : ℕ → ShareFiles → Option Combined
join_keys k files = do
  ans ← read_shares 0 1 files (replicate 5 [])
  elim (ltb (found files) k) [
    | true ↦ some (too_few (found files))
    | false ↦ do key ← write_blocks k 32 ans; some (combined key)
  ]

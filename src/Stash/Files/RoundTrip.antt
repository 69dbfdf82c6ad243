-- ===== src/Stash/Files/RoundTrip.antt =====
-- What storeToFile of path-oram/src/stash-adapter.cpp writes, loadFromFile reads.
use mathlib.Core.List.{append_assoc, append-nil}
use path_oram_base.Common.{
  ℕ, zero, suc, ◌+◌, ◌*◌, ◌%◌, ◌^◌, ◌<◌, ◌≤◌, ◌≡◌, refl, sym, ap, ◌∙◌, true, false, inl, inr, List,
  [], ◌∷◌, ◌++◌, arith, length, take, drop, length-append, length-drop, All, Option, none, some,
  Bool-cases, ◌==◌, ltb, leb, lt→ltb, le→ltb, take-append_left, lt→leb, ==_refl, ne→==,
}
use path_oram_base.Common.Assoc.{insert, lookup, count, IsMap, lookup-absent}
use path_oram_base.Common.Effect.{ok}
use path_oram_base.Common.Slices.{slice, splice, splice-append, slice-append}
use path_oram_base.Encoding.{le_bytes, from_le, le_bytes-IsBytes, from_le-le_bytes}
use path_oram_base.Stash.Files.{
  first_size, store_records, store_to_file, load_records, load_from_file,
}
use path_oram_base.Stash.{Stash}
use path_oram_base.Types.{Bytes, Block}

-- An entry with a 64-bit ID and `n` bytes of data.
abbrev pub IsRecord : ℕ → Block → Type 0
IsRecord n e = (e.0 < 2 ^ 64) × (length e.1 ≡ n)

unfoldable pub record_bytes : List Block → Bytes
record_bytes [] = []
record_bytes (e ∷ es) = le_bytes 8 e.0 ++ (e.1 ++ record_bytes es)

pub length-record_bytes :
    (n : ℕ) (es : List Block) → All (IsRecord n) es → length (record_bytes es) ≡ length es * (8 + n)
unfolding record_bytes
length-record_bytes n [] h = omega arith
length-record_bytes n (e ∷ es) h = omega (
  arith,
  length-append (le_bytes 8 e.0) (e.1 ++ record_bytes es),
  length-append e.1 (record_bytes es),
  (le_bytes-IsBytes 8 e.0).0,
  h.0.1,
  length-record_bytes n es h.1,
)

no_bytes : (xs : Bytes) → length xs ≡ 0 → xs ≡ []
no_bytes [] h = refl
no_bytes (x ∷ xs) h = absurd (omega arith)

-- The loop fills the buffer behind what it has written.
pub store_records-record_bytes :
    (n i : ℕ) (es : List Block) (pre room : Bytes)
    → All (IsRecord n) es
    → length pre ≡ (8 + n) * i
    → length room ≡ length es * (8 + n)
    → store_records (8 + n) i es (pre ++ room) ≡ pre ++ record_bytes es
unfolding store_records record_bytes
store_records-record_bytes n i [] pre room h k q = ap (λ t. pre ++ t) (no_bytes room (omega arith))
store_records-record_bytes n i (e ∷ es) pre room h k q =
    let id = le_bytes 8 e.0 in
    let size : length id ≡ 8 = (le_bytes-IsBytes 8 e.0).0 in
    let once : splice ((8 + n) * i) id (pre ++ room) ≡ (pre ++ id) ++ drop (length id) room =
      splice-append ((8 + n) * i) pre id room k
      ∙ sym (append_assoc pre id (drop (length id) room)) in
    let twice : splice ((8 + n) * i + 8) e.1 ((pre ++ id) ++ drop (length id) room)
        ≡ ((pre ++ id) ++ e.1) ++ drop (length e.1) (drop (length id) room) =
      splice-append ((8 + n) * i + 8) (pre ++ id) e.1 (drop (length id) room)
        (omega (arith, length-append pre id, size, k))
      ∙ sym (append_assoc (pre ++ id) e.1 (drop (length e.1) (drop (length id) room))) in
    ap (λ t. store_records (8 + n) (i + 1) es (splice ((8 + n) * i + 8) e.1 t)) once
    ∙ ap (store_records (8 + n) (i + 1) es) twice
    ∙ store_records-record_bytes n (i + 1) es ((pre ++ id) ++ e.1)
        (drop (length e.1) (drop (length id) room)) h.1
        (omega (arith, length-append (pre ++ id) e.1, length-append pre id, size, h.0.1, k))
        (omega (
          arith,
          length-drop (length e.1) (drop (length id) room),
          length-drop (length id) room,
          size,
          h.0.1,
          q,
        ))
    ∙ append_assoc (pre ++ id) e.1 (record_bytes es)
    ∙ append_assoc pre id (e.1 ++ record_bytes es)

-- What is found in the first map, or else in the second.
abbrev pub first_of : Option Bytes → Option Bytes → Option Bytes
first_of (some v) o = some v
first_of none o = o

pub first_of-none : (o : Option Bytes) → o ≡ first_of o none
first_of-none none = refl
first_of-none (some v) = refl

pub lookup-insert_new :
    (k j : ℕ) (v : Bytes) (m es : List Block)
    → count j m ≡ 0
    → first_of (lookup k (insert j v m)) (lookup k es)
      ≡ first_of (lookup k m) (lookup k ((j, v) ∷ es))
unfolding lookup insert
lookup-insert_new k j v m es h = elim (Bool-cases (j == k)) [
  | inl e ↦
      let same : lookup k m ≡ none = lookup-absent k m (ground arith) in
      rw (h, lookup, e, same) refl
  | inr e ↦ rw (h, lookup, e) refl
]

-- A round of the loop adds an entry.
load_one :
    (n : ℕ) (e : Block) (es : List Block) (pre : Bytes) (fuel : ℕ) (m : List Block)
    → IsRecord n e
    → load_records (suc fuel) n (length pre) (pre ++ record_bytes (e ∷ es)) m
      ≡ load_records fuel n
          (length ((pre ++ le_bytes 8 e.0) ++ e.1))
          (((pre ++ le_bytes 8 e.0) ++ e.1) ++ record_bytes es)
          (insert e.0 e.1 m)
unfolding load_records record_bytes
load_one n e es pre fuel m h =
    let id = le_bytes 8 e.0 in
    let rest = record_bytes es in
    let size : length id ≡ 8 = (le_bytes-IsBytes 8 e.0).0 in
    let inside : ltb (length pre) (length (pre ++ (id ++ (e.1 ++ rest)))) ≡ true =
      lt→ltb (length pre) _ (
        omega
          (arith, length-append pre (id ++ (e.1 ++ rest)), length-append id (e.1 ++ rest), size)) in
    let number : from_le (slice (length pre) 8 (pre ++ (id ++ (e.1 ++ rest)))) ≡ e.0 =
      ap from_le (slice-append (length pre) 8 pre id (e.1 ++ rest) refl size)
      ∙ from_le-le_bytes 8 e.0 (omega (arith, h.0)) in
    let regroup : pre ++ (id ++ (e.1 ++ rest)) ≡ (pre ++ id) ++ (e.1 ++ rest) =
      sym (append_assoc pre id (e.1 ++ rest)) in
    let content : slice (length pre + 8) n (pre ++ (id ++ (e.1 ++ rest))) ≡ e.1 =
      ap (slice (length pre + 8) n) regroup
      ∙ slice-append (length pre + 8) n (pre ++ id) e.1 rest
          (omega (arith, length-append pre id, size)) h.1 in
    let next : length pre + (8 + n) ≡ length ((pre ++ id) ++ e.1) =
      omega (arith, length-append (pre ++ id) e.1, length-append pre id, size, h.1) in
    rw (load_records, record_bytes, inside, number, content, next)
      (ap (λ t. load_records fuel n (length ((pre ++ id) ++ e.1)) t (insert e.0 e.1 m))
        (regroup ∙ sym (append_assoc (pre ++ id) e.1 rest)))

-- The loop adds the entries of which there are bytes.
load_records-lookup :
    (fuel n k : ℕ) (es : List Block) (pre : Bytes) (m : List Block)
    → All (IsRecord n) es
    → length es ≤ fuel
    → ((j : ℕ) → count j es + count j m ≤ 1)
    → lookup k (load_records fuel n (length pre) (pre ++ record_bytes es) m)
      ≡ first_of (lookup k m) (lookup k es)
unfolding load_records record_bytes lookup insert
load_records-lookup zero n k [] pre m h p c = first_of-none (lookup k m)
load_records-lookup (suc fuel) n k [] pre m h p c =
    let over : ltb (length pre) (length (pre ++ [])) ≡ false =
      le→ltb (length pre) (length (pre ++ [])) (omega (arith, length-append pre [])) in
    let same : load_records (suc fuel) n (length pre) (pre ++ []) m ≡ m =
      rw (load_records, over) refl in
    ap (lookup k) same ∙ first_of-none (lookup k m)
load_records-lookup zero n k (e ∷ es) pre m h p c = absurd (omega arith)
load_records-lookup (suc fuel) n k ((b, v) ∷ es) pre m h p c =
    ap (lookup k) (load_one n (b, v) es pre fuel m h.0)
    ∙ load_records-lookup fuel n k es ((pre ++ le_bytes 8 b) ++ v) (insert b v m) h.1 (omega arith)
        (λ j. ground (arith, c j))
    ∙ lookup-insert_new k b v m es (ground (arith, c b, ==_refl b))

-- If a new buffer has the size asked for, and the entries of a stash are a map, have 64-bit IDs
-- and the same number of data bytes, and the file stays below 2 ^ 31 bytes, then storing the stash
-- does not throw, and loading the file into an empty stash, with that number as the block size,
-- does not throw, keeps the capacity and gives for every ID what the stored stash has.
pub load_from_file-store_to_file :
    (fresh : ℕ → Bytes) (s t : Stash) (n : ℕ) (old : Bytes)
    → ((k : ℕ) → length (fresh k) ≡ k)
    → IsMap s.entries
    → All (IsRecord n) s.entries
    → length s.entries * (8 + n) < 2 ^ 31
    → t.entries ≡ []
    → (file : Bytes) × (loaded : Stash) × (store_to_file true fresh s old ≡ ok tt file)
      × (load_from_file true file n t ≡ ok tt loaded)
      × (loaded.capacity ≡ t.capacity)
      × ((k : ℕ) → lookup k loaded.entries ≡ lookup k s.entries)
unfolding store_to_file load_from_file first_size lookup
load_from_file-store_to_file fresh s t n old sized m h small e = by_entries s.entries m h small
  where
    by_entries :
        (es : List Block)
        → IsMap es
        → All (IsRecord n) es
        → length es * (8 + n) < 2 ^ 31
        → (file : Bytes) × (loaded : Stash) × (store_to_file true fresh
              (record s { entries = es })
              old
            ≡ ok tt file)
          × (load_from_file true file n t ≡ ok tt loaded)
          × (loaded.capacity ≡ t.capacity)
          × ((k : ℕ) → lookup k loaded.entries ≡ lookup k es)
    by_entries [] m h small = ([], t, refl, refl, refl, λ k. ap (lookup k) e)
    by_entries (x ∷ xs) m h small =
        let es = x ∷ xs in
        let rb = record_bytes es in
        let whole : length rb ≡ length es * (8 + n) = length-record_bytes n es h in
        let filled : store_records (8 + length x.1) 0 es (fresh (length es * (8 + length x.1)))
            ≡ rb =
          rw h.0.1 (
            store_records-record_bytes n 0 es [] (fresh (length es * (8 + n))) h (omega arith)
              (sized (length es * (8 + n)))) in
        let kept : take (length rb) rb ≡ rb =
          ap (take (length rb)) (sym (append-nil rb)) ∙ take-append_left rb [] in
        let all : take (length es * (8 + length x.1)) rb ≡ rb =
          ap (λ k. take k rb) (omega (arith, ap (λ k. length es * (8 + k)) h.0.1, whole)) ∙ kept in
        let wrap : length rb % 2 ^ 32 ≡ length rb = omega (arith, whole) in
        let some_bytes : (length rb == 0) ≡ false = ne→== (length rb) 0 (omega (arith, whole)) in
        let an_int : leb (2 ^ 31) (length rb) ≡ false =
          lt→leb (length rb) (2 ^ 31) (omega (arith, whole)) in
        (
          rb,
          record t { entries = load_records (length rb) n 0 rb [] },
          rw (ne→== (length es) 0 (λ q. omega arith)) (
              ap (λ b. ok tt (take (length es * (8 + length x.1)) b)) filled
              ∙ ap (λ b. ok tt b) all),
          rw (wrap, some_bytes, an_int, kept, e) refl,
          refl,
          λ k.
              load_records-lookup (length rb) n k es [] [] h (omega (arith, whole))
                (λ j. omega (arith, m j)),
        )

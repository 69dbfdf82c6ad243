-- ===== src/Cloak/Stash/Files.antt =====
-- What storeToFile of path_oram_Cloak_Query/src/stash-adapter.cpp writes, loadFromFile reads.
use mathlib.Core.List.{append_assoc}
use native.Mathlib.Nat.{mul-div_cancel_left, mul_comm}
use path_oram_base.Common.{
  ℕ, ◌+◌, ◌-◌, ◌*◌, ◌/◌, ◌%◌, ◌^◌, ◌<◌, ◌≤◌, ◌≡◌, refl, sym, ap, ◌∙◌, true, false, List, [], ◌∷◌,
  ◌++◌, arith, length, take, replicate, length-append, length-replicate, All, All-map, ◌==◌, leb,
  if◌then◌else◌, ==_refl, eq→==, ne→==, le→ltb, lt→leb,
}
use path_oram_base.Cloak.Stash.Uniform.{IsUniform}
use path_oram_base.Cloak.Stash.{
  reference_size, is_suspicious, check_sizes, store_checked, store_to_file, load_checked,
  load_from_file,
}
use path_oram_base.Common.Assoc.{insert, lookup, count, IsMap}
use path_oram_base.Common.Effect.{ok}
use path_oram_base.Common.Slices.{slice, splice, length-splice, slice-append, take-length_le}
use path_oram_base.Encoding.{le_bytes, from_le, le_bytes-IsBytes, from_le-le_bytes}
use path_oram_base.Stash.Files.RoundTrip.{
  IsRecord, record_bytes, length-record_bytes, store_records-record_bytes, lookup-insert_new,
  first_of, first_of-none,
}
use path_oram_base.Stash.Files.{store_records}
use path_oram_base.Stash.{Stash}
use path_oram_base.Types.{Bytes, Block}

-- An entry with an ID that is not skipped and `n` bytes of data.
abbrev pub IsKept : ℕ → Block → Type 0
IsKept n e = (e.0 ≤ 1000000000000) × (length e.1 ≡ n)

IsKept-IsRecord : (n : ℕ) (e : Block) → IsKept n e → IsRecord n e
IsKept-IsRecord n e h = (omega (arith, h.0), h.1)

kept : (n : ℕ) (e : Block) → IsKept n e → is_suspicious e.0 ≡ false
unfolding is_suspicious
kept n e h =
    rw (ne→== e.0 (2 ^ 64 - 1) (λ q. omega (arith, h.0)), le→ltb 1000000000000 e.0 h.0) refl

check_sizes-runs :
    (n : ℕ) (es : List Block) (file : Bytes) → IsUniform n es → check_sizes n es file ≡ ok tt file
unfolding check_sizes
check_sizes-runs n [] file h = refl
check_sizes-runs n (e ∷ es) file h =
    rw (check_sizes, eq→== (length e.1) n h.0) (check_sizes-runs n es file h.1)

-- With room for all the records, the checks of the loop pass.
store_checked-runs :
    (n i : ℕ) (es : List Block) (buffer file : Bytes)
    → IsUniform n es
    → (8 + n) * i + length es * (8 + n) ≤ length buffer
    → store_checked (8 + n) i es buffer file ≡ ok (store_records (8 + n) i es buffer) file
unfolding store_checked store_records
store_checked-runs n i [] buffer file h k = refl
store_checked-runs n i (e ∷ es) buffer file h k =
    let id = le_bytes 8 e.0 in
    let size : length id ≡ 8 = (le_bytes-IsBytes 8 e.0).0 in
    let one = splice ((8 + n) * i) id buffer in
    let one_length : length one ≡ length buffer =
      length-splice ((8 + n) * i) id buffer (omega (arith, size, k)) in
    let two_length : length (splice ((8 + n) * i + 8) e.1 one) ≡ length one =
      length-splice ((8 + n) * i + 8) e.1 one (omega (arith, one_length, h.0, k)) in
    rw (store_checked, le→ltb (length buffer) ((8 + n) * i + (8 + n)) (omega (arith, k)))
      (store_checked-runs n (i + 1) es (splice ((8 + n) * i + 8) e.1 one) file h.1
        (omega (arith, one_length, two_length, k)))

load_checked-lookup :
    (n i k : ℕ) (es : List Block) (pre : Bytes) (m : List Block)
    → All (IsKept n) es
    → length pre ≡ i * (8 + n)
    → ((j : ℕ) → count j es + count j m ≤ 1)
    → lookup k (load_checked (length es) n i (pre ++ record_bytes es) m)
      ≡ first_of (lookup k m) (lookup k es)
unfolding load_checked record_bytes lookup insert
load_checked-lookup n i k [] pre m h p c = first_of-none (lookup k m)
load_checked-lookup n i k ((b, v) ∷ es) pre m h p c =
    let id = le_bytes 8 b in
    let rest = record_bytes es in
    let size : length id ≡ 8 = (le_bytes-IsBytes 8 b).0 in
    let number : from_le (slice (i * (8 + n)) 8 (pre ++ (id ++ (v ++ rest)))) ≡ b =
      ap from_le (slice-append (i * (8 + n)) 8 pre id (v ++ rest) p size)
      ∙ from_le-le_bytes 8 b (omega (arith, h.0.0)) in
    let regroup : pre ++ (id ++ (v ++ rest)) ≡ (pre ++ id) ++ (v ++ rest) =
      sym (append_assoc pre id (v ++ rest)) in
    let content : slice (i * (8 + n) + 8) n (pre ++ (id ++ (v ++ rest))) ≡ v =
      ap (slice (i * (8 + n) + 8) n) regroup
      ∙ slice-append (i * (8 + n) + 8) n (pre ++ id) v rest
          (omega (arith, length-append pre id, size, p)) h.0.1 in
    let whole : pre ++ (id ++ (v ++ rest)) ≡ ((pre ++ id) ++ v) ++ rest =
      regroup ∙ sym (append_assoc (pre ++ id) v rest) in
    ap
      (λ x. lookup k (
        load_checked (length es) n (i + 1) (pre ++ (id ++ (v ++ rest))) (
          if is_suspicious x
          then m
          else insert x (slice (i * (8 + n) + 8) n (pre ++ (id ++ (v ++ rest)))) m)))
      number
    ∙ ap
        (λ x. lookup k (
          load_checked (length es) n (i + 1) (pre ++ (id ++ (v ++ rest)))
            (if is_suspicious b then m else insert b x m)))
        content
    ∙ ap
        (λ x. lookup k (
          load_checked (length es) n (i + 1) (pre ++ (id ++ (v ++ rest)))
            (if x then m else insert b v m)))
        (kept n (b, v) h.0)
    ∙ ap (λ x. lookup k (load_checked (length es) n (i + 1) x (insert b v m))) whole
    ∙ load_checked-lookup n (i + 1) k es ((pre ++ id) ++ v) (insert b v m) h.1
        (omega (arith, length-append (pre ++ id) v, length-append pre id, size, h.0.1, p))
        (λ j. ground (arith, c j))
    ∙ lookup-insert_new k b v m es (ground (arith, c b, ==_refl b))

-- The file that a uniform stash is stored to.
store_to_file-record_bytes :
    (n : ℕ) (s : Stash) (file : Bytes)
    → All (IsKept n) s.entries
    → 0 < length s.entries
    → store_to_file true s file ≡ ok tt (record_bytes s.entries)
unfolding store_to_file reference_size
store_to_file-record_bytes n s file h k = by_entries s.entries h k
  where
    by_entries :
        (es : List Block)
        → All (IsKept n) es
        → 0 < length es
        → store_to_file true (record s { entries = es }) file ≡ ok tt (record_bytes es)
    by_entries [] h k = absurd (omega arith)
    by_entries (x ∷ xs) h k =
        let es = x ∷ xs in
        let uniform : IsUniform n es = All-map (IsKept n) (λ e. length e.1 ≡ n) (λ e q. q.1) es h in
        let records : All (IsRecord n) es =
          All-map (IsKept n) (IsRecord n) (IsKept-IsRecord n) es h in
        let total = length es * (8 + n) in
        let room : length (replicate {A = ℕ} total 0) ≡ total = length-replicate {A = ℕ} total 0 in
        let filled : store_records (8 + n) 0 es (replicate total 0) ≡ record_bytes es =
          store_records-record_bytes n 0 es [] (replicate total 0) records (omega arith) room in
        let all : take total (record_bytes es) ≡ record_bytes es =
          take-length_le total (record_bytes es)
            (omega (arith, length-record_bytes n es records)) in
        rw
          (
            ne→== (length es) 0 (λ q. omega arith),
            h.0.1,
            check_sizes-runs n es [] uniform,
            store_checked-runs n 0 es (replicate total 0) [] uniform (omega (arith, room)),
            filled,
            all,
          )
          refl

nothing_stored :
    (s : Stash) (old : Bytes) → store_to_file true (record s { entries = [] }) old ≡ ok tt []
unfolding store_to_file
nothing_stored s old = refl

-- If the entries of a stash are a map, have IDs of at most 10 ^ 12 and the same number of data
-- bytes, and the file stays below 2 ^ 31 bytes, then storing the stash passes all checks, and
-- loading the file into an empty stash, with that number as the block size, does not throw, keeps
-- the capacity and gives for every ID what the stored stash has.
pub load_from_file-stored :
    (n : ℕ) (s t : Stash) (old : Bytes)
    → IsMap s.entries
    → All (IsKept n) s.entries
    → length s.entries * (8 + n) < 2 ^ 31
    → t.entries ≡ []
    → (file : Bytes) × (loaded : Stash) × (store_to_file true s old ≡ ok tt file)
      × (load_from_file true file n t ≡ ok tt loaded)
      × (loaded.capacity ≡ t.capacity)
      × ((k : ℕ) → lookup k loaded.entries ≡ lookup k s.entries)
unfolding load_from_file lookup
load_from_file-stored n s t old m h small e = by_entries s.entries m h small
  where
    by_entries :
        (es : List Block)
        → IsMap es
        → All (IsKept n) es
        → length es * (8 + n) < 2 ^ 31
        → (file : Bytes) × (loaded : Stash) × (store_to_file true (record s { entries = es }) old
            ≡ ok tt file)
          × (load_from_file true file n t ≡ ok tt loaded)
          × (loaded.capacity ≡ t.capacity)
          × ((k : ℕ) → lookup k loaded.entries ≡ lookup k es)
    by_entries [] m h small = ([], t, nothing_stored s old, refl, refl, λ k. ap (lookup k) e)
    by_entries (x ∷ xs) m h small =
        let es = x ∷ xs in
        let rb = record_bytes es in
        let records : All (IsRecord n) es =
          All-map (IsKept n) (IsRecord n) (IsKept-IsRecord n) es h in
        let size : length rb ≡ length es * (8 + n) = length-record_bytes n es records in
        let wrap : length rb % 2 ^ 32 ≡ length rb = omega (arith, size, small) in
        let some_bytes : (length rb == 0) ≡ false =
          ne→== (length rb) 0 (λ q. omega (arith, size)) in
        let an_int : leb (2 ^ 31) (length rb) ≡ false =
          lt→leb (length rb) (2 ^ 31) (omega (arith, size, small)) in
        let whole : take (length rb) rb ≡ rb = take-length_le (length rb) rb (omega arith) in
        let count_ : length rb / (8 + n) ≡ length es =
          ap (λ z. z / (8 + n)) (size ∙ mul_comm (length es) (8 + n))
          ∙ mul-div_cancel_left (length es) (omega arith) in
        (
          rb,
          record t { entries = load_checked (length es) n 0 rb [] },
          store_to_file-record_bytes n (record s { entries = es }) old h (omega arith),
          rw (wrap, some_bytes, an_int, whole, count_, e) refl,
          refl,
          λ k. load_checked-lookup n 0 k es [] [] h (omega arith) (λ j. omega (arith, m j)),
        )

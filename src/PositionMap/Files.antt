-- ===== src/PositionMap/Files.antt =====
-- storeToFile and loadFromFile of InMemoryPositionMapAdapter, path-oram/src/position-map-adapter.cpp.
-- A file is its bytes; `opened` says whether it could be opened.
use path_oram_base.Common.{
  ℕ, zero, suc, ◌+◌, ◌*◌, ◌^◌, ◌<◌, ◌≤◌, ◌≡◌, refl, sym, ap, ◌∙◌, Bool, true, not, [], ◌++◌, arith,
  length, take, drop, ltb, if◌then◌else◌, length-append, lt→ltb,
}
use mathlib.Core.List.{append-nil, append_assoc}
use native.Mathlib.Decide.{ℕ_discrete}
use path_oram_base.Common.Effect.{M, ok, throw_if, cannot_open, bind}
use path_oram_base.Common.Slices.{slice, splice, slice-append, take-length_le, drop-length_le}
use path_oram_base.Encoding.{le_bytes, from_le, le_bytes-IsBytes, from_le-le_bytes}
use path_oram_base.PositionMap.{PositionMap}
use path_oram_base.Types.{Bytes}

-- The memory of the array, from the i-th number on.
unfoldable pub array_bytes : (ℕ → ℕ) → ℕ → ℕ → Bytes
array_bytes leaves i zero = []
array_bytes leaves i (suc n) = le_bytes 8 (leaves i) ++ array_bytes leaves (i + 1) n

-- storeToFile
unfoldable pub store_to_file : Bool → PositionMap → M Bytes (Unit {0})
store_to_file opened m file =
    bind (throw_if (not opened) cannot_open file) (λ _ _. ok tt (array_bytes m.leaves 0 m.capacity))

-- loadFromFile: as many bytes as the array has, or as the file has, go over the array.
unfoldable pub load_from_file : Bool → Bytes → M PositionMap (Unit {0})
load_from_file opened file m = bind (throw_if (not opened) cannot_open m) (λ _ t.
    let memory = splice 0 (take (t.capacity * 8) file) (array_bytes t.leaves 0 t.capacity) in
    ok tt (record t {
      leaves = λ b. if ltb b t.capacity then from_le (slice (8 * b) 8 memory) else t.leaves b;
    }))

length-array_bytes : (f : ℕ → ℕ) (i n : ℕ) → length (array_bytes f i n) ≡ n * 8
unfolding array_bytes
length-array_bytes f i zero = omega arith
length-array_bytes f i (suc n) = omega (
  arith,
  length-append (le_bytes 8 (f i)) (array_bytes f (i + 1) n),
  (le_bytes-IsBytes 8 (f i)).0,
  length-array_bytes f (i + 1) n,
)

slice-array_bytes :
    (f : ℕ → ℕ) (i n b : ℕ) (pre : Bytes)
    → length pre ≡ 8 * i
    → i ≤ b
    → b < i + n
    → slice (8 * b) 8 (pre ++ array_bytes f i n) ≡ le_bytes 8 (f b)
unfolding array_bytes
slice-array_bytes f i zero b pre h p q = absurd (omega arith)
slice-array_bytes f i (suc n) b pre h p q = elim (ℕ_discrete b i) [
  | yes e ↦ rw e (
      slice-append (8 * i) 8 pre (le_bytes 8 (f i)) (array_bytes f (i + 1) n) h
        (le_bytes-IsBytes 8 (f i)).0)
  | no e ↦
      ap (slice (8 * b) 8) (sym (append_assoc pre (le_bytes 8 (f i)) (array_bytes f (i + 1) n)))
      ∙ slice-array_bytes f (i + 1) n b (pre ++ le_bytes 8 (f i))
          (omega (arith, length-append pre (le_bytes 8 (f i)), (le_bytes-IsBytes 8 (f i)).0, h))
          (omega (arith, e)) (omega arith)
]

-- If the leaves of a position map are 64-bit numbers, then storing it does not throw, and loading
-- the file into another map of the same capacity does not throw, and then gives for every block of
-- the map the leaf that was stored.
pub load_from_file-leaves :
    (m t : PositionMap) (old : Bytes)
    → t.capacity ≡ m.capacity
    → ((b : ℕ) → b < m.capacity → m.leaves b < 2 ^ 64)
    → (file : Bytes) × (loaded : PositionMap) × (store_to_file true m old ≡ ok tt file)
      × (load_from_file true file t ≡ ok tt loaded)
      × (loaded.capacity ≡ m.capacity)
      × ((b : ℕ) → b < m.capacity → loaded.leaves b ≡ m.leaves b)
unfolding store_to_file load_from_file splice
load_from_file-leaves m t old same h =
    let file = array_bytes m.leaves 0 m.capacity in
    (file, _, refl, refl, same, λ b q. rw (lt→ltb b t.capacity (omega arith)) (read b q))
  where
    read :
        (b : ℕ)
        → b < m.capacity
        → from_le (
            slice (8 * b) 8 (
              splice 0
                (take (t.capacity * 8) (array_bytes m.leaves 0 m.capacity))
                (array_bytes t.leaves 0 t.capacity)))
          ≡ m.leaves b
    read b q =
        let file = array_bytes m.leaves 0 m.capacity in
        let old_bytes = array_bytes t.leaves 0 t.capacity in
        let size : length file ≡ m.capacity * 8 = length-array_bytes m.leaves 0 m.capacity in
        let all : take (t.capacity * 8) file ≡ file =
          take-length_le (t.capacity * 8) file (omega (arith, size, same)) in
        let over : drop (0 + length file) old_bytes ≡ [] =
          drop-length_le (0 + length file) old_bytes
            (omega (arith, size, length-array_bytes t.leaves 0 t.capacity, same)) in
        rw (all, over)
          (ap (λ x. from_le (slice (8 * b) 8 x)) (append-nil file)
            ∙ ap from_le (
                slice-array_bytes m.leaves 0 m.capacity b [] (omega arith) (omega arith)
                  (omega arith))
            ∙ from_le-le_bytes 8 (m.leaves b) (omega (arith, h b q)))

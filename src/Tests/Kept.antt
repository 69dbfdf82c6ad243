-- ===== src/Tests/Kept.antt =====
-- Runs at concrete inputs, for the statements about the files and the maps of path-oram/src.
use path_oram_base.Common.{
  ℕ, ◌+◌, zero, suc, some, ◌<◌, ◌≡◌, refl, true, Bool, [], ◌∷◌, arith, replicate, length-replicate,
  total-suc, total_none, tally, false, ◌++◌, ap,
}
use path_oram_base.Common.Assoc.{lookup, has_key}
use path_oram_base.Common.Effect.{ok, bind}
use path_oram_base.PositionMap.Files.{load_from_file-leaves}
use path_oram_base.PositionMap.Files as MapFiles
use path_oram_base.PositionMap.{PositionMap}
use path_oram_base.Stash.Files.RoundTrip.{load_from_file-store_to_file}
use path_oram_base.Stash.Files as StashFiles
use path_oram_base.Stash.{Stash}
use path_oram_base.Types.{Bytes, Block, Bucket, empty_id, is_real, real}
use path_oram_base.Encoding.{le_bytes, le_bytes-IsBytes}
use path_oram_base.Oram.Access.Reads.{SameSizes}
use path_oram_base.Oram.Cache.Laws.{view}
use path_oram_base.Oram.Cache.Laws.Fill.{through}
use path_oram_base.Oram.Invariant.{census, Inv}
use path_oram_base.Oram.Memory.{Memory, write, Represents, matches, bytes_eq_refl}
use path_oram_base.Oram.Recursive.{get_leaf, set_leaf, get_leaf-Gets, set_leaf-Puts}
use path_oram_base.Oram.{Oram}
use path_oram_base.Storage.{Storage, pad}
use path_oram_base.Tests.Plain.{plain}
use path_oram_base.Utility.Keys.{store_key, load_key, load_key-store_key}
use path_oram_base.Utility.Text.{from_text, to_text, is_space, EndsPlain, to_text-from_text}

abbrev saved : Stash
saved = record { capacity = 9; entries = (1, 7 ∷ []) ∷ (300, 5 ∷ []) ∷ [] }

abbrev empty_stash : Stash
empty_stash = record { capacity = 3; entries = [] }

load_from_file-store_to_file_example :
    (file : Bytes) × (loaded : Stash) × (StashFiles.store_to_file true (λ n. replicate n 9) saved []
      ≡ ok tt file)
    × (StashFiles.load_from_file true file 1 empty_stash ≡ ok tt loaded)
    × (loaded.capacity ≡ 3)
    × ((k : ℕ) → lookup k loaded.entries ≡ lookup k saved.entries)
load_from_file-store_to_file_example =
    load_from_file-store_to_file (λ n. replicate n 9) saved empty_stash 1 []
      (λ k. length-replicate {A = ℕ} k 9) (λ k. ground arith)
      ((omega arith, refl), ((omega arith, refl), tt)) (omega arith) refl

abbrev map : PositionMap
map = record { capacity = 2; leaves = λ b. b + 700 }

abbrev other_map : PositionMap
other_map = record { capacity = 2; leaves = λ b. 0 }

load_from_file-leaves_example :
    (file : Bytes) × (loaded : PositionMap) × (MapFiles.store_to_file true map [] ≡ ok tt file)
    × (MapFiles.load_from_file true file other_map ≡ ok tt loaded)
    × (loaded.capacity ≡ 2)
    × ((b : ℕ) → b < 2 → loaded.leaves b ≡ b + 700)
load_from_file-leaves_example = load_from_file-leaves map other_map [] refl (λ b h. omega arith)

-- One bucket of dummies, and a block of eight bytes in the stash.
abbrev leaf_store : Storage
leaf_store = plain 2 8 1

abbrev dummies : ℕ → Bucket
dummies l = (empty_id, []) ∷ []

abbrev leaf_object : Oram leaf_store
leaf_object = record {
  config = record { data_size = 8; bucket_size = 1; height = 1; batch_size = 1 };
  storage = dummies;
  map = record { capacity = 1; leaves = λ b. 0 };
  stash = record { capacity = 9; entries = (0, le_bytes 8 770) ∷ [] };
  cache = [];
  words = λ i. i;
}

abbrev leaf_memory : Memory
leaf_memory b = some (le_bytes 8 770)

leaf_census :
    (p : Block → Bool)
    → census p leaf_object
      ≡ tally p leaf_object.stash.entries
        + (tally (real p) (dummies 0) + tally (real p) (dummies 1))
unfolding census view through lookup
leaf_census p = rw (total-suc, total-suc, total_none) (omega arith)

leaf_object-Inv : Inv leaf_object
unfolding view through lookup is_real real
leaf_object-Inv = record {
  cached = record {
    good = λ l h. (refl, ((omega arith, omega arith, tt), tt));
    same_blocks = refl;
    same_buckets = refl;
    some_blocks = omega arith;
    cache_map = λ k. omega arith;
    cache_valid = tt;
  };
  sized = record {
    tall = omega arith;
    short = omega arith;
    fits = omega arith;
    small = omega arith;
    leaves_below = λ b h. omega arith;
  };
  stash_map = λ k. ground arith;
  stash_valid = (
    (
      omega arith,
      (omega arith, omega (arith, (le_bytes-IsBytes 8 770).0), (le_bytes-IsBytes 8 770).1),
    ),
    tt,
  );
  placed = λ l h. (λ r. absurd (ground arith), tt);
  alone = λ b. rw (leaf_census (has_key b)) (ground arith);
}

leaf_object-Represents : Represents leaf_memory leaf_object
unfolding matches real is_real
leaf_object-Represents zero h = (
  rw (leaf_census (has_key 0)) refl,
  rw (leaf_census (matches 8 0 (le_bytes 8 770)), bytes_eq_refl (pad 8 (le_bytes 8 770))) refl,
)
leaf_object-Represents (suc b) h = absurd (omega arith)

get_leaf-Gets_example :
    (t : Oram leaf_store) × (get_leaf 0 leaf_object ≡ ok 770 t)
    × Inv t
    × SameSizes leaf_object t
    × Represents leaf_memory t
get_leaf-Gets_example =
    get_leaf-Gets leaf_object leaf_memory 0 leaf_object-Inv leaf_object-Represents (omega arith)
      (omega arith) 770 (omega arith) refl

set_leaf-Puts_example :
    (t : Oram leaf_store) × (set_leaf 0 3 leaf_object ≡ ok tt t)
    × Inv t
    × SameSizes leaf_object t
    × Represents (write leaf_memory 0 (le_bytes 8 3)) t
set_leaf-Puts_example =
    set_leaf-Puts leaf_object leaf_memory 0 leaf_object-Inv leaf_object-Represents (omega arith)
      (omega arith) 3 (omega arith)

abbrev cons_unless : Bool → ℕ → Bytes → Bytes
cons_unless blank x (y ∷ ys) = x ∷ y ∷ ys
cons_unless true x [] = []
cons_unless false x [] = x ∷ []

unfoldable trim_right : Bytes → Bytes
trim_right [] = []
trim_right (x ∷ xs) = cons_unless (is_space x) x (trim_right xs)

trim_right-spaces : (n : ℕ) → trim_right (replicate n 32) ≡ []
unfolding trim_right is_space
trim_right-spaces zero = refl
trim_right-spaces (suc n) = rw (trim_right-spaces n) refl

trim_right-append :
    (text : Bytes) (n : ℕ) → EndsPlain text → trim_right (text ++ replicate n 32) ≡ text
unfolding trim_right
trim_right-append [] n h = trim_right-spaces n
trim_right-append (x ∷ []) n h = rw (trim_right-spaces n, h) refl
trim_right-append (x ∷ y ∷ ys) n h =
    ap (cons_unless (is_space x) x) (trim_right-append (y ∷ ys) n h)

to_text-from_text_example : to_text trim_right (from_text (65 ∷ 66 ∷ []) 8) 8 ≡ 65 ∷ 66 ∷ []
unfolding is_space
to_text-from_text_example =
    to_text-from_text trim_right (65 ∷ 66 ∷ []) 8 (record { spaces = trim_right-append })
      ((λ e. omega arith), ((λ e. omega arith), tt)) refl (omega arith)

load_key-store_key_example :
    bind (store_key true (replicate 32 9) (replicate 32 1) []) (λ _. load_key true (replicate 32 8))
    ≡ ok (replicate 32 1) (replicate 32 1)
load_key-store_key_example =
    load_key-store_key (replicate 32 9) (replicate 32 8) (replicate 32 1) []
      (length-replicate {A = ℕ} 32 1) (length-replicate {A = ℕ} 32 9)
      (length-replicate {A = ℕ} 32 8)

-- ===== src/Stash.antt =====
-- path-oram/src/stash-adapter.cpp: InMemoryStashAdapter. The unordered_map is a list of entries.
pub mod Laws
pub mod Files
use path_oram_base.Common.{ℕ, ◌<◌, Bool, List, ◌++◌, Option, none, some, ◌==◌, ◌&&◌, ltb, length}
use path_oram_base.Common.Assoc.{lookup, insert, assign, erase, count}
use path_oram_base.Common.Effect.{M, Outcome, ok, throw_if, over_capacity, ◌>>◌, bind}
use path_oram_base.Random.{Words}
use path_oram_base.Random.Shuffle.{shuffle}
use path_oram_base.Types.{Bytes, Block}

pub record Stash : Type 0 where
  pub capacity : ℕ
  pub entries : List Block

-- checkOverflow
unfoldable pub check_overflow : ℕ → M Stash (Unit {0})
check_overflow block s =
    throw_if (length s.entries == s.capacity && count block s.entries == 0)
      (over_capacity s.capacity) s

-- add: an entry that is there stays as it is.
unfoldable pub add : ℕ → Bytes → M Stash (Unit {0})
unfolding check_overflow
add block bytes s =
    bind (check_overflow block s)
      (λ _ t. ok tt (record t { entries = insert block bytes t.entries }))

-- update: an entry that is there is overwritten.
unfoldable pub update : ℕ → Bytes → M Stash (Unit {0})
unfolding check_overflow
update block bytes s =
    bind (check_overflow block s)
      (λ _ t. ok tt (record t { entries = assign block bytes t.entries }))

-- get puts what it finds before what the response holds.
unfoldable pub get : ℕ → Bytes → Stash → Bytes
get block response s = elim (lookup block s.entries) [
  | none ↦ response
  | some bytes ↦ bytes ++ response
]

-- deleteBlock
unfoldable pub delete_block : ℕ → M Stash (Unit {0})
delete_block block s = ok tt (record s { entries = erase block s.entries })

-- getAll: the entries in a random order. (Its argument is empty at every call.)
unfoldable pub get_all : Stash → M Words (List Block)
get_all s = shuffle s.entries

-- exists
unfoldable pub exists : ℕ → Stash → Bool
exists block s = ltb 0 (count block s.entries)

-- currentSize
unfoldable pub current_size : Stash → ℕ
current_size s = length s.entries

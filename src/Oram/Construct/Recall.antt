-- ===== src/Oram/Construct/Recall.antt =====
-- Sequences of calls of a new object of path-oram/src/oram.cpp.
use path_oram_base.Common.{ℕ, ◌^◌, ◌<◌, ◌≤◌, ◌≡◌, sym, subst, ◌∙◌, true, List, [], none, All}
use path_oram_base.Common.Effect.{ok}
use path_oram_base.Oram.Access.History.{Call, IsCall, Runs, Recall, Runs-Recall}
use path_oram_base.Oram.Construct.Laws.{new_oram-Made}
use path_oram_base.Oram.Construct.{new_oram, block_count}
use path_oram_base.Oram.Invariant.{Inv}
use path_oram_base.Oram.Memory.{Represents}
use path_oram_base.Oram.{Oram}
use path_oram_base.PositionMap.{PositionMap}
use path_oram_base.Random.{Words}
use path_oram_base.Storage.{Storage}
use path_oram_base.Types.{Bytes}

ok-state : {A : Type 0} {T : Storage} {a b : A} {s t : Oram T} → ok a s ≡ ok b t → s ≡ t
ok-state e = cc

-- Let a tree of 1 to 31 levels fit the storage, whose buckets have some room and as many blocks as
-- the object is told, let the storage be ready, and let the position map know as many blocks as
-- the tree has, 2 ^ 31 at most. Then whatever calls with good IDs and data follow the constructor
-- in a run in which the stash has room, each get delivers what was last put to its block, up to
-- padding with zeros, and nothing if nothing was put.
pub new_oram-Recall :
    (T : Storage) (log_capacity z batch_size : ℕ) (storage : T.State) (map : PositionMap)
    (stash_capacity : ℕ) (words : Words) {s u : Oram T} {calls : List Call} {results : List Bytes}
    → 0 < log_capacity
    → log_capacity ≤ 31
    → 2 ^ log_capacity ≤ T.capacity
    → 0 < T.bucket_size
    → z ≡ T.bucket_size
    → T.IsReady storage
    → map.capacity ≡ block_count log_capacity z
    → map.capacity ≤ 2 ^ 31
    → new_oram log_capacity T.block_size z storage map
        (record { capacity = stash_capacity; entries = [] })
        true
        batch_size
        words
      ≡ ok tt s
    → All (IsCall map.capacity T.block_size) calls
    → Runs s calls results u
    → Recall T.block_size (λ b. none) calls results
new_oram-Recall T log_capacity z batch_size storage map stash_capacity words {s = s} {calls = calls}
      tall short fits some_blocks same_buckets ready exact small run ok_calls runs =
    let m =
      new_oram-Made T log_capacity z batch_size storage map stash_capacity words tall short fits
        some_blocks same_buckets ready exact small in
    let same : m.object ≡ s = ok-state (sym m.runs ∙ run) in
    let inv : Inv s = subst Inv same m.inv in
    let empty : Represents (λ b. none) s = subst (Represents (λ b. none)) same m.empty in
    let known : s.map.capacity ≡ map.capacity =
      subst (λ (t : Oram T). t.map.capacity ≡ map.capacity) same m.known in
    Runs-Recall (λ b. none) inv empty
      (subst (λ c. All (IsCall c T.block_size) calls) (sym known) ok_calls) runs

-- ===== src/Tests/Fresh.antt =====
-- A new object of path-oram/src/oram.cpp over the adapter in memory of path-oram/src/storage-adapter.cpp.
use path_oram_base.Common.{
  ℕ, ◌*◌, ◌≡◌, refl, ap, [], ◌∷◌, none, arith, replicate, length, length-replicate,
}
use path_oram_base.Oram.Access.Calls.{Gets, get-Gets}
use path_oram_base.Oram.Access.History.{get_call, done, get_step, Recall}
use path_oram_base.Oram.Construct.Laws.{Made, new_oram-Made}
use path_oram_base.Oram.Construct.Recall.{new_oram-Recall}
use path_oram_base.Oram.Construct.{block_count, members}
use path_oram_base.Oram.Invariant.{HasRoom}
use path_oram_base.Oram.{Config}
use path_oram_base.Stash.{Stash}
use path_oram_base.PositionMap.{PositionMap}
use path_oram_base.Storage.Adapter.Meets.{adapter_storage}
use path_oram_base.Storage.Adapter.{Adapter}
use path_oram_base.Storage.Memory.{memory_store, memory_store-IsRawStore}
use path_oram_base.Storage.{Storage}
use path_oram_base.Tests.Adapters.{suite, settings, flipping-IsCipher, settings-IsSettings}

abbrev storage : Storage
storage =
    adapter_storage suite settings flipping-IsCipher settings-IsSettings
      (memory_store-IsRawStore 4 64)

abbrev space : Adapter memory_store
space = record { raw = λ l. replicate 64 9; words = λ i. i }

abbrev map : PositionMap
map = record { capacity = 4; leaves = λ b. 0 }

space-ready : storage.IsReady space
unfolding memory_store-IsRawStore
space-ready = λ l h. length-replicate {A = ℕ} 64 9

map_exact : 4 ≡ block_count 2 1
unfolding block_count
map_exact = refl

new_oram-Made_example :
    Made storage 2 1 1 space map 9
      (λ i. i)
      (omega arith)
      (omega arith)
      (omega arith)
      (omega arith)
      refl
      space-ready
      map_exact
      (omega arith)
new_oram-Made_example =
    new_oram-Made storage 2 1 1 space map 9 (λ i. i) (omega arith) (omega arith) (omega arith)
      (omega arith) refl space-ready map_exact (omega arith)

abbrev made :
    Made storage 2 1 1 space map 9
      (λ i. i)
      (omega arith)
      (omega arith)
      (omega arith)
      (omega arith)
      refl
      space-ready
      map_exact
      (omega arith)
made =
    new_oram-Made storage 2 1 1 space map 9 (λ i. i) (omega arith) (omega arith) (omega arith)
      (omega arith) refl space-ready map_exact (omega arith)

made-room : HasRoom made.object
unfolding members
made-room = omega (
  arith,
  ap (λ (t : Stash). length t.entries) made.stash,
  ap (λ (t : Stash). t.capacity) made.stash,
  ap (λ (c : Config). c.height * c.bucket_size) made.config,
)

abbrev first_get : Gets made.object (λ b. none) 1 []
first_get =
    get-Gets made.object (λ b. none) 1 [] made.inv made.empty (omega (arith, made.known)) made-room

new_oram-Recall_example : Recall 32 (λ b. none) (get_call 1 ∷ []) (first_get.result ∷ [])
new_oram-Recall_example =
    new_oram-Recall storage 2 1 1 space map 9 (λ i. i) (omega arith) (omega arith) (omega arith)
      (omega arith) refl space-ready map_exact (omega arith) made.runs (omega arith, tt)
      (get_step made-room first_get.runs done)

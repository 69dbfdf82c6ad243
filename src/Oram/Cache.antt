-- ===== src/Oram/Cache.antt =====
-- getCache, setCache and syncCache of path-oram/src/oram.cpp: the buckets that an access has
-- downloaded or rewritten and not yet uploaded.
pub mod Laws
pub mod Fetch
use path_oram_base.Common.{
  ℕ, ◌+◌, ◌-◌, ◌/◌, ◌%◌, Bool, true, false, List, [], ◌∷◌, ◌++◌, Option, none, some, ◌==◌,
  if◌then◌else◌, get_elem?,
}
use path_oram_base.Common.Assoc.{lookup, assign}
use path_oram_base.Common.Effect.{M, ok, bind}
use path_oram_base.Oram.{Oram, on_storage}
use path_oram_base.Storage.{Storage}
use path_oram_base.Types.{Block, Bucket}

-- The first loop of getCache: what is not in the cache, and the blocks of what is. An unordered_set
-- has no order of its own; the locations come in the order of the list.
unfoldable pub look_up :
    Bool → List (ℕ × Bucket) → List ℕ → List ℕ → List Block → List ℕ × List Block
look_up dry_run cache [] to_get response = (to_get, response)
look_up dry_run cache (l ∷ ls) to_get response = elim (lookup l cache) [
  | none ↦ look_up dry_run cache ls (to_get ++ l ∷ []) response
  | some bucket ↦ look_up dry_run cache ls to_get (if dry_run then response else bucket ++ response)
]

-- `cache[to_get[k]] = bucket`; `none` would be an access past the end of the vector.
abbrev pub store_at : Option ℕ → Bucket → List (ℕ × Bucket) → List (ℕ × Bucket)
store_at none bucket cache = cache
store_at (some l) bucket cache = assign l bucket cache

-- The second loop of getCache, over the downloaded blocks from the `i`-th on: every `z` blocks make
-- the next bucket.
unfoldable pub fill_cache :
    Bool
    → ℕ
    → List ℕ
    → ℕ
    → List Block
    → Bucket
    → List Block
    → List (ℕ × Bucket)
    → List Block × List (ℕ × Bucket)
fill_cache dry_run z to_get i [] bucket response cache = (response, cache)
fill_cache dry_run z to_get i (e ∷ es) bucket response cache =
    let response' = if dry_run then response else response ++ e ∷ [] in
    let is_full = i % z == z - 1 in
    fill_cache dry_run z to_get (i + 1) es (if is_full then [] else bucket ++ e ∷ []) response'
      (if is_full then store_at (get_elem? to_get (i / z)) (bucket ++ e ∷ []) cache else cache)

unfoldable pub assign_all : List (ℕ × Bucket) → List (ℕ × Bucket) → List (ℕ × Bucket)
assign_all [] cache = cache
assign_all ((l, b) ∷ rs) cache = assign_all rs (assign l b cache)

module _ {T : Storage} where
  unfoldable pub download : Bool → List ℕ → List Block → M (Oram T) (List Block)
  download dry_run [] response s = ok response s
  download dry_run (l ∷ ls) response s = bind (on_storage (T.get (l ∷ ls)) s) (λ downloaded t.
      let (response', cache') =
        fill_cache dry_run t.bucket_size (l ∷ ls) 0 downloaded [] response t.cache in
      ok response' (record t { cache = cache' }))

  -- getCache, from an empty response.
  unfoldable pub get_cache : List ℕ → Bool → M (Oram T) (List Block)
  unfolding download
  get_cache locations dry_run s =
      let (to_get, response) = look_up dry_run s.cache locations [] [] in
      download dry_run to_get response s

  -- setCache
  unfoldable pub set_cache : List (ℕ × Bucket) → M (Oram T) (Unit {0})
  set_cache requests s = ok tt (record s { cache = assign_all requests s.cache })

  -- syncCache: the cache is cleared if the upload did not throw. (The upload pads blocks in place,
  -- which a cache that outlives a failed upload would show; that is left out.)
  unfoldable pub sync_cache : M (Oram T) (Unit {0})
  sync_cache s = bind (on_storage (T.set s.cache) s) (λ _ t. ok tt (record t { cache = [] }))

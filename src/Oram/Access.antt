-- ===== src/Oram/Access.antt =====
-- access, get, put and multiple of path-oram/src/oram.cpp.
use path_oram_base.Common.{
  ℕ, ◌-◌, ◌^◌, Bool, true, false, List, [], ◌∷◌, ◌++◌, ltb, ◌==◌, length, take, replicate,
}
pub mod Finding
pub mod Step
pub mod Sync
pub mod Reads
pub mod Writes
pub mod Calls
pub mod History
pub mod Errors
use path_oram_base.Common.Effect.{M, ok, bind, throw_if, too_many_requests, ◌>>=◌, ◌>>◌}
use path_oram_base.Oram.Cache.{get_cache, sync_cache}
use path_oram_base.Oram.Evict.{write_path}
use path_oram_base.Oram.Path.{read_path}
use path_oram_base.Oram.{Oram, on_map, on_stash, on_words}
use path_oram_base.PositionMap
use path_oram_base.Random.{get_random_u_long}
use path_oram_base.Stash
use path_oram_base.Storage.{Storage}
use path_oram_base.Types.{Bytes, Block}

module _ {T : Storage} where
  -- Step 1 of the paper: the block gets a new random leaf.
  unfoldable pub remap : ℕ → M (Oram T) (Unit {0})
  remap block s =
      bind (on_words (get_random_u_long (2 ^ (s.height - 1))) s)
        (λ leaf. on_map (PositionMap.set block leaf))

  -- Step 3: a write updates the stash.
  unfoldable pub update_stash : Bool → ℕ → Bytes → M (Oram T) (Unit {0})
  update_stash true block bytes s = ok tt s
  update_stash false block bytes s = on_stash (Stash.update block bytes) s

  unfoldable pub read_stash : ℕ → Bytes → M (Oram T) Bytes
  read_stash block response s = ok (Stash.get block response s.stash) s

  -- access: `response` is what it holds before, the result what it holds after.
  unfoldable pub access : Bool → ℕ → Bytes → Bytes → M (Oram T) Bytes
  access read block bytes response = do
    previous ← on_map (PositionMap.get block)
    remap block
    path ← read_path previous [] true
    update_stash read block bytes
    result ← read_stash block response
    write_path previous
    λ s. ok result s

  unfoldable pub get : ℕ → Bytes → M (Oram T) Bytes
  get block response = do result ← access true block [] response; sync_cache; λ s. ok result s

  unfoldable pub put : ℕ → Bytes → M (Oram T) (Unit {0})
  put block bytes = do result ← access false block bytes []; sync_cache

  -- The first loop of multiple: the locations of the paths of all the requests.
  unfoldable pub request_paths : List Block → List ℕ → M (Oram T) (List ℕ)
  request_paths [] locations s = ok locations s
  request_paths (r ∷ rs) locations s = bind (on_map (PositionMap.get r.0) s) (λ leaf t.
      bind (read_path leaf locations false t) (λ locations'. request_paths rs locations'))

  -- The second loop: a request with no data is a read.
  unfoldable pub access_all : List Block → List Bytes → M (Oram T) (List Bytes)
  access_all [] responses s = ok [] s
  access_all (r ∷ rs) [] s = ok [] s
  access_all (r ∷ rs) (response ∷ responses) s =
      bind (access (length r.1 == 0) r.0 r.1 response s)
        (λ result t. bind (access_all rs responses t) (λ results. ok (result ∷ results)))

  -- multiple, with what the response vector holds before the call.
  unfoldable pub multiple : List Block → List Bytes → M (Oram T) (List Bytes)
  multiple requests response = do
    λ s.
        throw_if (ltb s.batch_size (length requests))
          (too_many_requests (length requests) s.batch_size) s
    locations ← request_paths requests []
    blocks ← get_cache locations true
    results ←
        access_all requests
          (take (length requests) (response ++ replicate (length requests - length response) []))
    sync_cache
    λ s. ok results s

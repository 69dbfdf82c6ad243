-- ===== src/Oram/Path.antt =====
-- readPath of path-oram/src/oram.cpp.
pub mod Stashing
pub mod Reading
use path_oram_base.Common.{ℕ, Bool, true, false, List}
use path_oram_base.Common.Effect.{M, ok, bind, for_each}
use path_oram_base.Oram.{Oram, on_stash}
use path_oram_base.Oram.Cache.{get_cache}
use path_oram_base.Stash
use path_oram_base.Storage.{Storage}
use path_oram_base.Tree.{add_path}
use path_oram_base.Types.{Block, is_real}

module _ {T : Storage} where
  -- A dummy block is skipped.
  unfoldable pub stash_real : Block → M (Oram T) (Unit {0})
  stash_real (id, bytes) s = elim (is_real (id, bytes)) [
    | true ↦ on_stash (Stash.add id bytes) s
    | false ↦ ok tt s
  ]

  -- readPath: the locations in `path` and those of the path to `leaf`; with `put_in_stash` the
  -- blocks at all of them go to the stash.
  unfoldable pub read_path : ℕ → List ℕ → Bool → M (Oram T) (List ℕ)
  read_path leaf path put_in_stash s =
      let path' = add_path s.height leaf path in
      elim put_in_stash [
        | true ↦
            bind (get_cache path' false s)
              (λ blocks t. bind (for_each stash_real blocks t) (λ _. ok path'))
        | false ↦ ok path' s
      ]

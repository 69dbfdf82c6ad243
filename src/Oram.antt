-- ===== src/Oram.antt =====
-- path-oram/src/oram.cpp: the state of an ORAM object and what it calls on its adapters. The
-- position map and the stash are the in-memory ones; the storage is any that meets `Storage`.
pub mod Cache
pub mod Invariant
pub mod Memory
pub mod Path
pub mod Evict
pub mod Access
pub mod Recursive
pub mod Construct
use path_oram_base.Common.{ℕ, List, Option, none, some, [], ◌∷◌}
use path_oram_base.Common.Effect.{M, ok, within, bind}
use path_oram_base.PositionMap.{PositionMap}
use path_oram_base.PositionMap
use path_oram_base.Random.{Words, get_random_u_long, get_random_block}
use path_oram_base.Stash.{Stash}
use path_oram_base.Stash
use path_oram_base.Storage.{Storage}
use path_oram_base.Types.{Bytes, Block, Bucket}

pub record Config : Type 0 where
  pub data_size : ℕ
  pub bucket_size : ℕ
  pub height : ℕ
  pub batch_size : ℕ

-- `words` is what the random source will deliver.
pub record Oram (T : Storage) : Type 0 where
  pub config : Config
  pub open config use *
  pub storage : T.State
  pub map : PositionMap
  pub stash : Stash
  pub cache : List (ℕ × Bucket)
  pub words : Words

module _ {T : Storage} where
  -- Calls on the members, with everything else as it was.
  abbrev pub on_map {ℓ} : {A : Type ℓ} → M PositionMap A → M (Oram T) A
  on_map m s = within (λ u t. record u { map = t }) s (m s.map)

  abbrev pub on_stash {ℓ} : {A : Type ℓ} → M Stash A → M (Oram T) A
  on_stash m s = within (λ u t. record u { stash = t }) s (m s.stash)

  abbrev pub on_words {ℓ} : {A : Type ℓ} → M Words A → M (Oram T) A
  on_words m s = within (λ u t. record u { words = t }) s (m s.words)

  abbrev pub on_storage {ℓ} : {A : Type ℓ} → M T.State A → M (Oram T) A
  on_storage m s = within (λ u t. record u { storage = t }) s (m s.storage)

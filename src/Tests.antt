-- ===== src/Tests.antt =====
-- Runs at concrete inputs, for the statements about path-oram/src.
mod Plain
mod Calls
mod Adapters
mod Fresh
mod Kept
mod Shares
mod Sharing
mod Splitting
mod Proxy
use path_oram_base.Common.{
  ℕ, ◌+◌, ◌^◌, ◌≤◌, ◌<◌, ◌≡◌, refl, sym, List, [], ◌∷◌, ◌++◌, arith, inl, inr, ◌⊎◌, ◌↔◌, length,
  tally, total, total-suc, total_none, All, false, Bool, ◌-◌, ◌==◌, if◌then◌else◌,
}
use path_oram_base.Common.Assoc.{IsMap, has_key, count, lookup}
use path_oram_base.Common.Effect.{ok}
use path_oram_base.Oram.Cache.Fetch.{Fetched, get_cache-fetches}
use path_oram_base.Oram.Cache.{fill_cache}
use path_oram_base.Oram.Cache.Laws.Fill.{through, fill_all, fill_cache-gather}
use path_oram_base.Oram.Cache.Laws.{IsCached, view}
use path_oram_base.Oram.Evict.Choice.{Choice, choose-Choice}
use path_oram_base.Oram.Evict.Deleting.{through_int_exact}
use path_oram_base.Oram.Evict.Erase.Laws.{Picks, stop, skip, take, erase_all-Picks}
use path_oram_base.Oram.Evict.Erase.{erase_all, sort_desc}
use path_oram_base.Oram.Evict.Planning.{Planned, plan_levels-Planned}
use path_oram_base.Oram.Evict.Writing.{Written, write_path-Written}
use path_oram_base.Oram.Evict.{Plan, choose, none_chosen, through_int}
use path_oram_base.Oram.Invariant.{IsEntry, IsSized}
use path_oram_base.Oram.Path.Reading.{Stashed, path_tally, read_path-Stashed}
use path_oram_base.Oram.{Oram}
use path_oram_base.Random.Shuffle.{Shuffled, shuffle-Shuffled}
use path_oram_base.Stash.{Stash}
use path_oram_base.Stash
use path_oram_base.Storage.{Storage, gather}
use path_oram_base.Tree.Bounds.{IsLeaf, bucket_bounds, bucket-injective}
use path_oram_base.Tree.Paths.{IsOnPath, level_tally, add_path-tally, add_path-IsOnPath}
use path_oram_base.Tree.Leaves.{leaves_for_location_iff}
use path_oram_base.Tree.{add_path, bucket_for_level_leaf, leaves_for_location}
use path_oram_base.Types.{Block, Bucket, empty_id, real, is_real}
use Plain.{plain}

-- Two levels, buckets of one block of one byte.
abbrev pub tree : Storage
tree = plain 4 1 1

abbrev pub buckets : ℕ → Bucket
buckets l = (if l == 1 then (0, 5 ∷ []) else (empty_id, 0 ∷ [])) ∷ []

abbrev pub object : Oram tree
object = record {
  config = record { data_size = 1; bucket_size = 1; height = 2; batch_size = 1 };
  storage = buckets;
  map = record { capacity = 2; leaves = λ b. b };
  stash = record { capacity = 9; entries = (1, 7 ∷ []) ∷ [] };
  cache = [];
  words = λ i. i;
}

pub one-IsLeaf : IsLeaf 2 1
one-IsLeaf = record { tall = omega arith; short = omega arith; below = omega arith }

pub object-IsCached : IsCached object
object-IsCached = record {
  good = λ l h. good l;
  same_blocks = refl;
  same_buckets = refl;
  some_blocks = omega arith;
  cache_map = λ k. omega arith;
  cache_valid = tt;
}
  where
    good :
        (l : ℕ)
        → (length (buckets l) ≡ 1)
          × All (λ e. (e.0 < 2 ^ 64) × (length e.1 ≤ 1) × All (λ x. x < 256) e.1) (buckets l)
    good l = ground arith

pub object-IsSized : IsSized object
object-IsSized = record {
  tall = omega arith;
  short = omega arith;
  fits = omega arith;
  small = omega arith;
  leaves_below = λ b h. omega arith;
}

pub object-stash-IsMap : IsMap object.stash.entries
object-stash-IsMap k = ground arith

pub object-stash_valid : All (IsEntry tree object.map) object.stash.entries
object-stash_valid = ((omega arith, (omega arith, omega arith, (omega arith, tt))), tt)

abbrev no_plan : Plan
no_plan = record { current_stash = object.stash.entries; to_delete = []; requests = [] }

abbrev three : List ℕ
three = 4 ∷ 5 ∷ 6 ∷ []

write_path-Written_example : Written object 1
write_path-Written_example =
    write_path-Written object 1 object-IsCached object-IsSized one-IsLeaf object-stash-IsMap
      object-stash_valid

object-alone : (b : ℕ) → count b object.stash.entries + path_tally (real (has_key b)) object 1 ≤ 1
unfolding view through bucket_for_level_leaf real is_real lookup
object-alone b = rw (total-suc, total-suc, total_none) (ground arith)

read_path-Stashed_example : Stashed object 1
read_path-Stashed_example =
    read_path-Stashed object 1 object-IsCached one-IsLeaf (omega arith) (omega arith) object-alone

get_cache-fetches_example : Fetched object (2 ∷ 1 ∷ []) false
get_cache-fetches_example =
    get_cache-fetches object (2 ∷ 1 ∷ []) false object-IsCached (omega arith, (omega arith, tt))

plan_levels-Planned_example : Planned object 2 1 no_plan
plan_levels-Planned_example =
    plan_levels-Planned 2 1 object no_plan refl refl (omega arith) (omega arith) (omega arith)
      object-stash_valid

choose-Choice_example :
    (r : Choice object 1 1 0 object.stash.entries (none_chosen [])) × (choose 1 1 0
        object.stash.entries
        (none_chosen [])
        object
      ≡ ok r.result object)
unfolding none_chosen
choose-Choice_example =
    choose-Choice object 1 1 0 object.stash.entries (none_chosen []) (omega arith, tt) (omega arith)

through_int_exact_example :
    (through_int (2 ^ 31) ≡ 2 ^ 31) ↔ ((2 ^ 31 < 2 ^ 31) ⊎ (2 ^ 64 - 2 ^ 31 ≤ 2 ^ 31))
through_int_exact_example = through_int_exact (2 ^ 31) (omega arith)

add_path-tally_example :
    tally (has_key 0) (gather buckets (add_path 2 1 []))
    ≡ total (level_tally (has_key 0) buckets 2 1) 2
add_path-tally_example = add_path-tally 2 1 one-IsLeaf (has_key 0) buckets

shuffle-Shuffled_example : Shuffled three (λ i. i)
shuffle-Shuffled_example = shuffle-Shuffled three (λ i. i)

abbrev full_stash : Stash
full_stash = record { capacity = 1; entries = (3, 9 ∷ []) ∷ [] }

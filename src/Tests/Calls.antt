-- ===== src/Tests/Calls.antt =====
-- Runs of get and put of path-oram/src/oram.cpp at the object of the parent module.
use path_oram_base.Common.{
  ℕ, zero, suc, ◌+◌, ◌≤◌, ◌<◌, ◌≡◌, refl, Bool, [], ◌∷◌, some, arith, All, tally, total-suc,
  total_none, ◌⊎◌, ◌==◌, if◌then◌else◌,
}
use path_oram_base.Common.Assoc.{has_key, lookup}
use path_oram_base.Oram.Access.Calls.{Gets, get-Gets, Puts, put-Puts}
use path_oram_base.Common.Effect.{err, block_out_of_bound}
use path_oram_base.Oram.Access.{get, put}
use path_oram_base.Oram.Access.Errors.{calls_outcome}
use path_oram_base.Oram.Access.History.{get_call, done, get_step, Recall, Runs-Recall}
use path_oram_base.Oram.Access.Sync.{Synced, sync_cache-Synced}
use path_oram_base.Oram.Cache.Laws.{view}
use path_oram_base.Oram.Cache.Laws.Fill.{through}
use path_oram_base.Oram.Invariant.{census, Inv, IsPlaced}
use path_oram_base.Oram.Memory.{Memory, Represents, matches, bytes_eq}
use path_oram_base.Storage.{pad}
use path_oram_base.Tests.{
  object, buckets, object-IsCached, object-IsSized, object-stash-IsMap, object-stash_valid,
}
use path_oram_base.Tree.{bucket_for_level_leaf}
use path_oram_base.Types.{Block, is_real, real}

-- What the object holds.
abbrev memory : Memory
memory b = if b == 0 then some (5 ∷ []) else some (7 ∷ [])

object-census :
    (p : Block → Bool)
    → census p object
      ≡ tally p object.stash.entries
        + (tally (real p) (buckets 0)
            + tally (real p) (buckets 1)
            + tally (real p) (buckets 2)
            + tally (real p) (buckets 3))
unfolding census view through lookup
object-census p = rw (total-suc, total-suc, total-suc, total-suc, total_none) (omega arith)

object-alone : (b : ℕ) → census (has_key b) object ≤ 1
unfolding real is_real
object-alone b = rw (object-census (has_key b)) (ground arith)

object-IsPlaced : (l : ℕ) → l < 4 → All (IsPlaced 2 object.map l) (view object l)
unfolding view through lookup is_real bucket_for_level_leaf
object-IsPlaced zero h = (λ r. absurd (ground arith), tt)
object-IsPlaced (suc zero) h = (λ r. (omega arith, (0, omega arith, refl)), tt)
object-IsPlaced (suc (suc l)) h = (λ r. absurd (ground arith), tt)

object-Inv : Inv object
object-Inv = record {
  cached = object-IsCached;
  sized = object-IsSized;
  stash_map = object-stash-IsMap;
  stash_valid = object-stash_valid;
  placed = λ l h. object-IsPlaced l h;
  alone = object-alone;
}

object-Represents : Represents memory object
unfolding matches real is_real pad bytes_eq
object-Represents zero h =
    (rw (object-census (has_key 0)) refl, rw (object-census (matches 1 0 (5 ∷ []))) refl)
object-Represents (suc zero) h =
    (rw (object-census (has_key 1)) refl, rw (object-census (matches 1 1 (7 ∷ []))) refl)
object-Represents (suc (suc b)) h = absurd (omega arith)

get-Gets_example : Gets object memory 0 []
get-Gets_example =
    get-Gets object memory 0 [] object-Inv object-Represents (omega arith) (omega arith)

put-Puts_example : Puts object memory 1 (8 ∷ [])
put-Puts_example =
    put-Puts object memory 1 (8 ∷ []) object-Inv object-Represents (omega arith) (omega arith)
      (omega arith) (omega arith, tt)

sync_cache-Synced_example : Synced object
sync_cache-Synced_example = sync_cache-Synced object object-Inv

abbrev first_get : Gets object memory 0 []
first_get = get-Gets object memory 0 [] object-Inv object-Represents (omega arith) (omega arith)

Runs-Recall_example : Recall 1 memory (get_call 0 ∷ []) (first_get.result ∷ [])
Runs-Recall_example =
    Runs-Recall memory object-Inv object-Represents (omega arith, tt)
      (get_step (omega arith) first_get.runs done)

calls_outcome_example :
    ((2 ≤ 2)
      × (get 2 [] object ≡ err (block_out_of_bound 2 2) object)
      × (put 2 (8 ∷ []) object ≡ err (block_out_of_bound 2 2) object))
    ⊎ ((2 < 2) × Gets object memory 2 [] × Puts object memory 2 (8 ∷ []))
calls_outcome_example =
    calls_outcome object memory 2 (8 ∷ []) [] object-Inv object-Represents (omega arith)
      (omega arith) (omega arith, tt)

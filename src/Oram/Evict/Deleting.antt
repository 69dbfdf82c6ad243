-- ===== src/Oram/Evict/Deleting.antt =====
-- The end of writePath in path-oram/src/oram.cpp: what went into buckets leaves the stash. The
-- IDs pass through a `vector<int>`, which keeps those below 2 ^ 31 and spoils most others.
use path_oram_base.Common.{
  ℕ, ◌+◌, ◌-◌, ◌^◌, ◌≤◌, ◌<◌, ◌≡◌, refl, ap, Bool, List, [], ◌∷◌, arith, tally, to_nat, All, ◌⊎◌,
  ◌↔◌, ==_refl,
}
use path_oram_base.Common.Assoc.{
  count, has_key, erase, IsMap, without, count-erase-le, erase-All, tally-without_absent,
  tally-erase-without,
}
use path_oram_base.Common.Effect.{ok, for_each}
use path_oram_base.Oram.Evict.Choice.{ids}
use path_oram_base.Oram.Evict.{through_int, delete_blocks}
use path_oram_base.Oram.Path.Stashing.{with_entries}
use path_oram_base.Oram.{Oram}
use path_oram_base.Stash
use path_oram_base.Storage.{Storage}
use path_oram_base.Types.{Block}

-- The 64-bit IDs that come back from a `vector<int>` unchanged are those below 2 ^ 31 and the 2 ^
-- 31 largest, and no others.
pub through_int_exact :
    (n : ℕ) → n < 2 ^ 64 → (through_int n ≡ n) ↔ ((n < 2 ^ 31) ⊎ (2 ^ 64 - 2 ^ 31 ≤ n))
unfolding through_int
through_int_exact n h = (λ e. ground arith, λ k. ground arith)

pub through_int_small : (n : ℕ) → n < 2 ^ 31 → through_int n ≡ n
unfolding through_int
through_int_small n h = ground arith

pub erase_ids : List ℕ → List Block → List Block
erase_ids [] es = es
erase_ids (id ∷ is) es = erase_ids is (erase id es)

pub erase_ids-All :
    (P : Block → Type 0) (is : List ℕ) (es : List Block) → All P es → All P (erase_ids is es)
unfolding erase_ids
erase_ids-All P [] es h = h
erase_ids-All P (id ∷ is) es h = erase_ids-All P is _ (erase-All P id es h)

pub erase_ids-IsMap : (is : List ℕ) (es : List Block) → IsMap es → IsMap (erase_ids is es)
unfolding erase_ids
erase_ids-IsMap [] es h = h
erase_ids-IsMap (id ∷ is) es h =
    erase_ids-IsMap is _ (λ k. omega (arith, h k, count-erase-le k id es))

-- If a map has the blocks of `rest` and those of `taken`, erasing the IDs of the latter leaves the
-- former.
pub tally-erase_ids :
    (taken rest es : List Block)
    → IsMap es
    → ((p : Block → Bool) → tally p rest + tally p taken ≡ tally p es)
    → (p : Block → Bool) → tally p (erase_ids (ids taken) es) ≡ tally p rest
unfolding erase_ids
tally-erase_ids [] rest es h k p = omega (arith, k p)
tally-erase_ids ((id, bytes) ∷ taken) rest es h k p =
    tally-erase_ids taken rest (erase id es) (λ j. omega (arith, h j, count-erase-le j id es)) split
      p
  where
    split : (q : Block → Bool) → tally q rest + tally q taken ≡ tally q (erase id es)
    split q =
        let once : count id rest + (1 + count id taken) ≡ count id es =
          omega (arith, k (has_key id), ap to_nat (==_refl id)) in
        let gone : to_nat (without id q (id, bytes)) ≡ 0 = ground (arith, ==_refl id) in
        omega (
          arith,
          h id,
          once,
          gone,
          k (without id q),
          tally-erase-without q id es (h id),
          tally-without_absent q id rest (omega (arith, h id, once)),
          tally-without_absent q id taken (omega (arith, h id, once)),
        )

module _ {T : Storage} where
  -- The loop erases the IDs that an int can hold.
  pub delete_blocks-runs :
      (is : List ℕ) (s : Oram T)
      → All (λ id. id < 2 ^ 31) is
      → delete_blocks is s ≡ ok tt (with_entries s (erase_ids is s.stash.entries))
  unfolding delete_blocks for_each erase_ids Stash.delete_block
  delete_blocks-runs [] s h = refl
  delete_blocks-runs (id ∷ is) s h =
      rw (for_each, through_int_small id h.0)
        (delete_blocks-runs is (with_entries s (erase id s.stash.entries)) h.1)

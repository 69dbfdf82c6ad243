-- ===== src/Oram/Construct/Laws.antt =====
-- A new object of path-oram/src/oram.cpp is an empty memory.
use native.Mathlib.Decide.{ℕ_discrete}
use native.Mathlib.Nat.{mod-lt}
use path_oram_base.Common.{
  ℕ, zero, suc, ◌+◌, ◌-◌, ◌^◌, ◌%◌, ◌≤◌, ◌<◌, ◌≡◌, refl, ◌∙◌, Bool, true, false, List, [], ◌∷◌,
  none, arith, tally, total_bound, All, All-map, ◌==◌, if◌then◌else◌, ne→==, ==_refl,
}
use path_oram_base.Common.Assoc.{has_key, lookup}
use path_oram_base.Common.Effect.{ok, bind, within}
use path_oram_base.Oram.Cache.Laws.{view}
use path_oram_base.Oram.Cache.Laws.Fill.{through}
use path_oram_base.Oram.Construct.{fill_positions, members, initialize, new_oram, block_count}
use path_oram_base.Oram.Invariant.{census, Inv}
use path_oram_base.Oram.Memory.{Represents}
use path_oram_base.Oram.{Oram}
use path_oram_base.PositionMap.{PositionMap, set_within}
use path_oram_base.Random.{Words, get_random_u_long}
use path_oram_base.Storage.{Storage}
use path_oram_base.Tree.Bounds.{two_pow_pos}
use path_oram_base.Types.{Block, is_real, real, real-false}

tally-dummies :
    (p : Block → Bool) (es : List Block) → All (λ e. is_real e ≡ false) es → tally (real p) es ≡ 0
tally-dummies p [] h = refl
tally-dummies p (e ∷ es) h = rw (real-false p e h.0) (omega (arith, tally-dummies p es h.1))

module _ {T : Storage} where
  -- The loop does not throw on a map that knows the blocks; it gives each a leaf of the tree and
  -- changes no other.
  fill_positions-runs :
      (rounds i : ℕ) (s : Oram T)
      → i + rounds ≤ s.map.capacity
      → (leaves : ℕ → ℕ) × (words : Words) × (fill_positions rounds i s
          ≡ ok tt (record s { map = record s.map { leaves = leaves }; words = words }))
        × ((b : ℕ) → i ≤ b → b < i + rounds → leaves b < 2 ^ (s.height - 1))
        × ((b : ℕ) → b < i → leaves b ≡ s.map.leaves b)
  unfolding fill_positions get_random_u_long
  fill_positions-runs zero i s h =
      (s.map.leaves, s.words, refl, λ b p q. absurd (omega arith), λ b p. refl)
  fill_positions-runs (suc rounds) i s h =
      let leaf = s.words 0 % 2 ^ 64 % 2 ^ (s.height - 1) in
      let t : Oram T = record s {
        map = record s.map { leaves = λ b. if b == i then leaf else s.map.leaves b };
        words = λ j. s.words (suc j);
      } in
      let (leaves, words, run, low, same) = fill_positions-runs rounds (i + 1) t (omega arith) in
      (
        leaves,
        words,
        rw (set_within i s.map (omega arith), within, bind) run,
        λ b p q. elim (ℕ_discrete b i) [
          | yes e ↦ rw (same b (omega arith), e, ==_refl i) (mod-lt _ (two_pow_pos (s.height - 1)))
          | no n ↦ low b (omega arith) (omega arith)
        ],
        λ b p. same b (omega arith) ∙ (rw (ne→== b i (λ e. omega arith)) refl),
      )

module _ (T : Storage) (log_capacity z batch_size : ℕ) (storage : T.State) (map : PositionMap)
    (stash_capacity : ℕ) (words : Words) (tall : 0 < log_capacity) (short : log_capacity ≤ 31)
    (fits : 2 ^ log_capacity ≤ T.capacity) (some_blocks : 0 < T.bucket_size)
    (same_buckets : z ≡ T.bucket_size) (ready : T.IsReady storage)
    (exact : map.capacity ≡ block_count log_capacity z) (small : map.capacity ≤ 2 ^ 31) where
  abbrev start : Oram T
  start =
      members log_capacity T.block_size z storage map
        (record { capacity = stash_capacity; entries = [] }) batch_size words

  -- What the constructor leaves.
  pub record Made : Type 1 where
    pub object : Oram T
    pub runs :
        new_oram log_capacity T.block_size z storage map
          (record { capacity = stash_capacity; entries = [] })
          true
          batch_size
          words
        ≡ ok tt object
    pub inv : Inv object
    pub empty : Represents (λ b. none) object
    pub config : object.config ≡ start.config
    pub stash : object.stash ≡ start.stash
    pub known : object.map.capacity ≡ map.capacity

  pub new_oram-Made : Made
  unfolding new_oram initialize members census view through lookup
  new_oram-Made =
      let (filled, fill, good, dummies) = T.fill_with_zeroes-view storage ready in
      let s : Oram T = record start { storage = filled } in
      let (leaves, words', run, low, _) =
        fill_positions-runs (block_count log_capacity z) 0 s (omega (arith, exact)) in
      let made : Oram T = record s { map = record map { leaves = leaves }; words = words' } in
      let nothing : (p : Block → Bool) → census p made ≡ 0 = λ p. omega (
        arith,
        total_bound (λ l. tally (real p) (T.view filled l)) (2 ^ log_capacity) 0
            (λ l q. omega (arith, tally-dummies p (T.view filled l) (dummies l (omega arith)))),
      ) in
      record {
        object = made;
        runs = rw (fill, within, bind) run;
        inv = record {
          cached = record {
            good = good;
            same_blocks = refl;
            same_buckets = same_buckets;
            some_blocks = some_blocks;
            cache_map = λ k. omega arith;
            cache_valid = tt;
          };
          sized = record {
            tall = tall;
            short = short;
            fits = fits;
            small = small;
            leaves_below = λ b q. low b (omega arith) (omega (arith, exact));
          };
          stash_map = λ k. omega arith;
          stash_valid = tt;
          placed = λ l q.
              All-map _ _ (λ e d real_. absurd (cc)) (T.view filled l) (dummies l (omega arith));
          alone = λ b. omega (arith, nothing (has_key b));
        };
        empty = λ b q. nothing (has_key b);
        config = refl;
        stash = refl;
        known = refl;
      }

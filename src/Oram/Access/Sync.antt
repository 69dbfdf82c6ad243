-- ===== src/Oram/Access/Sync.antt =====
-- syncCache of path-oram/src/oram.cpp: the storage gets what the cache has, padded.
use path_oram_base.Common.{
  ℕ, ◌-◌, ◌^◌, ◌<◌, ◌≡◌, refl, sym, subst, ◌∙◌, Bool, List, [], ◌∷◌, ◌++◌, inl, inr, ◌⊎◌, arith,
  tally, length, length-append, map, replicate, length-replicate, total_congr, All, Option-cases,
  Bool-cases,
}
use mathlib.Core.List.{append-nil}
use path_oram_base.Common.Assoc.{lookup, has_key}
use path_oram_base.Common.Effect.{ok, within, bind}
use path_oram_base.Oram.Cache.{sync_cache}
use path_oram_base.Oram.Cache.Laws.{view}
use path_oram_base.Oram.Cache.Laws.Fill.{through}
use path_oram_base.Oram.Invariant.{census, Inv, IsPlaced}
use path_oram_base.Oram.Memory.{matches}
use path_oram_base.Oram.{Oram}
use path_oram_base.PositionMap.{PositionMap}
use path_oram_base.Storage.{Storage, pad, pad_block, written}
use path_oram_base.Types.{Bytes, Block, is_real, real, real-true, real-false}

-- Padding twice is padding once.
pub pad-pad : (n : ℕ) (xs : Bytes) → pad n (pad n xs) ≡ pad n xs
unfolding pad
pad-pad n xs =
    let full : n - length (xs ++ replicate (n - length xs) 0) ≡ 0 = omega (
      arith,
      length-append xs (replicate (n - length xs) 0),
      length-replicate {A = ℕ} (n - length xs) 0,
    ) in
    rw full (append-nil (xs ++ replicate (n - length xs) 0))

-- A test that padding does not change.
abbrev pub IsStable : ℕ → (Block → Bool) → Type 0
IsStable n p = (e : Block) → p (pad_block n e) ≡ p e

pub has_key-IsStable : (n b : ℕ) → IsStable n (has_key b)
unfolding pad_block
has_key-IsStable n b e = refl

pub matches-IsStable : (n b : ℕ) (bytes : Bytes) → IsStable n (matches n b bytes)
unfolding pad_block matches
matches-IsStable n b bytes e = rw (pad-pad n e.1) refl

real-pad :
    (n : ℕ) (p : Block → Bool) → IsStable n p → (e : Block) → real p (pad_block n e) ≡ real p e
unfolding is_real pad_block
real-pad n p h e = elim (Bool-cases (is_real e)) [
  | inl r ↦ rw (real-true p e r, real-true p (pad_block n e) r) (h e)
  | inr r ↦ rw (real-false p e r, real-false p (pad_block n e) r) refl
]

tally-pad :
    (n : ℕ) (p : Block → Bool)
    → IsStable n p
    → (es : List Block) → tally (real p) (map (pad_block n) es) ≡ tally (real p) es
tally-pad n p h [] = refl
tally-pad n p h (e ∷ es) = rw (real-pad n p h e) (omega (arith, tally-pad n p h es))

IsPlaced-pad :
    (n height : ℕ) (m : PositionMap) (l : ℕ) (es : List Block)
    → All (IsPlaced height m l) es
    → All (IsPlaced height m l) (map (pad_block n) es)
unfolding pad_block is_real
IsPlaced-pad n height m l [] h = tt
IsPlaced-pad n height m l (e ∷ es) h = (h.0, IsPlaced-pad n height m l es h.1)

module _ {T : Storage} where
  -- What syncCache does.
  pub record Synced (s : Oram T) : Type 1 where
    pub storage : T.State
    pub runs : sync_cache s ≡ ok tt (record s { storage = storage; cache = [] })
    pub inv : Inv (record s { storage = storage; cache = [] })
    pub keeps :
        (p : Block → Bool)
        → IsStable T.block_size p
        → census p (record s { storage = storage; cache = [] }) ≡ census p s

  module _ (s : Oram T) (v : Inv s) where
    upload :
        (t : T.State) × (T.set s.cache s.storage ≡ ok tt t)
        × T.IsGood t
        × ((l : ℕ)
            → l < T.capacity
            → T.view t l ≡ written T.block_size (lookup l s.cache) (T.view s.storage l))
    upload = T.set-view s.storage s.cache v.cached.good v.cached.cache_map v.cached.cache_valid

    abbrev synced : Oram T
    synced = record s { storage = upload.0; cache = [] }

    synced-view :
        (l : ℕ)
        → l < T.capacity
        → (view synced l ≡ view s l) ⊎ (view synced l ≡ map (pad_block T.block_size) (view s l))
    unfolding view through lookup
    synced-view l h = elim (Option-cases (lookup l s.cache)) [
      | inl e ↦ inl (upload.3 l h ∙ (rw e refl))
      | inr (b, e) ↦ inr (upload.3 l h ∙ (rw e refl))
    ]

    synced-tally :
        (p : Block → Bool)
        → IsStable T.block_size p
        → (l : ℕ) → l < T.capacity
        → tally (real p) (view synced l) ≡ tally (real p) (view s l)
    synced-tally p q l h = elim (synced-view l h) [
      | inl e ↦ rw e refl
      | inr e ↦ rw e (tally-pad T.block_size p q (view s l))
    ]

    synced-census : (p : Block → Bool) → IsStable T.block_size p → census p synced ≡ census p s
    unfolding census
    synced-census p q = omega (
      arith,
      total_congr (λ l. tally (real p) (view synced l)) (λ l. tally (real p) (view s l))
          (2 ^ s.height) (λ l h. synced-tally p q l (omega (arith, v.sized.fits))),
    )

    synced-IsPlaced : (l : ℕ) → l < 2 ^ s.height → All (IsPlaced s.height s.map l) (view synced l)
    synced-IsPlaced l h = elim (synced-view l (omega (arith, v.sized.fits))) [
      | inl e ↦ subst (All (IsPlaced s.height s.map l)) (sym e) (v.placed l h)
      | inr e ↦
          subst (All (IsPlaced s.height s.map l)) (sym e)
            (IsPlaced-pad T.block_size s.height s.map l (view s l) (v.placed l h))
    ]

    -- If an object satisfies the invariant, then syncCache does not throw and clears the cache,
    -- the invariant still holds, and the stash and the tree together have as many blocks that pass
    -- a test as before, for every test that padding does not change.
    pub sync_cache-Synced : Synced s
    unfolding sync_cache
    sync_cache-Synced = record {
      storage = upload.0;
      runs = rw (upload.1, within, bind) refl;
      inv = record {
        cached = record {
          good = upload.2;
          same_blocks = v.cached.same_blocks;
          same_buckets = v.cached.same_buckets;
          some_blocks = v.cached.some_blocks;
          cache_map = λ k. omega arith;
          cache_valid = tt;
        };
        sized = record {
          tall = v.sized.tall;
          short = v.sized.short;
          fits = v.sized.fits;
          small = v.sized.small;
          leaves_below = v.sized.leaves_below;
        };
        stash_map = v.stash_map;
        stash_valid = v.stash_valid;
        placed = λ l h. synced-IsPlaced l h;
        alone = λ b.
            omega (arith, v.alone b, synced-census (has_key b) (has_key-IsStable T.block_size b));
      };
      keeps = λ p q. synced-census p q;
    }

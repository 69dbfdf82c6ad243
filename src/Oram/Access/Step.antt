-- ===== src/Oram/Access/Step.antt =====
-- One access of path-oram/src/oram.cpp, up to what it does to the stash in between.
use native.Mathlib.Decide.{ℕ_discrete}
use native.Mathlib.Nat.{mod-lt}
use path_oram_base.Common.{
  ℕ, suc, ◌+◌, ◌-◌, ◌^◌, ◌%◌, ◌≤◌, ◌<◌, ◌≡◌, ◌≢◌, refl, sym, ap, subst, ◌∙◌, Bool, true, List, inl,
  inr, arith, ◌==◌, if◌then◌else◌, ne→==, tally, total, length, total_congr, All, All-map, All-zip,
  Bool-cases,
}
use path_oram_base.Common.Assoc.{has_key, IsMap}
use path_oram_base.Common.Effect.{ok, within, bind}
use path_oram_base.Oram.Access.{remap}
use path_oram_base.Oram.Cache.Laws.{IsCached, view, view-IsBucket}
use path_oram_base.Oram.Evict.Uploading.{IsOnPath-cases}
use path_oram_base.Oram.Evict.Writing.{Written, write_path-Written}
use path_oram_base.Oram.Invariant.{census, Inv, IsSized, IsEntry, IsPlaced, HasRoom, leaves-IsLeaf}
use path_oram_base.Oram.Path.Reading.{path_tally, path_blocks-le, Stashed, read_path-Stashed}
use path_oram_base.Oram.Path.Stashing.{with_entries, length-tally}
use path_oram_base.Oram.{Oram}
use path_oram_base.PositionMap.{set_within}
use path_oram_base.Random.{get_random_u_long}
use path_oram_base.Storage.{Storage}
use path_oram_base.Tree.Bounds.{two_pow_pos}
use path_oram_base.Tree.Paths.{IsOnPath, level_total-le}
use path_oram_base.Tree.{bucket_for_level_leaf}
use path_oram_base.Types.{Block, real}

module _ {T : Storage} (s : Oram T) (b : ℕ) where
  abbrev pub new_leaf : ℕ
  new_leaf = s.words 0 % 2 ^ 64 % 2 ^ (s.height - 1)

  abbrev pub remapped : Oram T
  remapped = record s {
    map = record s.map { leaves = λ j. if j == b then new_leaf else s.map.leaves j };
    words = λ i. s.words (suc i);
  }

  pub remap-runs : b < s.map.capacity → remap b s ≡ ok tt remapped
  unfolding remap get_random_u_long
  remap-runs h = rw (set_within b s.map h, within, bind) refl

  -- The other blocks keep their leaves.
  other_leaf : (j : ℕ) → j ≢ b → remapped.map.leaves j ≡ s.map.leaves j
  other_leaf j q = rw (ne→== j b q) refl

  remapped-IsSized : IsSized s → IsSized remapped
  remapped-IsSized z = record {
    tall = z.tall;
    short = z.short;
    fits = z.fits;
    small = z.small;
    leaves_below = λ j h. below j h;
  }
    where
      below : (j : ℕ) → j < s.map.capacity → remapped.map.leaves j < 2 ^ (s.height - 1)
      below j h = elim (Bool-cases (j == b)) [
        | inl e ↦ rw e (mod-lt _ (two_pow_pos (s.height - 1)))
        | inr e ↦ rw e (z.leaves_below j h)
      ]

  remapped-IsCached : IsCached s → IsCached remapped
  remapped-IsCached v = record {
    good = v.good;
    same_blocks = v.same_blocks;
    same_buckets = v.same_buckets;
    some_blocks = v.some_blocks;
    cache_map = v.cache_map;
    cache_valid = v.cache_valid;
  }

  module _ (v : Inv s) (h : b < s.map.capacity) (room : HasRoom s) where
    pub remapped-Stashed : Stashed remapped (s.map.leaves b)
    unfolding view census
    remapped-Stashed =
        read_path-Stashed remapped (s.map.leaves b) (remapped-IsCached v.cached)
          (leaves-IsLeaf s b v.sized h) v.sized.fits room
          (λ j. omega (
            arith,
            level_total-le s.height (s.map.leaves b) (leaves-IsLeaf s b v.sized h)
                (λ l. tally (real (has_key j)) (view s l)) s.height (omega arith),
            v.alone j,
          ))

    -- The stash after reading.
    pub gathered-tally :
        (p : Block → Bool)
        → tally p remapped-Stashed.entries
          ≡ tally p s.stash.entries + path_tally (real p) s (s.map.leaves b)
    unfolding view
    gathered-tally p = remapped-Stashed.gathers p

    pub gathered-IsMap : IsMap remapped-Stashed.entries
    unfolding census
    gathered-IsMap j = omega (
      arith,
      gathered-tally (has_key j),
      level_total-le s.height (s.map.leaves b) (leaves-IsLeaf s b v.sized h)
          (λ l. tally (real (has_key j)) (view s l)) s.height (omega arith),
      v.alone j,
    )

    pub gathered-All : All (IsEntry T s.map) remapped-Stashed.entries
    unfolding view
    gathered-All = remapped-Stashed.keeps (IsEntry T s.map) v.stash_valid (λ l q _.
        All-map _ _ (λ e r i. ((r.1 i).0, r.0)) _
          (All-zip _ _ _ (view-IsBucket s l v.cached (omega (arith, v.sized.fits))).1
            (v.placed l q)))

    pub gathered-length : length remapped-Stashed.entries < s.stash.capacity
    gathered-length = omega (
      arith,
      room,
      length-tally remapped-Stashed.entries,
      length-tally s.stash.entries,
      gathered-tally (λ _. true),
      path_blocks-le s (s.map.leaves b) v.cached (leaves-IsLeaf s b v.sized h) v.sized.fits
          (real (λ _. true)),
    )

    module _ (entries : List Block) (stash_map : IsMap entries)
        (stash_valid : All (IsEntry T s.map) entries) where
      abbrev pub start : Oram T
      start = with_entries (record remapped { cache = remapped-Stashed.cache }) entries

      start-IsCached : IsCached start
      start-IsCached = record {
        good = v.cached.good;
        same_blocks = v.cached.same_blocks;
        same_buckets = v.cached.same_buckets;
        some_blocks = v.cached.some_blocks;
        cache_map = remapped-Stashed.cache_map;
        cache_valid = remapped-Stashed.cache_valid;
      }

      start-IsSized : IsSized start
      start-IsSized =
          let z = remapped-IsSized v.sized in
          record {
            tall = z.tall;
            short = z.short;
            fits = z.fits;
            small = z.small;
            leaves_below = z.leaves_below;
          }

      start-view : (l : ℕ) → view start l ≡ view s l
      unfolding view
      start-view l = remapped-Stashed.same l

      pub start-Written : Written start (s.map.leaves b)
      start-Written =
          write_path-Written start (s.map.leaves b) start-IsCached start-IsSized
            (leaves-IsLeaf s b v.sized h) stash_map stash_valid

      abbrev pub after : Oram T
      after =
          with_entries (record start { cache = start-Written.cache; words = start-Written.words })
            start-Written.entries

      -- What the stash and the tree had together, they have afterwards, but that the stash was set
      -- to `entries` after the path had been read into it.
      pub after-census :
          (p : Block → Bool)
          → census p after + path_tally (real p) s (s.map.leaves b)
            ≡ tally p entries + total (λ l. tally (real p) (view s l)) (2 ^ s.height)
      unfolding census view
      after-census p = omega (
        arith,
        start-Written.moves p,
        total_congr (λ l. tally (real p) (view start l)) (λ l. tally (real p) (view s l))
            (2 ^ s.height) (λ l _. ap (tally (real p)) (start-view l)),
        total_congr
            (λ j. tally (real p) (view start (bucket_for_level_leaf s.height j (s.map.leaves b))))
            (λ j. tally (real p) (view s (bucket_for_level_leaf s.height j (s.map.leaves b))))
            s.height (λ j _. ap (tally (real p)) (start-view _)),
      )

      after-IsPlaced :
          (l : ℕ) → l < 2 ^ s.height → All (IsPlaced s.height remapped.map l) (view after l)
      unfolding view
      after-IsPlaced l q = elim (IsOnPath-cases s.height (s.map.leaves b) s.height l) [
        | inl o ↦ start-Written.on l o
        | inr o ↦
            subst (All (IsPlaced s.height remapped.map l))
              (sym (start-Written.off l o ∙ start-view l))
              (All-map _ _ (λ e k. moved e o k) _ (v.placed l q))
      ]
        where
          moved :
              (e : Block)
              → (¬ IsOnPath s.height (s.map.leaves b) s.height l)
              → IsPlaced s.height s.map l e
              → IsPlaced s.height remapped.map l e
          moved e o k r = elim (ℕ_discrete e.0 b) [
            | yes f ↦ absurd (o (rw f at (k r).1))
            | no f ↦ ((k r).0, rw (other_leaf e.0 f) (k r).1)
          ]

      pub after-Inv : ((j : ℕ) → census (has_key j) after ≤ 1) → Inv after
      after-Inv alone = record {
        cached = record {
          good = v.cached.good;
          same_blocks = v.cached.same_blocks;
          same_buckets = v.cached.same_buckets;
          some_blocks = v.cached.some_blocks;
          cache_map = start-Written.cache_map;
          cache_valid = start-Written.cache_valid;
        };
        sized = record {
          tall = start-IsSized.tall;
          short = start-IsSized.short;
          fits = start-IsSized.fits;
          small = start-IsSized.small;
          leaves_below = start-IsSized.leaves_below;
        };
        stash_map = start-Written.stash_map;
        stash_valid = start-Written.stash_valid;
        placed = λ l q. after-IsPlaced l q;
        alone = alone;
      }

-- ===== src/Oram/Evict/Planning.antt =====
-- The loop of writePath in path-oram/src/oram.cpp over the levels of a path.
use mathlib.Core.List.{append_assoc, append-nil, map-append}
use path_oram_base.Common.{
  ℕ, zero, suc, ◌+◌, ◌^◌, ◌≤◌, ◌<◌, ◌≡◌, refl, sym, ap, ◌∙◌, Bool, true, List, [], ◌∷◌, ◌++◌, arith,
  tally, tally-append, All, All-map, All-append, All-zip, ==_iff,
}
use path_oram_base.Common.Effect.{ok, bind}
use path_oram_base.Oram.Evict.Choice.{Choice, choose-Choice, Fits, ids}
use path_oram_base.Oram.Evict.Erase.Laws.{erase_all-Picks, Picks-tally, Picks-All}
use path_oram_base.Oram.Evict.Erase.{erase_all, sort_desc}
use path_oram_base.Oram.Evict.Filling.{fill_bucket-Filled, dummy-is_real}
use path_oram_base.Oram.Evict.{Plan, none_chosen, choose, plan_level, plan_levels}
use path_oram_base.Oram.Invariant.{IsPlaced, IsEntry}
use path_oram_base.Oram.{Oram}
use path_oram_base.PositionMap.{PositionMap}
use path_oram_base.Random.{Words}
use path_oram_base.Storage.{Storage, IsBucket, IsBlock}
use path_oram_base.Tree.{bucket_for_level_leaf, can_include}
use path_oram_base.Types.{Block, Bucket, is_real, real, real-true, is_real_ne}

-- One request for each of the `n` lowest levels of the path, from the highest number down: a good
-- bucket whose blocks belong there.
abbrev pub Serves : Storage → ℕ → PositionMap → ℕ → ℕ → List (ℕ × Bucket) → Type 0
Serves T height m leaf zero [] = Unit
Serves T height m leaf zero (r ∷ rs) = ⊥
Serves T height m leaf (suc n) [] = ⊥
Serves T height m leaf (suc n) (r ∷ rs) =
    (r.0 ≡ bucket_for_level_leaf height n leaf)
    × IsBucket T.block_size T.bucket_size r.1
    × All (IsPlaced height m r.0) r.1
    × Serves T height m leaf n rs

-- How many of the blocks requested pass a test.
abbrev pub load : (Block → Bool) → List (ℕ × Bucket) → ℕ
load p [] = 0
load p (r ∷ rs) = tally p r.1 + load p rs

pub tally-real :
    (p : Block → Bool) (es : List Block)
    → All (λ e. is_real e ≡ true) es
    → tally (real p) es ≡ tally p es
tally-real p [] h = refl
tally-real p (e ∷ es) h = rw (real-true p e h.0) (omega (arith, tally-real p es h.1))

pub entry-is_real :
    (T : Storage) (m : PositionMap) (e : Block)
    → m.capacity ≤ 2 ^ 31
    → IsEntry T m e
    → is_real e ≡ true
entry-is_real T m e small h = is_real_ne e (λ q. omega arith)

module _ {T : Storage} where
  -- What the levels below `n` do to the plan: blocks move from the local stash to the requests.
  pub record Planned (s : Oram T) (n leaf : ℕ) (p : Plan) : Type 1 where
    pub result : Plan
    pub words : Words
    pub taken : List Block
    pub added : List (ℕ × Bucket)
    pub runs : plan_levels n leaf p s ≡ ok result (record s { words = words })
    pub requests : result.requests ≡ p.requests ++ added
    pub deleted : result.to_delete ≡ p.to_delete ++ ids taken
    pub balance :
        (q : Block → Bool) → tally q result.current_stash + tally q taken ≡ tally q p.current_stash
    pub left_valid : All (IsEntry T s.map) result.current_stash
    pub taken_valid : All (IsEntry T s.map) taken
    pub loads : (q : Block → Bool) → load (real q) added ≡ tally q taken
    pub serves : Serves T s.height s.map leaf n added

  module _ (leaf : ℕ) (s : Oram T) (same_blocks : s.data_size ≡ T.block_size)
      (same_buckets : s.bucket_size ≡ T.bucket_size) (some_blocks : 0 < T.bucket_size)
      (small : s.map.capacity ≤ 2 ^ 31) where
    chosen :
        (level : ℕ) (p : Plan)
        → All (IsEntry T s.map) p.current_stash
        → (r : Choice s leaf level 0 p.current_stash (none_chosen p.to_delete)) × (choose leaf level
              0 p.current_stash
              (none_chosen p.to_delete)
              s
            ≡ ok r.result s)
    unfolding none_chosen
    chosen level p h =
        choose-Choice s leaf level 0 p.current_stash (none_chosen p.to_delete)
          (All-map _ _ (λ e q. q.0) _ h) (omega arith)

    -- A block chosen for a level may stand in its bucket.
    fit-IsPlaced :
        (level : ℕ)
        → level < s.height
        → (e : Block) → IsEntry T s.map e × Fits s leaf level e
        → IsPlaced s.height s.map (bucket_for_level_leaf s.height level leaf) e
    unfolding can_include
    fit-IsPlaced level h e q _ = (q.0.0, (level, h, (==_iff _ _).0 q.1))

    -- One level: the bucket, and what it took.
    record LevelPlanned (level : ℕ) (p : Plan) : Type 1 where
      result : Plan
      words : Words
      taken : List Block
      bucket : Bucket
      runs : plan_level leaf level p s ≡ ok result (record s { words = words })
      requests :
          result.requests ≡ p.requests ++ (bucket_for_level_leaf s.height level leaf, bucket) ∷ []
      deleted : result.to_delete ≡ p.to_delete ++ ids taken
      balance :
          (q : Block → Bool)
          → tally q result.current_stash + tally q taken ≡ tally q p.current_stash
      left_valid : All (IsEntry T s.map) result.current_stash
      taken_valid : All (IsEntry T s.map) taken
      loads : (q : Block → Bool) → tally (real q) bucket ≡ tally q taken
      good : IsBucket T.block_size T.bucket_size bucket
      placed : All (IsPlaced s.height s.map (bucket_for_level_leaf s.height level leaf)) bucket

    plan_level-LevelPlanned :
        (level : ℕ) (p : Plan)
        → level < s.height
        → All (IsEntry T s.map) p.current_stash
        → LevelPlanned level p
    unfolding plan_level none_chosen
    plan_level-LevelPlanned level p h valid =
        let (r, chose) = chosen level p valid in
        let f = fill_bucket-Filled s s.bucket_size r.result.to_insert r.few in
        let erased = erase_all-Picks r.picks in
        let (taken_ok, rest_ok) = Picks-All (IsEntry T s.map) r.picks valid in
        let good_blocks =
          r.inserted_all (IsBlock T.block_size) tt (All-map _ _ (λ e q. q.1) _ taken_ok) in
        let all_real =
          r.inserted_all (λ e. is_real e ≡ true) tt
            (All-map _ _ (λ e. entry-is_real T s.map e small) _ taken_ok) in
        let fitting =
          r.inserted_all (IsPlaced s.height s.map (bucket_for_level_leaf s.height level leaf)) tt
            (All-map _ _ (fit-IsPlaced level h) _ (All-zip _ _ _ taken_ok r.fit)) in
        record {
          result = record {
            current_stash = erase_all (sort_desc r.result.indices) p.current_stash;
            to_delete = r.result.to_delete;
            requests = p.requests ++ (bucket_for_level_leaf s.height level leaf, f.bucket) ∷ [];
          };
          words = f.words;
          taken = r.taken;
          bucket = f.bucket;
          runs = rw (chose, bind, f.runs, bind) refl;
          requests = refl;
          deleted = r.deleted;
          balance = λ q. rw (r.indices, erased) (Picks-tally q r.picks);
          left_valid = rw (r.indices, erased) rest_ok;
          taken_valid = taken_ok;
          loads = λ q.
              omega (arith, f.counts q, tally-real q r.result.to_insert all_real, r.inserted q);
          good = (
            f.full ∙ same_buckets,
            f.every (IsBlock T.block_size) good_blocks
                (λ bytes long range. (omega arith, omega (arith, same_blocks), range)),
          );
          placed = f.every _ fitting (λ bytes long range real_. absurd (cc (dummy-is_real bytes)));
        }

  -- Let the sizes of blocks and buckets agree with a storage whose buckets have some room, the
  -- position map have at most 2 ^ 31 blocks, and the entries of the local stash be good blocks
  -- that it knows. Then the loop over the lowest n levels of the tree does not throw; it makes one
  -- request for each level, a good bucket whose blocks may stand there; and each block either
  -- stays in the local stash or goes to one request, with its ID among those to delete.
  pub plan_levels-Planned :
      (n leaf : ℕ) (s : Oram T) (p : Plan)
      → s.data_size ≡ T.block_size
      → s.bucket_size ≡ T.bucket_size
      → 0 < T.bucket_size
      → s.map.capacity ≤ 2 ^ 31
      → n ≤ s.height
      → All (IsEntry T s.map) p.current_stash
      → Planned s n leaf p
  unfolding plan_levels
  plan_levels-Planned zero leaf s p blocks buckets some_ small h valid = record {
    result = p;
    words = s.words;
    taken = [];
    added = [];
    runs = refl;
    requests = sym (append-nil p.requests);
    deleted = sym (append-nil p.to_delete);
    balance = λ q. omega arith;
    left_valid = valid;
    taken_valid = tt;
    loads = λ q. refl;
    serves = tt;
  }
  plan_levels-Planned (suc n) leaf s p blocks buckets some_ small h valid =
      let a = plan_level-LevelPlanned leaf s blocks buckets some_ small n p h valid in
      let b =
        plan_levels-Planned n leaf (record s { words = a.words }) a.result blocks buckets some_
          small (omega arith) a.left_valid in
      record {
        result = b.result;
        words = b.words;
        taken = a.taken ++ b.taken;
        added = (bucket_for_level_leaf s.height n leaf, a.bucket) ∷ b.added;
        runs = rw (plan_levels, a.runs, bind) b.runs;
        requests =
            b.requests ∙ ap (λ t. t ++ b.added) a.requests ∙ append_assoc p.requests _ b.added;
        deleted =
            b.deleted
            ∙ ap (λ t. t ++ ids b.taken) a.deleted
            ∙ append_assoc p.to_delete (ids a.taken) (ids b.taken)
            ∙ ap (◌++◌ p.to_delete) (sym (map-append (λ e. e.0) a.taken b.taken));
        balance = λ q. omega (arith, a.balance q, b.balance q, tally-append q a.taken b.taken);
        left_valid = b.left_valid;
        taken_valid = All-append _ a.taken b.taken a.taken_valid b.taken_valid;
        loads = λ q. omega (arith, a.loads q, b.loads q, tally-append q a.taken b.taken);
        serves = (refl, a.good, a.placed, b.serves);
      }

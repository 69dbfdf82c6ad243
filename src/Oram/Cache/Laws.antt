-- ===== src/Oram/Cache/Laws.antt =====
-- The cache of path-oram/src/oram.cpp in front of the storage: what a location holds is what the
-- cache has for it, and else what the storage has.
pub mod Fill
use path_oram_base.Common.{
  ℕ, ◌+◌, ◌<◌, ◌≤◌, ◌≡◌, refl, sym, ap, ◌∙◌, subst, Bool, true, false, List, [], ◌∷◌, ◌++◌, Option,
  none, some, inl, inr, arith, tally, tally-append, All, All-append, Option-cases, Bool-cases,
  length, if◌then◌else◌, ◌==◌,
}
use path_oram_base.Common.Assoc.{
  lookup, assign, IsMap, lookup-assign, assign-IsMap, assign-All, lookup-All,
}
use path_oram_base.Common.Effect.{ok}
use path_oram_base.Oram.Cache.{look_up, get_cache, download, sync_cache}
use path_oram_base.Oram.{Oram}
use path_oram_base.Storage.{IsBlock, Storage, gather, IsBucket, written}
use path_oram_base.Types.{Block, Bucket}
use Fill.{fill_all, fill_cache-gather, through, through-fill_all, fill_all-IsMap, fill_all-All}

-- A request that the storage accepts.
abbrev pub IsRequest : Storage → ℕ × Bucket → Type 0
IsRequest T r = (r.0 < T.capacity) × IsBucket T.block_size T.bucket_size r.1

-- The cache is a map of good buckets, in front of a good storage of the same dimensions.
pub record IsCached {T : Storage} (s : Oram T) : Type 0 where
  pub good : T.IsGood s.storage
  pub same_blocks : s.data_size ≡ T.block_size
  pub same_buckets : s.bucket_size ≡ T.bucket_size
  pub some_blocks : 0 < T.bucket_size
  pub cache_map : IsMap s.cache
  pub cache_valid : All (IsRequest T) s.cache

module _ {T : Storage} where
  -- What stands at a location.
  unfoldable pub view : Oram T → ℕ → Bucket
  unfolding through
  view s = through s.cache (T.view s.storage)

  pub view-IsBucket :
      (s : Oram T) (l : ℕ)
      → IsCached s
      → l < T.capacity
      → IsBucket T.block_size T.bucket_size (view s l)
  unfolding view
  view-IsBucket s l v h = elim (Option-cases (lookup l s.cache)) [
    | inl e ↦ rw e (T.view-IsBucket s.storage l v.good h)
    | inr (b, e) ↦ rw e (lookup-All (IsRequest T) l b s.cache e v.cache_valid).1
  ]

pub look_up-tally :
    (p : Block → Bool) (cache : List (ℕ × Bucket)) (f : ℕ → Bucket) (ls to_get : List ℕ)
    (response : List Block)
    → let r = look_up false cache ls to_get response in
      tally p r.1 + tally p (gather f r.0)
      ≡ tally p response + tally p (gather f to_get) + tally p (gather (through cache f) ls)
unfolding look_up gather through
look_up-tally p cache f [] to_get response = omega arith
look_up-tally p cache f (l ∷ ls) to_get response = elim (Option-cases (lookup l cache)) [
  | inl e ↦
      rw (e, look_up, tally-append p (f l) (gather (through cache f) ls))
        (omega (
          arith,
          look_up-tally p cache f ls (to_get ++ l ∷ []) response,
          gather-tally p f to_get l,
        ))
  | inr (b, e) ↦
      rw (e, look_up, tally-append p b (gather (through cache f) ls))
        (omega
          (arith, look_up-tally p cache f ls to_get (b ++ response), tally-append p b response))
]
  where
    gather-tally :
        (p : Block → Bool) (f : ℕ → Bucket) (ks : List ℕ) (k : ℕ)
        → tally p (gather f (ks ++ k ∷ [])) ≡ tally p (gather f ks) + tally p (f k)
    gather-tally p f [] k = rw (tally-append p (f k) []) (omega arith)
    gather-tally p f (j ∷ ks) k =
        rw (tally-append p (f j) (gather f (ks ++ k ∷ [])), tally-append p (f j) (gather f ks))
          (omega (arith, gather-tally p f ks k))

pub look_up-All :
    (P : ℕ → Type 0) (dry_run : Bool) (cache : List (ℕ × Bucket)) (ls to_get : List ℕ)
    (response : List Block)
    → All P ls
    → All P to_get
    → All P (look_up dry_run cache ls to_get response).0
unfolding look_up
look_up-All P d cache [] to_get response h k = k
look_up-All P d cache (l ∷ ls) to_get response h k = elim (Option-cases (lookup l cache)) [
  | inl e ↦
      rw (e, look_up)
        (look_up-All P d cache ls (to_get ++ l ∷ []) response h.1
          (All-append P to_get (l ∷ []) k (h.0, tt)))
  | inr (b, e) ↦ rw (e, look_up) (look_up-All P d cache ls to_get _ h.1 k)
]

pub look_up-missing :
    (dry_run : Bool) (cache : List (ℕ × Bucket)) (ls to_get : List ℕ) (response : List Block)
    → All (λ l. lookup l cache ≡ none) to_get
    → All (λ l. lookup l cache ≡ none) (look_up dry_run cache ls to_get response).0
unfolding look_up
look_up-missing d cache [] to_get response k = k
look_up-missing d cache (l ∷ ls) to_get response k = elim (Option-cases (lookup l cache)) [
  | inl e ↦
      rw (e, look_up)
        (look_up-missing d cache ls (to_get ++ l ∷ []) response
          (All-append _ to_get (l ∷ []) k (e, tt)))
  | inr (b, e) ↦ rw (e, look_up) (look_up-missing d cache ls to_get _ k)
]

pub look_up-response :
    (P : Block → Type 0) (cache : List (ℕ × Bucket)) (f : ℕ → Bucket) (ls to_get : List ℕ)
    (response : List Block)
    → All (λ l. All P (through cache f l)) ls
    → All (λ l. All P (f l)) to_get
    → All P response
    → let r = look_up false cache ls to_get response in All P r.1 × All (λ l. All P (f l)) r.0
unfolding look_up through
look_up-response P cache f [] to_get response h k q = (q, k)
look_up-response P cache f (l ∷ ls) to_get response h k q = elim (Option-cases (lookup l cache)) [
  | inl e ↦
      rw (e, look_up)
        (look_up-response P cache f ls _ response h.1
          (All-append _ to_get (l ∷ []) k (rw (e, through) at h.0, tt)) q)
  | inr (b, e) ↦
      rw (e, look_up)
        (look_up-response P cache f ls to_get _ h.1 k
          (All-append P b response (rw (e, through) at h.0) q))
]

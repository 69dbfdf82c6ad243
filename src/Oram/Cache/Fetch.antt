-- ===== src/Oram/Cache/Fetch.antt =====
-- getCache and syncCache of path-oram/src/oram.cpp, each as a whole.
use mathlib.Core.List.{append-nil}
use path_oram_base.Common.{
  ℕ, ◌<◌, ◌≡◌, refl, sym, ap, subst, Option-cases, inl, inr, ◌∙◌, Bool, true, false, List, [], ◌∷◌,
  ◌++◌, arith, none, tally, tally-append, All, All-map, All-append, if◌then◌else◌,
}
use path_oram_base.Common.Assoc.{lookup, IsMap}
use path_oram_base.Common.Effect.{ok}
use path_oram_base.Oram.Cache.Laws.Fill.{
  fill_all, fill_cache-gather, through, through-fill_all, fill_all-IsMap, fill_all-All,
  through-missing,
}
use path_oram_base.Oram.Cache.Laws.{
  IsRequest, IsCached, view, look_up-tally, look_up-All, look_up-missing, look_up-response,
}
use path_oram_base.Oram.Cache.{look_up, get_cache, download}
use path_oram_base.Oram.{Oram}
use path_oram_base.Storage.{Storage, gather, gather-All}
use path_oram_base.Types.{Block, Bucket}

-- A dry run collects nothing.
look_up-dry :
    (cache : List (ℕ × Bucket)) (ls to_get : List ℕ) (response : List Block)
    → (look_up true cache ls to_get response).1 ≡ response
unfolding look_up
look_up-dry cache [] to_get response = refl
look_up-dry cache (l ∷ ls) to_get response = elim (Option-cases (lookup l cache)) [
  | inl e ↦ rw (e, look_up) (look_up-dry cache ls (to_get ++ l ∷ []) response)
  | inr (b, e) ↦ rw (e, look_up) (look_up-dry cache ls to_get response)
]

module _ {T : Storage} where
  -- What getCache does to the state, and what it delivers if the run is not dry.
  pub record Fetched (s : Oram T) (ls : List ℕ) (dry_run : Bool) : Type 1 where
    pub response : List Block
    pub cache : List (ℕ × Bucket)
    pub runs : get_cache ls dry_run s ≡ ok response (record s { cache = cache })
    pub same : (l : ℕ) → through cache (T.view s.storage) l ≡ view s l
    pub cache_map : IsMap cache
    pub cache_valid : All (IsRequest T) cache
    pub delivers :
        (p : Block → Bool)
        → tally p response ≡ (if dry_run then 0 else tally p (gather (view s) ls))
    pub delivers_all : (P : Block → Type 0) → All (λ l. All P (view s l)) ls → All P response

  -- The second half, for the locations that the cache does not have.
  download-fetches :
      (s : Oram T) (dry_run : Bool) (to_get : List ℕ) (response : List Block)
      → IsCached s
      → All (λ l. l < T.capacity) to_get
      → download dry_run to_get response s
        ≡ ok
            (if dry_run then response else response ++ gather (T.view s.storage) to_get)
            (record s { cache = fill_all (T.view s.storage) to_get s.cache })
  unfolding download gather fill_all
  download-fetches s d [] response v h = nothing d
    where
      nothing : (d : Bool) → ok response s ≡ ok (if d then response else response ++ []) s
      nothing true = refl
      nothing false = ap (λ r. ok r s) (sym (append-nil response))
  download-fetches s d (l ∷ ls) response v h = rw (
    T.get-view s.storage (l ∷ ls) v.good h,
    fill_cache-gather d s.bucket_size (l ∷ ls) (T.view s.storage) response s.cache
        (omega (arith, v.same_buckets, v.some_blocks))
        (All-map _ _ (λ k q. (T.view-IsBucket s.storage k v.good q).0 ∙ sym v.same_buckets) (l ∷ ls)
          h),
  )

  -- If the cache is a map of good buckets before a good storage, and the storage has the locations
  -- asked for, then getCache does not throw; every location holds what it held, the cache stays a
  -- map of good buckets, and a dry run delivers nothing, any other run the blocks of the locations
  -- asked for, each as often as it stands there.
  pub get_cache-fetches :
      (s : Oram T) (ls : List ℕ) (dry_run : Bool)
      → IsCached s
      → All (λ l. l < T.capacity) ls
      → Fetched s ls dry_run
  unfolding get_cache view gather
  get_cache-fetches s ls d v h =
      let found = look_up d s.cache ls [] [] in
      let inside = look_up-All (λ l. l < T.capacity) d s.cache ls [] [] h tt in
      let missing = look_up-missing d s.cache ls [] [] tt in
      let behind : All (λ l. through s.cache (T.view s.storage) l ≡ T.view s.storage l) found.0 =
        All-map (λ l. lookup l s.cache ≡ none) _
          (λ l e. through-missing (T.view s.storage) l s.cache e) found.0 missing in
      record {
        response = if d then found.1 else found.1 ++ gather (T.view s.storage) found.0;
        cache = fill_all (T.view s.storage) found.0 s.cache;
        runs = download-fetches s d found.0 found.1 v inside;
        same = λ l. through-fill_all (T.view s.storage) found.0 s.cache l behind;
        cache_map = fill_all-IsMap (T.view s.storage) found.0 s.cache v.cache_map;
        cache_valid =
            fill_all-All (IsRequest T) (T.view s.storage) found.0 s.cache
              (All-map _ _ (λ l q. (q, T.view-IsBucket s.storage l v.good q)) found.0 inside)
              v.cache_valid;
        delivers = λ p. delivers_if d p;
        delivers_all = λ P a. delivers_all_if d P a;
      }
    where
      delivered :
          (p : Block → Bool)
          → tally p (
              (look_up false s.cache ls [] []).1
              ++ gather (T.view s.storage) (look_up false s.cache ls [] []).0)
            ≡ tally p (gather (through s.cache (T.view s.storage)) ls)
      delivered p =
          rw (tally-append p (look_up false s.cache ls [] []).1 _)
            (omega (arith, look_up-tally p s.cache (T.view s.storage) ls [] []))

      delivered_all :
          (P : Block → Type 0)
          → All (λ l. All P (through s.cache (T.view s.storage) l)) ls
          → All P (
              (look_up false s.cache ls [] []).1
              ++ gather (T.view s.storage) (look_up false s.cache ls [] []).0)
      delivered_all P a =
          let r = look_up-response P s.cache (T.view s.storage) ls [] [] a tt tt in
          All-append P _ _ r.0 (gather-All P (T.view s.storage) _ r.1)

      delivers_if :
          (d : Bool) (p : Block → Bool)
          → let found = look_up d s.cache ls [] [] in
            tally p (if d then found.1 else found.1 ++ gather (T.view s.storage) found.0)
            ≡ (if d then 0 else tally p (gather (through s.cache (T.view s.storage)) ls))
      delivers_if true p = ap (tally p) (look_up-dry s.cache ls [] [])
      delivers_if false p = delivered p

      delivers_all_if :
          (d : Bool) (P : Block → Type 0)
          → All (λ l. All P (through s.cache (T.view s.storage) l)) ls
          → let found = look_up d s.cache ls [] [] in
            All P (if d then found.1 else found.1 ++ gather (T.view s.storage) found.0)
      delivers_all_if true P a = subst (All P) (sym (look_up-dry s.cache ls [] [])) tt
      delivers_all_if false P a = delivered_all P a

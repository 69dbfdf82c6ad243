-- ===== src/Storage/Adapter/Reading.antt =====
-- get of path-oram/src/storage-adapter.cpp.
use path_oram_base.Common.{
  ℕ, ◌<◌, ◌≡◌, refl, sym, ap, subst, ◌∙◌, List, [], ◌∷◌, ◌++◌, map, arith, length, Option, none,
  some, ◌==◌, if◌then◌else◌, lt→leb, All, length-map,
}
use mathlib.Core.List.{append_assoc, append-nil}
use path_oram_base.Common.Effect.{ok, bind, within, for_each}
use path_oram_base.Encoding.{IsBytes}
use path_oram_base.Storage.Adapter.Batches.{get_raws-get_batch}
use path_oram_base.Storage.Adapter.Blocks.{length-pad, pad-IsByte}
use path_oram_base.Storage.Adapter.Seal.{
  IsSettings, sealed, opened, Good, opened-sealed, open_raws-sealed,
}
use path_oram_base.Storage.Adapter.{
  Settings, RawStore, Adapter, get_batch, open_raws, check_capacity, get,
}
use path_oram_base.Storage.{pad_block, gather, IsBlock, IsBucket}
use path_oram_base.Types.{Bytes, Block, Bucket}
use path_oram_base.Utility.{Suite, IsCipher}

-- What a class of adapters owes: below the capacity, a location keeps the `size` bytes last set.
pub record IsRawStore (R : RawStore) (capacity size : ℕ) : Type 1 where
  pub IsGood : R.State → Type 0
  pub view : R.State → ℕ → Bytes
  pub get-view :
      (s : R.State) (l : ℕ) → IsGood s → l < capacity → R.get_internal l s ≡ ok (view s l) s
  pub set-view :
      (s : R.State) (l : ℕ) (raw : Bytes)
      → IsGood s
      → l < capacity
      → length raw ≡ size
      → (t : R.State) × (R.set_internal l raw s ≡ ok tt t)
        × IsGood t
        × ((j : ℕ) → j < capacity → view t j ≡ (if j == l then raw else view s j))

-- What was written last, or what was there.
abbrev pub newest : Option Bytes → Bytes → Bytes
newest none old = old
newest (some raw) old = raw

pad-IsBucket : (n z : ℕ) (b : Bucket) → IsBucket n z b → IsBucket n z (map (pad_block n) b)
unfolding pad_block
pad-IsBucket n z b h = (length-map (pad_block n) b ∙ h.0, go b h.1)
  where
    go : (b : Bucket) → All (IsBlock n) b → All (IsBlock n) (map (pad_block n) b)
    go [] k = tt
    go (e ∷ es) k =
        ((k.0.0, omega (arith, length-pad n e.1 k.0.1), pad-IsByte n e.1 k.0.2), go es k.1)

module _ {R : RawStore} (u : Suite) (c : Settings) (law : IsCipher u.cipher) (v : IsSettings c)
    (r : IsRawStore R c.capacity c.block_size) where
  -- Bytes that come from sealing a good bucket.
  abbrev pub IsSealed : Bytes → Type 0
  IsSealed raw = (iv : Bytes) × (b : Bucket) × IsBytes 16 iv × Good u c b × (raw ≡ sealed u c iv b)

  -- Every location has such bytes.
  abbrev pub IsFilled : Adapter R → Type 0
  IsFilled s = r.IsGood s.raw × ((l : ℕ) → l < c.capacity → IsSealed (r.view s.raw l))

  abbrev pub bucket_view : Adapter R → ℕ → Bucket
  bucket_view s l = opened u c (r.view s.raw l)

  pub opened-IsBucket : (raw : Bytes) → IsSealed raw → Good u c (opened u c raw)
  opened-IsBucket raw (iv, b, iv_good, good, e) =
      subst (Good u c) (sym (ap (opened u c) e ∙ opened-sealed u c law v iv b iv_good good))
        (pad-IsBucket c.user_block_size c.bucket_size b good)

  check_all :
      (ls : List ℕ) (s : Adapter R)
      → All (λ l. l < c.capacity) ls
      → for_each (check_capacity u c) ls s ≡ ok tt s
  unfolding for_each check_capacity
  check_all [] s h = refl
  check_all (l ∷ ls) s h =
      rw (for_each, check_capacity, lt→leb l c.capacity h.0, bind) (check_all ls s h.1)

  get_batch-view :
      (ls : List ℕ) (raws : List Bytes) (s : Adapter R)
      → r.IsGood s.raw
      → All (λ l. l < c.capacity) ls
      → get_batch u c ls raws s ≡ ok (raws ++ map (r.view s.raw) ls) s
  unfolding get_batch
  get_batch-view [] raws s g h = ap (λ t. ok t s) (sym (append-nil raws))
  get_batch-view (l ∷ ls) raws s g h =
      rw (r.get-view s.raw l g h.0, within, bind)
        (get_batch-view ls (raws ++ r.view s.raw l ∷ []) s g h.1
          ∙ ap (λ t. ok t s) (append_assoc raws (r.view s.raw l ∷ []) (map (r.view s.raw) ls)))

  open_raws-view :
      (ls : List ℕ) (response : List Block) (s : Adapter R)
      → IsFilled s
      → All (λ l. l < c.capacity) ls
      → open_raws u c (map (r.view s.raw) ls) response s
        ≡ ok (response ++ gather (bucket_view s) ls) s
  unfolding open_raws gather
  open_raws-view [] response s g h = ap (λ t. ok t s) (sym (append-nil response))
  open_raws-view (l ∷ ls) response s g h =
      let (iv, b, iv_good, good, e) = g.1 l h.0 in
      ap (λ t. open_raws u c (t ∷ map (r.view s.raw) ls) response s) e
      ∙ open_raws-sealed u c law v iv b iv_good good (map (r.view s.raw) ls) response s
      ∙ ap (λ t. open_raws u c (map (r.view s.raw) ls) (response ++ t) s)
          (sym (ap (opened u c) e ∙ opened-sealed u c law v iv b iv_good good))
      ∙ open_raws-view ls (response ++ bucket_view s l) s g h.1
      ∙ ap (λ t. ok t s) (append_assoc response (bucket_view s l) (gather (bucket_view s) ls))

  -- Let the cipher undo itself, the settings be as the constructor leaves them, the locations keep
  -- what is last written to them, and every location have a sealed bucket. Then a get of locations
  -- below the capacity does not throw, changes nothing and delivers the buckets of the locations,
  -- one after the other.
  pub get-gather :
      (s : Adapter R) (ls : List ℕ)
      → IsFilled s
      → All (λ l. l < c.capacity) ls
      → get u c ls s ≡ ok (gather (bucket_view s) ls) s
  unfolding get
  get-gather s ls g h =
      rw (check_all ls s h, bind, get_raws-get_batch u c ls s, get_batch-view ls [] s g.0 h)
        (open_raws-view ls [] s g h)

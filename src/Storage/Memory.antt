-- ===== src/Storage/Memory.antt =====
-- InMemoryStorageAdapter of path-oram/src/storage-adapter.cpp. The array of arrays is a function
-- from locations.
use path_oram_base.Common.{
  ◌+◌, ◌^◌, ℕ, ◌*◌, ◌%◌, ◌<◌, All, All-map, ◌≤◌, ◌≡◌, refl, ap, ◌∙◌, false, inl, inr, List, [], ◌∷◌,
  ◌++◌, arith, length, drop, ◌==◌, if◌then◌else◌, Bool-cases, length-drop,
}
use mathlib.Core.List.{append-nil}
use path_oram_base.Common.Effect.{M, Outcome, ok, err, bind}
use path_oram_base.Encoding.{IsByte}
use path_oram_base.Random.{Words}
use path_oram_base.Storage.Adapter.{
  Settings, RawStore, Adapter, new_settings, fill_with_zeroes, get,
}
use path_oram_base.Storage.Adapter.Reading.{IsRawStore, bucket_view, get-gather, opened-IsBucket}
use path_oram_base.Storage.Adapter.Meets.{fill_with_zeroes-dummies}
use path_oram_base.Storage.Adapter.Settled.{
  Settled, small, uneven, empty, settled, new_settings-Settled,
}
use path_oram_base.Storage.{gather, gather-All, length-gather}
use path_oram_base.Types.{Bytes, Block, is_real}
use path_oram_base.Utility.{Suite, IsCipher}

abbrev pub Arrays : Type 0
Arrays = ℕ → Bytes

-- getInternal, into an empty response.
unfoldable pub get_internal : ℕ → M Arrays Bytes
get_internal location blocks = ok (blocks location ++ []) blocks

-- setInternal copies over the beginning of the array.
unfoldable pub set_internal : ℕ → Bytes → M Arrays (Unit {0})
set_internal location raw blocks =
    ok tt (λ l. if l == location then raw ++ drop (length raw) (blocks location) else blocks l)

abbrev pub memory_store : RawStore
memory_store = record { State = Arrays; get_internal = get_internal; set_internal = set_internal }

-- The constructor, where `fresh size i` is what `new uchar[size]` holds the i-th time. An exception
-- leaves no adapter, and the random source where it was.
unfoldable pub finish :
    Settings → Outcome (Adapter memory_store) (Unit {0}) → Outcome Words (Settings × Arrays)
finish c (ok _ s) = ok (c, s.raw) s.words
finish c (err e s) = err e s.words

unfoldable pub new_in_memory :
    Suite → (ℕ → ℕ → Bytes) → ℕ → ℕ → Bytes → ℕ → ℕ → M Words (Settings × Arrays)
unfolding finish
new_in_memory u fresh capacity user_block_size key z batch_limit w =
    bind (new_settings capacity user_block_size key z batch_limit w)
      (λ c w'. finish c (fill_with_zeroes u c (record { raw = fresh c.block_size; words = w' })))

-- An array keeps its size, so that writing a whole one replaces it.
unfoldable pub memory_store-IsRawStore : (capacity size : ℕ) → IsRawStore memory_store capacity size
unfolding get_internal set_internal
memory_store-IsRawStore capacity size = record {
  IsGood = λ s. (l : ℕ) → l < capacity → length (s l) ≡ size;
  view = λ s l. s l;
  get-view = λ s l g h. ap (λ t. ok t s) (append-nil (s l));
  set-view = λ s l raw g h k. (
    (λ j. if j == l then raw ++ drop (length raw) (s l) else s j),
    refl,
    (λ j q. kept s l raw j (g l h) (g j q) k),
    (λ j q. replaced s l raw j (g l h) k),
  );
}
  where
    no_more : (xs : Bytes) → length xs ≡ 0 → xs ≡ []
    no_more [] h = refl
    no_more (x ∷ xs) h = absurd (omega arith)

    whole :
        (old raw : Bytes)
        → length old ≡ size
        → length raw ≡ size
        → raw ++ drop (length raw) old ≡ raw
    whole old raw h k =
        ap (λ t. raw ++ t)
          (no_more (drop (length raw) old) (omega (arith, length-drop (length raw) old)))
        ∙ append-nil raw

    replaced :
        (s : Arrays) (l : ℕ) (raw : Bytes) (j : ℕ)
        → length (s l) ≡ size
        → length raw ≡ size
        → (if j == l then raw ++ drop (length raw) (s l) else s j) ≡ (if j == l then raw else s j)
    replaced s l raw j h k = ap (λ t. if j == l then t else s j) (whole (s l) raw h k)

    kept :
        (s : Arrays) (l : ℕ) (raw : Bytes) (j : ℕ)
        → length (s l) ≡ size
        → length (s j) ≡ size
        → length raw ≡ size
        → length (if j == l then raw ++ drop (length raw) (s l) else s j) ≡ size
    kept s l raw j h g k = elim (Bool-cases (j == l)) [
      | inl e ↦ rw e (ap length (whole (s l) raw h k) ∙ k)
      | inr e ↦ rw e g
    ]

-- If the cipher undoes itself, the arrays that are allocated have the size asked for, the key has
-- bytes, and the block size is a multiple of 16 and not below 32 and buckets have some room, then
-- the constructor of the adapter in memory does not throw, and a get of any locations below the
-- capacity then changes nothing and delivers as many blocks as these buckets have, all of them
-- dummies.
pub new_in_memory-dummies :
    (u : Suite) (fresh : ℕ → ℕ → Bytes) (capacity n : ℕ) (key : Bytes) (z batch_limit : ℕ)
    (w : Words)
    → IsCipher u.cipher
    → ((size i : ℕ) → length (fresh size i) ≡ size)
    → All IsByte key
    → 32 ≤ n
    → n % 16 ≡ 0
    → 0 < z
    → (n + 16) * z + 16 < 2 ^ 64
    → (c : Settings) × (blocks : Arrays) × (w' : Words) × (new_in_memory u fresh capacity n key z
          batch_limit w
        ≡ ok (c, blocks) w')
      × ((ls : List ℕ)
          → All (λ l. l < capacity) ls
          → (es : List Block) × (get {R = memory_store} u c ls (record { raw = blocks; words = w' })
              ≡ ok es (record { raw = blocks; words = w' }))
            × (length es ≡ length ls * z)
            × All (λ e. is_real e ≡ false) es)
unfolding new_in_memory memory_store-IsRawStore finish
new_in_memory-dummies u fresh capacity n key z batch_limit w law sized bytes long whole some_blocks
      fits =
    by_cases (new_settings-Settled capacity n key z batch_limit bytes fits w)
  where
    by_cases :
        {o : Outcome Words Settings}
        → Settled capacity n key z batch_limit bytes fits w o
        → (c : Settings) × (blocks : Arrays) × (w' : Words) × (bind o (λ c w'.
              finish c (fill_with_zeroes u c (record { raw = fresh c.block_size; words = w' })))
            ≡ ok (c, blocks) w')
          × ((ls : List ℕ)
              → All (λ l. l < capacity) ls
              → (es : List Block) × (get {R = memory_store} u c ls
                    (record { raw = blocks; words = w' })
                  ≡ ok es (record { raw = blocks; words = w' }))
                × (length es ≡ length ls * z)
                × All (λ e. is_real e ≡ false) es)
    by_cases (small w' q) = absurd (omega arith)
    by_cases (uneven w' p q) = absurd (omega arith)
    by_cases (empty w' p q r) = absurd (omega arith)
    by_cases (settled c w' v same_capacity same_size same_buckets same_limit same_key) =
        let r = memory_store-IsRawStore c.capacity c.block_size in
        let (t, run, filled, dummies) =
          fill_with_zeroes-dummies u c law v r (record { raw = fresh c.block_size; words = w' })
            (λ l h. sized c.block_size l) in
        (
          c,
          t.raw,
          t.words,
          rw (bind, run) refl,
          λ ls h.
              let below : All (λ l. l < c.capacity) ls = rw same_capacity h in
              (
                gather (bucket_view u c law v r t) ls,
                get-gather u c law v r t ls filled below,
                length-gather (bucket_view u c law v r t) z ls (
                    All-map _ _
                      (λ l h.
                        (opened-IsBucket u c law v r (r.view t.raw l) (filled.1 l h)).0
                        ∙ same_buckets)
                      ls below),
                gather-All (λ e. is_real e ≡ false) (bucket_view u c law v r t) ls
                    (All-map _ _ dummies ls below),
              ),
        )

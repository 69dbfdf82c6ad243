-- ===== src/Storage/Adapter/Meets.antt =====
-- AbsStorageAdapter of path-oram/src/storage-adapter.cpp does what the protocol asks of a storage.
use native.Mathlib.Decide.{ℕ_discrete}
use path_oram_base.Common.{
  ℕ, ◌<◌, ◌≡◌, refl, sym, ap, subst, ◌∙◌, false, List, [], ◌∷◌, map, arith, length, some, ◌==◌,
  if◌then◌else◌, All, ne→==, ==_refl, to_nat, replicate,
}
use path_oram_base.Common.Assoc.{lookup, count, IsMap, lookup-absent}
use path_oram_base.Common.Effect.{ok, bind, within, for_each}
use path_oram_base.Storage.Adapter.Batches.{set_raws-set_batch}
use path_oram_base.Storage.Adapter.Reading.{
  IsRawStore, newest, IsSealed, IsFilled, bucket_view, opened-IsBucket, get-gather,
}
use path_oram_base.Storage.Adapter.Sealing.{
  Sealing, seal_requests-runs, Sealing-count, Sealing-valid, Found, neither, both, Found-Sealing,
}
use path_oram_base.Storage.Adapter.Zeroes.{
  zero_requests-IsMap, zero_requests-All, lookup-zero_requests, padded_dummies,
}
use path_oram_base.Storage.Adapter.Seal.{IsSettings, opened, Good, opened-sealed}
use path_oram_base.Storage.Adapter.{
  Settings, RawStore, Adapter, set_batch, get, set, fill_with_zeroes, zero_requests,
}
use path_oram_base.Storage.{Storage, pad_block, written}
use path_oram_base.Types.{Bytes, Bucket, empty_id, is_real}
use path_oram_base.Utility.{Suite, IsCipher}

module _ {R : RawStore} (u : Suite) (c : Settings) (law : IsCipher u.cipher) (v : IsSettings c)
    (r : IsRawStore R c.capacity c.block_size) where
  set_batch-view :
      (ws : List (ℕ × Bytes)) (s : Adapter R)
      → r.IsGood s.raw
      → IsMap ws
      → All (λ w. (w.0 < c.capacity) × (length w.1 ≡ c.block_size)) ws
      → (t : R.State) × (set_batch u c ws s ≡ ok tt (record s { raw = t }))
        × r.IsGood t
        × ((j : ℕ) → j < c.capacity → r.view t j ≡ newest (lookup j ws) (r.view s.raw j))
  unfolding set_batch for_each lookup
  set_batch-view [] s g m h = (s.raw, refl, g, λ j k. refl)
  set_batch-view ((l, raw) ∷ ws) s g m h =
      let (t1, run, g1, view1) = r.set-view s.raw l raw g h.0.0 h.0.1 in
      let (t, rest, g2, view2) =
        set_batch-view ws (record s { raw = t1 }) g1 (λ k. omega (arith, m k)) h.1 in
      (
        t,
        rw (for_each, run, within, bind) rest,
        g2,
        λ j k. view2 j k ∙ later j (r.view t1 j) (view1 j k),
      )
    where
      later :
          (j : ℕ) (old : Bytes)
          → old ≡ (if j == l then raw else r.view s.raw j)
          → newest (lookup j ws) old
            ≡ newest (if l == j then some raw else lookup j ws) (r.view s.raw j)
      later j old e = elim (ℕ_discrete l j) [
        | no n ↦
            rw (ne→== l j n)
              (ap (newest (lookup j ws)) (e ∙ (rw (ne→== j l (λ q. n (sym q))) refl)))
        | yes q ↦
            let once : count l ws ≡ 0 = omega (arith, m l, ap to_nat (==_refl l)) in
            rw (← q, ==_refl l, lookup-absent l ws once) (e ∙ (rw (← q, ==_refl l) refl))
      ]

  -- Writing good buckets to different locations below the capacity does not throw.
  pub set-runs :
      (s : Adapter R) (rs : List (ℕ × Bucket))
      → r.IsGood s.raw
      → IsMap rs
      → All (λ q. (q.0 < c.capacity) × Good u c q.1) rs
      → (t : Adapter R) × (ws : List (ℕ × Bytes)) × (set u c rs s ≡ ok tt t)
        × r.IsGood t.raw
        × Sealing u c law v rs ws
        × ((l : ℕ) → l < c.capacity → r.view t.raw l ≡ newest (lookup l ws) (r.view s.raw l))
  unfolding set
  set-runs s rs g m h =
      let (ws, w, rel, sealed_run) = seal_requests-runs u c law v rs [] s h in
      let (t, run, good, view) =
        set_batch-view ws (record s { words = w }) g
          (λ j. omega (arith, m j, Sealing-count u c law v rs ws j rel))
          (Sealing-valid u c law v rs ws rel h) in
      (
        record { raw = t; words = w },
        ws,
        rw (sealed_run, bind, set_raws-set_batch u c ws (record s { words = w })) run,
        good,
        rel,
        view,
      )

  -- Let the cipher undo itself, the settings be as the constructor leaves them, the locations keep
  -- what is last written to them, and every location have a sealed bucket. Then a set of good
  -- buckets at different locations below the capacity does not throw, every location again has a
  -- sealed bucket, and the adapter then shows the new buckets, padded, at the locations set, and
  -- elsewhere what it showed.
  pub set-written :
      (s : Adapter R) (rs : List (ℕ × Bucket))
      → IsFilled u c law v r s
      → IsMap rs
      → All (λ q. (q.0 < c.capacity) × Good u c q.1) rs
      → (t : Adapter R) × (set u c rs s ≡ ok tt t)
        × IsFilled u c law v r t
        × ((l : ℕ)
            → l < c.capacity
            → bucket_view u c law v r t l
              ≡ written c.user_block_size (lookup l rs) (bucket_view u c law v r s l))
  set-written s rs g m h =
      let (t, ws, run, good, rel, view) = set-runs s rs g.0 m h in
      (
        t,
        run,
        (
          good,
          λ l k.
              filled l (r.view t.raw l) (view l k) (g.1 l k)
                (Found-Sealing u c law v rs ws l rel h),
        ),
        λ l k. viewed l (r.view t.raw l) (view l k) (Found-Sealing u c law v rs ws l rel h),
      )
    where
      filled :
          {ws : List (ℕ × Bytes)} (l : ℕ) (raw : Bytes)
          → raw ≡ newest (lookup l ws) (r.view s.raw l)
          → IsSealed u c law v r (r.view s.raw l)
          → Found u c law v l rs ws
          → IsSealed u c law v r raw
      filled l raw e old (neither x y) = subst (IsSealed u c law v r) (sym (e ∙ (rw y refl))) old
      filled l raw e old (both iv b iv_good good x y) = (iv, b, iv_good, good, e ∙ (rw y refl))

      viewed :
          {ws : List (ℕ × Bytes)} (l : ℕ) (raw : Bytes)
          → raw ≡ newest (lookup l ws) (r.view s.raw l)
          → Found u c law v l rs ws
          → opened u c raw ≡ written c.user_block_size (lookup l rs) (bucket_view u c law v r s l)
      viewed l raw e (neither x y) = rw x (ap (opened u c) (e ∙ (rw y refl)))
      viewed l raw e (both iv b iv_good good x y) =
          rw x (ap (opened u c) (e ∙ (rw y refl)) ∙ opened-sealed u c law v iv b iv_good good)

  -- If the cipher undoes itself, the settings are as the constructor leaves them and the locations
  -- keep what is last written to them, then fillWithZeroes does not throw, and leaves a sealed
  -- bucket of dummy blocks at every location below the capacity, whatever was there before.
  pub fill_with_zeroes-dummies :
      (s : Adapter R)
      → r.IsGood s.raw
      → (t : Adapter R) × (fill_with_zeroes u c s ≡ ok tt t)
        × IsFilled u c law v r t
        × ((l : ℕ) → l < c.capacity → All (λ e. is_real e ≡ false) (bucket_view u c law v r t l))
  unfolding fill_with_zeroes
  fill_with_zeroes-dummies s g =
      let (t, ws, run, good, rel, view) =
        set-runs s (zero_requests c.bucket_size c.capacity 0) g
          (zero_requests-IsMap c.bucket_size c.capacity 0)
          (zero_requests-All c.bucket_size c.user_block_size c.capacity c.capacity 0
            (omega arith)) in
      (
        t,
        run,
        (
          good,
          λ l k. filled l k (r.view t.raw l) (view l k) (
              Found-Sealing u c law v _ ws l rel (
                zero_requests-All c.bucket_size c.user_block_size c.capacity c.capacity 0
                  (omega arith))),
        ),
        λ l k. viewed l k (r.view t.raw l) (view l k) (
            Found-Sealing u c law v _ ws l rel (
              zero_requests-All c.bucket_size c.user_block_size c.capacity c.capacity 0
                (omega arith))),
      )
    where
      filled :
          {ws : List (ℕ × Bytes)} (l : ℕ)
          → l < c.capacity
          → (raw : Bytes) → raw ≡ newest (lookup l ws) (r.view s.raw l)
          → Found u c law v l (zero_requests c.bucket_size c.capacity 0) ws
          → IsSealed u c law v r raw
      filled l k raw e (neither x y) =
          absurd
            (cc (x, lookup-zero_requests c.bucket_size c.capacity 0 l (omega arith) (omega arith)))
      filled l k raw e (both iv b iv_good good x y) = (iv, b, iv_good, good, e ∙ (rw y refl))

      viewed :
          {ws : List (ℕ × Bytes)} (l : ℕ)
          → l < c.capacity
          → (raw : Bytes) → raw ≡ newest (lookup l ws) (r.view s.raw l)
          → Found u c law v l (zero_requests c.bucket_size c.capacity 0) ws
          → All (λ e. is_real e ≡ false) (opened u c raw)
      viewed l k raw e (neither x y) =
          absurd
            (cc (x, lookup-zero_requests c.bucket_size c.capacity 0 l (omega arith) (omega arith)))
      viewed l k raw e (both iv b iv_good good x y) =
          let dummies : replicate c.bucket_size (empty_id, []) ≡ b = ground (
            arith,
            lookup-zero_requests c.bucket_size c.capacity 0 l (omega arith) (omega arith),
          ) in
          subst (All (λ e. is_real e ≡ false))
            (sym (ap (opened u c) (e ∙ (rw y refl)) ∙ opened-sealed u c law v iv b iv_good good))
            (subst (λ t. All (λ e. is_real e ≡ false) (map (pad_block c.user_block_size) t)) dummies
              (padded_dummies c.user_block_size c.bucket_size))

  -- The adapter is a storage as the protocol wants it.
  abbrev pub adapter_storage : Storage
  adapter_storage = record {
    State = Adapter R;
    capacity = c.capacity;
    block_size = c.user_block_size;
    bucket_size = c.bucket_size;
    get = get u c;
    set = set u c;
    fill_with_zeroes = fill_with_zeroes u c;
    IsReady = λ s. r.IsGood s.raw;
    IsGood = IsFilled u c law v r;
    view = bucket_view u c law v r;
    view-IsBucket = λ s l g h. opened-IsBucket u c law v r (r.view s.raw l) (g.1 l h);
    get-view = get-gather u c law v r;
    set-view = set-written;
    fill_with_zeroes-view = fill_with_zeroes-dummies;
  }

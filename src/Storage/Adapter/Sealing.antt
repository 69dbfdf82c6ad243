-- ===== src/Storage/Adapter/Sealing.antt =====
-- The first loop of set in path-oram/src/storage-adapter.cpp, over all the requests.
use path_oram_base.Common.{
  ℕ, ◌<◌, ◌≡◌, refl, sym, ap, ◌∙◌, true, false, inl, inr, List, [], ◌∷◌, ◌++◌, arith, length, none,
  some, ◌==◌, All, Bool-cases,
}
use mathlib.Core.List.{append_assoc, append-nil}
use path_oram_base.Common.Assoc.{lookup, count}
use path_oram_base.Common.Effect.{ok, bind}
use path_oram_base.Encoding.{IsBytes}
use path_oram_base.Random.{Words}
use path_oram_base.Storage.Adapter.Seal.{IsSettings, sealed, Good, length-sealed, seal_request-runs}
use path_oram_base.Storage.Adapter.{Settings, RawStore, Adapter, seal_requests}
use path_oram_base.Types.{Bytes, Bucket}
use path_oram_base.Utility.{Suite, IsCipher}

module _ (u : Suite) (c : Settings) (law : IsCipher u.cipher) (v : IsSettings c) where
  -- The requests and what they are sealed to.
  abbrev pub Sealing : List (ℕ × Bucket) → List (ℕ × Bytes) → Type 0
  Sealing [] [] = Unit
  Sealing [] (w ∷ ws) = ⊥
  Sealing (q ∷ rs) [] = ⊥
  Sealing (q ∷ rs) (w ∷ ws) =
      (q.0 ≡ w.0) × ((iv : Bytes) × IsBytes 16 iv × (w.1 ≡ sealed u c iv q.1)) × Sealing rs ws

  pub seal_requests-runs :
      {R : RawStore} (rs : List (ℕ × Bucket)) (writes : List (ℕ × Bytes)) (s : Adapter R)
      → All (λ q. (q.0 < c.capacity) × Good u c q.1) rs
      → (ws : List (ℕ × Bytes)) × (w : Words) × Sealing rs ws
        × (seal_requests u c rs writes s ≡ ok (writes ++ ws) (record s { words = w }))
  unfolding seal_requests
  seal_requests-runs [] writes s h = ([], s.words, tt, ap (λ t. ok t s) (sym (append-nil writes)))
  seal_requests-runs ((l, b) ∷ rs) writes s h =
      let (iv, w, iv_good, run) = seal_request-runs u c v l b s h.0.0 h.0.1 in
      let (ws, w', rel, rest) =
        seal_requests-runs rs (writes ++ (l, sealed u c iv b) ∷ []) (record s { words = w }) h.1 in
      (
        (l, sealed u c iv b) ∷ ws,
        w',
        (refl, (iv, iv_good, refl), rel),
        rw (run, bind) (rest ∙ ap (λ t. ok t (record s { words = w' })) (append_assoc writes _ ws)),
      )

  pub Sealing-count :
      (rs : List (ℕ × Bucket)) (ws : List (ℕ × Bytes)) (j : ℕ)
      → Sealing rs ws
      → count j ws ≡ count j rs
  Sealing-count [] [] j h = refl
  Sealing-count [] (w ∷ ws) j h = absurd h
  Sealing-count (q ∷ rs) [] j h = absurd h
  Sealing-count (q ∷ rs) (w ∷ ws) j h = rw h.0 (omega (arith, Sealing-count rs ws j h.2))

  pub Sealing-valid :
      (rs : List (ℕ × Bucket)) (ws : List (ℕ × Bytes))
      → Sealing rs ws
      → All (λ q. (q.0 < c.capacity) × Good u c q.1) rs
      → All (λ w. (w.0 < c.capacity) × (length w.1 ≡ c.block_size)) ws
  Sealing-valid [] [] h k = tt
  Sealing-valid [] (w ∷ ws) h k = absurd h
  Sealing-valid (q ∷ rs) [] h k = absurd h
  Sealing-valid (q ∷ rs) (w ∷ ws) h k =
      let (iv, iv_good, e) = h.1 in
      (
        (omega (arith, h.0, k.0.0), ap length e ∙ length-sealed u c law v iv q.1 iv_good k.0.1),
        Sealing-valid rs ws h.2 k.1,
      )

  -- What is found under a key before and after sealing.
  pub data Found (j : ℕ) (rs : List (ℕ × Bucket)) (ws : List (ℕ × Bytes)) : Type 0 where
    neither : lookup j rs ≡ none → lookup j ws ≡ none → Found j rs ws
    both :
        (iv : Bytes) (b : Bucket)
        → IsBytes 16 iv
        → Good u c b
        → lookup j rs ≡ some b
        → lookup j ws ≡ some (sealed u c iv b)
        → Found j rs ws

  pub Found-Sealing :
      (rs : List (ℕ × Bucket)) (ws : List (ℕ × Bytes)) (j : ℕ)
      → Sealing rs ws
      → All (λ q. (q.0 < c.capacity) × Good u c q.1) rs
      → Found j rs ws
  unfolding lookup
  Found-Sealing [] [] j h k = neither refl refl
  Found-Sealing [] (w ∷ ws) j h k = absurd h
  Found-Sealing (q ∷ rs) [] j h k = absurd h
  Found-Sealing (q ∷ rs) (w ∷ ws) j h k = elim (Bool-cases (q.0 == j)) [
    | inl hit ↦
        let (iv, iv_good, e) = h.1 in
        let hit' : (w.0 == j) ≡ true = rw (← h.0) hit in
        both iv q.1 iv_good k.0.1 (rw (lookup, hit) refl) (rw (lookup, hit') (ap some e))
    | inr miss ↦
        let miss' : (w.0 == j) ≡ false = rw (← h.0) miss in
        elim (Found-Sealing rs ws j h.2 k.1) [
          | neither x y ↦ neither (rw (lookup, miss) x) (rw (lookup, miss') y)
          | both iv b g good x y ↦ both iv b g good (rw (lookup, miss) x) (rw (lookup, miss') y)
        ]
  ]

-- ===== src/Storage/Adapter/Batches.antt =====
-- Batches in path-oram/src/storage-adapter.cpp: cutting the requests into batches changes nothing
-- that an adapter does.
use path_oram_base.Common.{
  ℕ, zero, suc, ◌<◌, ◌≤◌, ◌≡◌, refl, sym, ap, ◌∙◌, inl, inr, List, [], ◌∷◌, ◌++◌, arith, length,
  take, drop, length-drop, append-take-drop, Bool-cases, ◌==◌, leb, ◌||◌,
}
use path_oram_base.Common.Effect.{bind, bind-congr, bind_assoc, for_each, for_each-append}
use path_oram_base.Storage.Adapter.{
  Settings, RawStore, Adapter, get_batch, get_batches, get_raws, set_batch, set_batches, set_raws,
  on_raw,
}
use path_oram_base.Types.{Bytes}
use path_oram_base.Utility.{Suite}

module _ {R : RawStore} (u : Suite) (c : Settings) where
  get_batch-append :
      (xs ys : List ℕ) (raws : List Bytes) (s : Adapter R)
      → get_batch u c (xs ++ ys) raws s ≡ bind (get_batch u c xs raws s) (get_batch u c ys)
  unfolding get_batch
  get_batch-append [] ys raws s = refl
  get_batch-append (x ∷ xs) ys raws s =
      bind-congr (on_raw u c (R.get_internal x) s) _ _
        (λ raw t. get_batch-append xs ys (raws ++ raw ∷ []) t)
      ∙ sym (
          bind_assoc (on_raw u c (R.get_internal x) s) (λ raw. get_batch u c xs (raws ++ raw ∷ []))
            (get_batch u c ys))

  get_batches_lem :
      (fuel : ℕ) (ls : List ℕ) (raws : List Bytes) (s : Adapter R)
      → 0 < c.batch_limit
      → length ls ≤ fuel
      → get_batches u c fuel ls raws s ≡ get_batch u c ls raws s
  unfolding get_batches get_batch
  get_batches_lem zero [] raws s h k = refl
  get_batches_lem zero (l ∷ ls) raws s h k = absurd (omega arith)
  get_batches_lem (suc fuel) [] raws s h k = refl
  get_batches_lem (suc fuel) (l ∷ ls) raws s h k =
      bind-congr (get_batch u c (take c.batch_limit (l ∷ ls)) raws s) _ _ (λ raws' t.
        get_batches_lem fuel (drop c.batch_limit (l ∷ ls)) raws' t h
          (omega (arith, length-drop c.batch_limit (l ∷ ls))))
      ∙ sym (get_batch-append (take c.batch_limit (l ∷ ls)) (drop c.batch_limit (l ∷ ls)) raws s)
      ∙ ap (λ t. get_batch u c t raws s) (append-take-drop c.batch_limit (l ∷ ls))

  -- Reading in batches is reading one location after the other.
  pub get_raws-get_batch : (ls : List ℕ) (s : Adapter R) → get_raws u c ls s ≡ get_batch u c ls [] s
  unfolding get_raws
  get_raws-get_batch ls s =
      elim (Bool-cases (c.batch_limit == 0 || leb (length ls) c.batch_limit)) [
        | inl e ↦ rw e refl
        | inr e ↦ rw e (get_batches_lem (length ls) ls [] s (ground arith) (omega arith))
      ]

  set_batches_lem :
      (fuel : ℕ) (ws : List (ℕ × Bytes)) (s : Adapter R)
      → 0 < c.batch_limit
      → length ws ≤ fuel
      → set_batches u c fuel ws s ≡ set_batch u c ws s
  unfolding set_batches set_batch for_each
  set_batches_lem zero [] s h k = refl
  set_batches_lem zero (l ∷ ls) s h k = absurd (omega arith)
  set_batches_lem (suc fuel) [] s h k = refl
  set_batches_lem (suc fuel) (w ∷ ws) s h k =
      bind-congr (set_batch u c (take c.batch_limit (w ∷ ws)) s) _ _ (λ _ t.
        set_batches_lem fuel (drop c.batch_limit (w ∷ ws)) t h
          (omega (arith, length-drop c.batch_limit (w ∷ ws))))
      ∙ sym (for_each-append _ (take c.batch_limit (w ∷ ws)) (drop c.batch_limit (w ∷ ws)) s)
      ∙ ap (λ t. set_batch u c t s) (append-take-drop c.batch_limit (w ∷ ws))

  -- Writing in batches is writing one request after the other.
  pub set_raws-set_batch :
      (ws : List (ℕ × Bytes)) (s : Adapter R) → set_raws u c ws s ≡ set_batch u c ws s
  unfolding set_raws
  set_raws-set_batch ws s =
      elim (Bool-cases (c.batch_limit == 0 || leb (length ws) c.batch_limit)) [
        | inl e ↦ rw e refl
        | inr e ↦ rw e (set_batches_lem (length ws) ws s (ground arith) (omega arith))
      ]

  -- For every batch limit, reading locations in batches is reading them one after the other, and
  -- writing requests in batches is writing them one after the other, errors included.
  pub batch_limit_lem :
      (ls : List ℕ) (ws : List (ℕ × Bytes)) (s : Adapter R)
      → (get_raws u c ls s ≡ get_batch u c ls [] s) × (set_raws u c ws s ≡ set_batch u c ws s)
  batch_limit_lem ls ws s = (get_raws-get_batch ls s, set_raws-set_batch ws s)

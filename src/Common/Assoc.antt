-- ===== src/Common/Assoc.antt =====
-- Maps keyed by numbers, as lists of pairs: what std::unordered_map is used for here. `insert`
-- leaves a key that is present alone and `assign` overwrites it, as the C++ members do.
use Prim.Native.Nat.{ℕ, ◌+◌, ◌≤◌}
use mathlib.Core.Path.{◌≡◌, refl}
use mathlib.Core.Logic.{◌≢◌}
use mathlib.Core.Bool.{Bool, false}
use mathlib.Core.List.{List, [], ◌∷◌}
use mathlib.Core.Option.{Option, none, some}
use native.Mathlib.Omega.{arith}
use path_oram_base.Common.Tests.{◌==◌, if◌then◌else◌, Bool-cases, ==_iff}
use path_oram_base.Common.Lists.{All}
use mathlib.Core.Logic.{inl, inr}
use mathlib.Core.Path.{subst₂}
use path_oram_base.Common.Tally.{tally, to_nat}

abbrev pub has_key {ℓ} : {A : Type ℓ} → ℕ → ℕ × A → Bool
has_key k e = e.0 == k

module _ {ℓ} {A : Type ℓ} where
  -- How often a key occurs.
  abbrev pub count : ℕ → List (ℕ × A) → ℕ
  count k = tally (has_key k)

  -- Every key occurs at most once.
  abbrev pub IsMap : List (ℕ × A) → Type 0
  IsMap m = (k : ℕ) → count k m ≤ 1

  unfoldable pub lookup : ℕ → List (ℕ × A) → Option A
  lookup k [] = none
  lookup k (e ∷ m) = if e.0 == k then some e.1 else lookup k m

  unfoldable pub overwrite : ℕ → A → List (ℕ × A) → List (ℕ × A)
  overwrite k v [] = []
  overwrite k v (e ∷ m) = if e.0 == k then (k, v) ∷ m else e ∷ overwrite k v m

  unfoldable pub insert : ℕ → A → List (ℕ × A) → List (ℕ × A)
  insert k v m = if count k m == 0 then (k, v) ∷ m else m

  unfoldable pub assign : ℕ → A → List (ℕ × A) → List (ℕ × A)
  assign k v m = if count k m == 0 then (k, v) ∷ m else overwrite k v m

  unfoldable pub erase : ℕ → List (ℕ × A) → List (ℕ × A)
  erase k [] = []
  erase k (e ∷ m) = if e.0 == k then m else e ∷ erase k m

  pub count-overwrite : (j k : ℕ) (v : A) (m : List (ℕ × A)) → count j (overwrite k v m) ≡ count j m
  unfolding overwrite
  count-overwrite j k v [] = refl
  count-overwrite j k v (e ∷ m) = ground (arith, count-overwrite j k v m)

  pub lookup-overwrite :
      (j k : ℕ) (v : A) (m : List (ℕ × A))
      → lookup j (overwrite k v m)
        ≡ (if j == k then (if count k m == 0 then none else some v) else lookup j m)
  unfolding lookup overwrite
  lookup-overwrite j k v [] = ground arith
  lookup-overwrite j k v (e ∷ m) = ground (arith, lookup-overwrite j k v m)

  pub lookup-absent : (k : ℕ) (m : List (ℕ × A)) → count k m ≡ 0 → lookup k m ≡ none
  unfolding lookup
  lookup-absent k [] h = refl
  lookup-absent k (e ∷ m) h = ground (arith, lookup-absent k m)

  pub count-absent : (k : ℕ) (m : List (ℕ × A)) → lookup k m ≡ none → count k m ≡ 0
  unfolding lookup
  count-absent k [] h = refl
  count-absent k (e ∷ m) h = ground (arith, count-absent k m)

  -- Reading after a write.
  pub lookup-assign :
      (j k : ℕ) (v : A) (m : List (ℕ × A))
      → lookup j (assign k v m) ≡ (if j == k then some v else lookup j m)
  unfolding assign lookup
  lookup-assign j k v m = ground (arith, lookup-overwrite j k v m)

  pub assign-IsMap : (k : ℕ) (v : A) (m : List (ℕ × A)) → IsMap m → IsMap (assign k v m)
  unfolding assign
  assign-IsMap k v m h j = ground (arith, h j, count-overwrite j k v m)

  pub insert-IsMap : (k : ℕ) (v : A) (m : List (ℕ × A)) → IsMap m → IsMap (insert k v m)
  unfolding insert
  insert-IsMap k v m h j = ground (arith, h j)

  -- Erasing removes the entry found, and nothing else.
  pub tally-erase :
      (p : ℕ × A → Bool) (k : ℕ) (v : A) (m : List (ℕ × A))
      → lookup k m ≡ some v
      → tally p (erase k m) + to_nat (p (k, v)) ≡ tally p m
  unfolding lookup erase
  tally-erase p k v [] h = cc
  tally-erase p k v ((j, w) ∷ m) h = ground (arith, tally-erase p k v m)

  pub erase-absent : (k : ℕ) (m : List (ℕ × A)) → count k m ≡ 0 → erase k m ≡ m
  unfolding erase
  erase-absent k [] h = refl
  erase-absent k (e ∷ m) h = ground (arith, erase-absent k m)

  pub count-erase-le : (j k : ℕ) (m : List (ℕ × A)) → count j (erase k m) ≤ count j m
  unfolding erase
  count-erase-le j k [] = omega arith
  count-erase-le j k (e ∷ m) = ground (arith, count-erase-le j k m)

  -- A test that no entry under `k` passes does not see a write at `k`.
  pub tally-overwrite_other :
      (p : ℕ × A → Bool) (k : ℕ) (v : A) (m : List (ℕ × A))
      → ((w : A) → p (k, w) ≡ false)
      → tally p (overwrite k v m) ≡ tally p m
  unfolding overwrite
  tally-overwrite_other p k v [] h = refl
  tally-overwrite_other p k v ((j, w) ∷ m) h =
      ground (arith, h v, h w, tally-overwrite_other p k v m h)

  -- A test that only entries under `k` pass sees the entry written, and no other.
  tally_only :
      (p : ℕ × A → Bool) (k : ℕ) (m : List (ℕ × A))
      → ((j : ℕ) (w : A) → j ≢ k → p (j, w) ≡ false)
      → tally p m ≤ count k m
  tally_only p k [] h = omega arith
  tally_only p k ((j, w) ∷ m) h = ground (arith, h j w, tally_only p k m h)

  tally-overwrite_self :
      (p : ℕ × A → Bool) (k : ℕ) (v : A) (m : List (ℕ × A))
      → ((j : ℕ) (w : A) → j ≢ k → p (j, w) ≡ false)
      → count k m ≡ 1
      → tally p (overwrite k v m) ≡ to_nat (p (k, v))
  unfolding overwrite
  tally-overwrite_self p k v [] h c = absurd (omega arith)
  tally-overwrite_self p k v ((j, w) ∷ m) h c =
      ground (arith, h j w, tally_only p k m h, tally-overwrite_self p k v m h)

  pub tally-assign_other :
      (p : ℕ × A → Bool) (k : ℕ) (v : A) (m : List (ℕ × A))
      → ((w : A) → p (k, w) ≡ false)
      → tally p (assign k v m) ≡ tally p m
  unfolding assign
  tally-assign_other p k v m h = ground (arith, h v, tally-overwrite_other p k v m h)

  pub tally-assign_self :
      (p : ℕ × A → Bool) (k : ℕ) (v : A) (m : List (ℕ × A))
      → ((j : ℕ) (w : A) → j ≢ k → p (j, w) ≡ false)
      → count k m ≤ 1
      → tally p (assign k v m) ≡ to_nat (p (k, v))
  unfolding assign
  tally-assign_self p k v m h c = ground (arith, tally_only p k m h, tally-overwrite_self p k v m h)

module _ {ℓ κ} {A : Type ℓ} (P : ℕ × A → Type κ) where
  overwrite-All : (k : ℕ) (v : A) (m : List (ℕ × A)) → P (k, v) → All P m → All P (overwrite k v m)
  unfolding overwrite
  overwrite-All k v [] h a = a
  overwrite-All k v (e ∷ m) h a = elim (Bool-cases (e.0 == k)) [
    | inl t ↦ rw t (h, a.1)
    | inr t ↦ rw t (a.0, overwrite-All k v m h a.1)
  ]

  pub assign-All : (k : ℕ) (v : A) (m : List (ℕ × A)) → P (k, v) → All P m → All P (assign k v m)
  unfolding assign
  assign-All k v m h a = elim (Bool-cases (count k m == 0)) [
    | inl t ↦ rw t (h, a)
    | inr t ↦ rw t (overwrite-All k v m h a)
  ]

  pub insert-All : (k : ℕ) (v : A) (m : List (ℕ × A)) → P (k, v) → All P m → All P (insert k v m)
  unfolding insert
  insert-All k v m h a = elim (Bool-cases (count k m == 0)) [ inl t ↦ rw t (h, a) | inr t ↦ rw t a ]

  pub erase-All : (k : ℕ) (m : List (ℕ × A)) → All P m → All P (erase k m)
  unfolding erase
  erase-All k [] a = tt
  erase-All k (e ∷ m) a = elim (Bool-cases (e.0 == k)) [
    | inl t ↦ rw t a.1
    | inr t ↦ rw t (a.0, erase-All k m a.1)
  ]

  pub lookup-All : (k : ℕ) (v : A) (m : List (ℕ × A)) → lookup k m ≡ some v → All P m → P (k, v)
  unfolding lookup
  lookup-All k v [] h a = cc
  lookup-All k v ((j, w) ∷ m) h a = elim (Bool-cases (j == k)) [
    | inl t ↦
        let hit : some w ≡ some v = rw (t, lookup) at h in
        subst₂ (λ x y. P (x, y)) ((==_iff j k).0 t) (ground arith) a.0
    | inr t ↦ lookup-All k v m (rw (t, lookup) at h) a.1
  ]

-- A test, but for one key.
abbrev pub without {ℓ} : {A : Type ℓ} → ℕ → (ℕ × A → Bool) → ℕ × A → Bool
without k p e = if e.0 == k then false else p e

module _ {ℓ} {A : Type ℓ} (p : ℕ × A → Bool) (k : ℕ) where
  pub tally-without_absent : (m : List (ℕ × A)) → count k m ≡ 0 → tally (without k p) m ≡ tally p m
  tally-without_absent [] h = refl
  tally-without_absent (e ∷ m) h = ground (arith, tally-without_absent m)

  -- Erasing a key of a map removes what stands under it.
  pub tally-erase-without :
      (m : List (ℕ × A)) → count k m ≤ 1 → tally p (erase k m) ≡ tally (without k p) m
  unfolding erase
  tally-erase-without [] h = refl
  tally-erase-without (e ∷ m) h = ground (arith, tally-erase-without m, tally-without_absent m)

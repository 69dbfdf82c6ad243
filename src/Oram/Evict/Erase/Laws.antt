-- ===== src/Oram/Evict/Erase/Laws.antt =====
-- Erasing indices from the greatest to the least, as writePath of path-oram/src/oram.cpp does,
-- removes the elements that stood there before the first erasure.
use mathlib.Core.List.{append_assoc}
use path_oram_base.Common.{
  ℕ, ◌+◌, ◌≤◌, ◌<◌, ◌≡◌, refl, sym, ap, ◌∙◌, Bool, List, [], ◌∷◌, ◌++◌, arith, length,
  length-append, tally, All, All-map, le→ltb,
}
use path_oram_base.Oram.Evict.Erase.{insert_desc, sort_desc, erase_at, erase_all}

-- Of `xs`, whose first element has index `i`, the indices `is` hold `chosen`, and `rest` is left.
pub data Picks {ℓ} {A : Type ℓ} : ℕ → List A → List ℕ → List A → List A → Type ℓ where
  stop : {i : ℕ} {xs : List A} → Picks i xs [] [] xs
  skip :
      {i : ℕ} {x : A} {xs : List A} {is : List ℕ} {chosen rest : List A}
      → Picks (i + 1) xs is chosen rest
      → Picks i (x ∷ xs) is chosen (x ∷ rest)
  take :
      {i : ℕ} {x : A} {xs : List A} {is : List ℕ} {chosen rest : List A}
      → Picks (i + 1) xs is chosen rest
      → Picks i (x ∷ xs) (i ∷ is) (x ∷ chosen) rest

insert_desc-least : (k : ℕ) (js : List ℕ) → All (λ j. k < j) js → insert_desc k js ≡ js ++ k ∷ []
unfolding insert_desc
insert_desc-least k [] h = refl
insert_desc-least k (j ∷ js) h =
    rw (le→ltb j k (omega (arith, h.0))) (ap (◌∷◌ j) (insert_desc-least k js h.1))

insert_desc-All :
    (i k : ℕ) (js : List ℕ) → i < k → All (λ j. i < j) js → All (λ j. i < j) (insert_desc k js)
unfolding insert_desc
insert_desc-All i k [] p h = (p, tt)
insert_desc-All i k (j ∷ js) p h = ground (arith, insert_desc-All i k js p h.1)

sort_desc-All : (i : ℕ) (ks : List ℕ) → All (λ j. i < j) ks → All (λ j. i < j) (sort_desc ks)
unfolding sort_desc
sort_desc-All i [] h = tt
sort_desc-All i (k ∷ ks) h = insert_desc-All i k _ h.0 (sort_desc-All i ks h.1)

module _ {ℓ} {A : Type ℓ} where
  erase_all-append :
      (js : List ℕ) (k : ℕ) (xs : List A)
      → erase_all (js ++ k ∷ []) xs ≡ erase_at k (erase_all js xs)
  unfolding erase_all
  erase_all-append [] k xs = refl
  erase_all-append (j ∷ js) k xs = erase_all-append js k (erase_at j xs)

  erase_at-middle :
      (pre : List A) (x : A) (xs : List A) → erase_at (length pre) (pre ++ x ∷ xs) ≡ pre ++ xs
  unfolding erase_at
  erase_at-middle [] x xs = refl
  erase_at-middle (y ∷ pre) x xs = ap (◌∷◌ y) (erase_at-middle pre x xs)

  Picks-above :
      {i : ℕ} {xs : List A} {is : List ℕ} {chosen rest : List A}
      → Picks i xs is chosen rest
      → All (λ j. i ≤ j) is
  Picks-above stop = tt
  Picks-above (skip p) = All-map _ _ (λ j h. omega arith) _ (Picks-above p)
  Picks-above (take p) = (omega arith, All-map _ _ (λ j h. omega arith) _ (Picks-above p))

  regroup : (pre : List A) (x : A) (xs : List A) → (pre ++ x ∷ []) ++ xs ≡ pre ++ x ∷ xs
  regroup pre x xs = append_assoc pre (x ∷ []) xs

  erase_all-Picks_from :
      {i : ℕ} {xs : List A} {is : List ℕ} {chosen rest : List A} (pre : List A)
      → Picks i xs is chosen rest
      → length pre ≡ i
      → erase_all (sort_desc is) (pre ++ xs) ≡ pre ++ rest
  unfolding erase_all sort_desc
  erase_all-Picks_from pre stop e = refl
  erase_all-Picks_from pre (skip {x = x} {xs = xs} {is = is} {rest = rest} p) e =
      ap (erase_all (sort_desc is)) (sym (regroup pre x xs))
      ∙ erase_all-Picks_from (pre ++ x ∷ []) p (omega (arith, length-append pre (x ∷ [])))
      ∙ regroup pre x rest
  erase_all-Picks_from {i} pre (take {x = x} {xs = xs} {is = is} {rest = rest} p) e =
      rw
        (
          insert_desc-least i (sort_desc is)
              (sort_desc-All i is (All-map _ _ (λ j h. omega arith) _ (Picks-above p))),
          erase_all-append (sort_desc is) i (pre ++ x ∷ xs),
        )
        (ap (λ t. erase_at i (erase_all (sort_desc is) t)) (sym (regroup pre x xs))
          ∙ ap (erase_at i) (
              erase_all-Picks_from (pre ++ x ∷ []) p (omega (arith, length-append pre (x ∷ [])))
              ∙ regroup pre x rest)
          ∙ (rw (← e) (erase_at-middle pre x rest)))

  -- If increasing indices pick elements of a list, then erasing those indices one after the other,
  -- sorted from the greatest to the least, leaves exactly the elements that were not picked, in
  -- their order.
  pub erase_all-Picks :
      {xs : List A} {is : List ℕ} {chosen rest : List A}
      → Picks 0 xs is chosen rest
      → erase_all (sort_desc is) xs ≡ rest
  erase_all-Picks p = erase_all-Picks_from [] p refl

  pub Picks-tally :
      {i : ℕ} {xs : List A} {is : List ℕ} {chosen rest : List A} (p : A → Bool)
      → Picks i xs is chosen rest
      → tally p rest + tally p chosen ≡ tally p xs
  Picks-tally p stop = omega arith
  Picks-tally p (skip q) = omega (arith, Picks-tally p q)
  Picks-tally p (take q) = omega (arith, Picks-tally p q)

  pub Picks-All {κ} :
      (P : A → Type κ) {i : ℕ} {xs : List A} {is : List ℕ} {chosen rest : List A}
      → Picks i xs is chosen rest
      → All P xs
      → All P chosen × All P rest
  Picks-All P stop h = (tt, h)
  Picks-All P (skip q) h = let r = Picks-All P q h.1 in (r.0, (h.0, r.1))
  Picks-All P (take q) h = let r = Picks-All P q h.1 in ((h.0, r.0), r.1)

-- ===== src/SecretSharing/RoundTrip.antt =====
-- split and restore of path-oram/src/shamir.cpp together.
use path_oram_base.Common.{
  ℕ, zero, suc, ◌+◌, ◌-◌, ◌<◌, ◌≤◌, ◌≡◌, refl, ap, ◌∙◌, arith, Option, some, List, [], ◌∷◌, map,
  length, get_elem?, All, le→ltb, if◌then◌else◌, inl, inr, ne→==, eq→==, ◌==◌, false,
}
use path_oram_base.Common.Checked.{◌>>=◌}
use path_oram_base.Common.Int.{pos}
use path_oram_base.Random.{Words}
use path_oram_base.SecretSharing.{prime, SecretPair, random_coefficients, split, restore}
use path_oram_base.SecretSharing.Evaluate.{share, points, split-points}
use path_oram_base.SecretSharing.Lagrange.{IsIn, AllDistinct, not_both}
use path_oram_base.SecretSharing.Products.{shares}
use path_oram_base.SecretSharing.Restore.{restore-shares}

-- The shares at these indices.
unfoldable pub select : List ℕ → List SecretPair → Option (List SecretPair)
select [] pairs = some []
select (i ∷ is) pairs = do pair ← get_elem? pairs i; rest ← select is pairs; some (pair ∷ rest)

get_elem-points :
    (n number i : ℕ) (cs : List ℕ)
    → i < n
    → get_elem? (points n number cs) i ≡ some (share (number + i) cs)
unfolding points
get_elem-points zero number i cs h = absurd (omega arith)
get_elem-points (suc n) number zero cs h = ap (λ t. some (share t cs)) (omega arith)
get_elem-points (suc n) number (suc i) cs h =
    get_elem-points n (number + 1) i cs (omega arith) ∙ ap (λ t. some (share t cs)) (omega arith)

select-points :
    (n : ℕ) (cs is : List ℕ)
    → All (λ i. i < n) is
    → select is (points n 1 cs) ≡ some (shares cs (map suc is))
unfolding select shares
select-points n cs [] a = refl
select-points n cs (i ∷ is) a =
    rw (get_elem-points n 1 i cs a.0, select-points n cs is a.1)
      (ap (λ t. some (share t cs ∷ shares cs (map suc is))) (omega arith))

IsIn-map-suc : (is : List ℕ) (y : ℕ) → IsIn (suc y) (map suc is) → IsIn y is
unfolding IsIn
IsIn-map-suc (i ∷ is) y (inl e) = inl (omega (arith, e))
IsIn-map-suc (i ∷ is) y (inr m) = inr (IsIn-map-suc is y m)
IsIn-map-suc [] y m = absurd m

suc_apart :
    (i : ℕ) (is : List ℕ)
    → ((y : ℕ) → IsIn y is → (y == i) ≡ false)
    → (y : ℕ) → IsIn y (map suc is)
    → (y == suc i) ≡ false
suc_apart i is h zero m = ne→== zero (suc i) (omega arith)
suc_apart i is h (suc y) m =
    ne→== (suc y) (suc i) λ e. not_both (eq→== y i (omega (arith, e))) (h y (IsIn-map-suc is y m))

AllDistinct-map-suc : (is : List ℕ) → AllDistinct is → AllDistinct (map suc is)
unfolding AllDistinct
AllDistinct-map-suc [] d = tt
AllDistinct-map-suc (i ∷ is) d = (suc_apart i is d.0, AllDistinct-map-suc is d.1)

All-map-suc : (n : ℕ) (is : List ℕ) → n ≤ 9 → All (λ i. i < n) is → All (λ x. x ≤ 9) (map suc is)
All-map-suc n [] h a = tt
All-map-suc n (i ∷ is) h a = (omega (arith, a.0), All-map-suc n is h a.1)

length-map-suc : (is : List ℕ) → length (map suc is) ≡ length is
length-map-suc [] = refl
length-map-suc (i ∷ is) = ap suc (length-map-suc is)

pub length-random_coefficients : (n : ℕ) (words : Words) → length (random_coefficients n words) ≡ n
unfolding random_coefficients
length-random_coefficients zero words = refl
length-random_coefficients (suc n) words =
    ap suc (length-random_coefficients n (λ i. words (suc i)))

-- For at least one and at most nine shares, no fewer than the coefficients, and a secret below
-- PRIME, split delivers shares, and for any choice of different ones, at least as many as the
-- coefficients, restore delivers the secret, in whatever order they are; neither overflows.
pub restore-split :
    (secret n k : ℕ) (words : Words) (is : List ℕ)
    → 0 < k
    → k ≤ n
    → n ≤ 9
    → secret < prime
    → AllDistinct is
    → All (λ i. i < n) is
    → k ≤ length is
    → (pairs chosen : List SecretPair) × (split secret n k words ≡ some pairs)
      × (select is pairs ≡ some chosen)
      × (restore k chosen ≡ some (pos secret))
restore-split secret n k words [] h p q r d a l = absurd (omega arith)
restore-split secret n k words (i ∷ is) h p q r d a l =
    let cs = random_coefficients (k - 1) words in
    (
      points n 1 (secret ∷ cs),
      shares (secret ∷ cs) (map suc (i ∷ is)),
      split-points secret n k words h q r
          ∙ ap (λ b. some (if b then [] else points n 1 (secret ∷ cs))) (le→ltb n k p),
      select-points n (secret ∷ cs) (i ∷ is) a,
      restore-shares k secret cs (suc i) (map suc is) r
          (omega (arith, length-random_coefficients (k - 1) words, length-map-suc is))
          (All-map-suc n (i ∷ is) q a) (AllDistinct-map-suc (i ∷ is) d),
    )

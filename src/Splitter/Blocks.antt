-- ===== src/Splitter/Blocks.antt =====
-- The blocks that path-oram/src/splitter.cpp and trusted_proxy_layer.cpp restore and write, from the
-- files of enough servers.
use path_oram_base.Common.{
  ℕ, zero, suc, ◌+◌, ◌-◌, ◌^◌, ◌<◌, ◌≤◌, ◌≡◌, refl, sym, ap, ◌∙◌, arith, Bool, true, false, some,
  List, [], ◌∷◌, length, drop, replicate, ltb, if◌then◌else◌, All, inl, inr, ne→==,
}
use path_oram_base.Common.Int.{pos}
use path_oram_base.Random.{Words}
use path_oram_base.SecretSharing.{prime, random_coefficients, restore}
use path_oram_base.SecretSharing.Lagrange.{IsIn, AllDistinct}
use path_oram_base.SecretSharing.Products.{shares}
use path_oram_base.SecretSharing.Restore.{restore-shares}
use path_oram_base.SecretSharing.RoundTrip.{length-random_coefficients}
use path_oram_base.Splitter.{write_blocks, low_bytes}
use path_oram_base.Splitter.Numbers.{numbers_of, written}
use path_oram_base.Splitter.Servers.{polynomials, marked, rows}
use path_oram_base.Types.{Bytes}

IsIn-marked : (bs : List Bool) (number x : ℕ) → IsIn x (marked number bs) → number ≤ x
unfolding IsIn marked
IsIn-marked [] number x m = absurd m
IsIn-marked (true ∷ bs) number x (inl e) = omega (arith, e)
IsIn-marked (true ∷ bs) number x (inr m) = omega (arith, IsIn-marked bs (number + 1) x m)
IsIn-marked (false ∷ bs) number x m = omega (arith, IsIn-marked bs (number + 1) x m)

pub marked-AllDistinct : (bs : List Bool) (number : ℕ) → AllDistinct (marked number bs)
unfolding AllDistinct marked
marked-AllDistinct [] number = tt
marked-AllDistinct (true ∷ bs) number = (
  (λ x m. ne→== x number (omega (arith, IsIn-marked bs (number + 1) x m))),
  marked-AllDistinct bs (number + 1),
)
marked-AllDistinct (false ∷ bs) number = marked-AllDistinct bs (number + 1)

pub marked-All :
    (bs : List Bool) (number : ℕ) → number + length bs ≤ 10 → All (λ x. x ≤ 9) (marked number bs)
unfolding marked
marked-All [] number h = tt
marked-All (true ∷ bs) number h = (omega arith, marked-All bs (number + 1) (omega arith))
marked-All (false ∷ bs) number h = marked-All bs (number + 1) (omega arith)

-- Enough servers restore the number of a polynomial.
pub restore-marked :
    (k v : ℕ) (words : Words) (xs : List ℕ)
    → 0 < k
    → v < prime
    → k ≤ length xs
    → All (λ x. x ≤ 9) xs
    → AllDistinct xs
    → restore k (shares (v ∷ random_coefficients (k - 1) words) xs) ≡ some (pos v)
restore-marked k v words [] h p q a d = absurd (omega arith)
restore-marked k v words (x ∷ xs) h p q a d =
    restore-shares k v (random_coefficients (k - 1) words) x xs p
      (omega (arith, length-random_coefficients (k - 1) words)) a d

pub write_blocks-rows :
    (k : ℕ) (words : Words) (vs xs : List ℕ) (tot : ℕ)
    → 0 < k
    → All (λ v. v < prime) vs
    → k ≤ length xs
    → All (λ x. x ≤ 9) xs
    → AllDistinct xs
    → write_blocks k tot (rows xs (polynomials k words vs)) ≡ some (written tot vs)
unfolding write_blocks rows polynomials written low_bytes
write_blocks-rows k words [] xs tot h p q a d = refl
write_blocks-rows k words (v ∷ vs) xs tot h p q a d =
    rw
      (
        restore-marked k v words xs h p.0 q a d,
        write_blocks-rows k (λ i. words (k - 1 + i)) vs xs (if ltb tot 7 then 0 else tot - 7) h p.1
            q a d,
      )
      refl

rows-nil :
    (k : ℕ) (words : Words) (vs : List ℕ)
    → replicate (length vs) [] ≡ rows [] (polynomials k words vs)
unfolding rows polynomials shares
rows-nil k words [] = refl
rows-nil k words (v ∷ vs) = ap (◌∷◌ []) (rows-nil k (λ i. words (k - 1 + i)) vs)

-- No shares are read yet.
pub replicate-rows :
    (m k : ℕ) (words : Words) (vs : List ℕ)
    → length vs ≡ m
    → replicate m [] ≡ rows [] (polynomials k words vs)
replicate-rows m k words vs h = ap (λ t. replicate t []) (sym h) ∙ rows-nil k words vs

pub length-numbers_of : (m : ℕ) (bytes : Bytes) → length (numbers_of m bytes) ≡ m
unfolding numbers_of
length-numbers_of zero bytes = refl
length-numbers_of (suc m) bytes = ap suc (length-numbers_of m (drop 7 bytes))

pub below_prime : (vs : List ℕ) → All (λ v. v < 2 ^ 56) vs → All (λ v. v < prime) vs
below_prime [] h = tt
below_prime (v ∷ vs) h = (omega (arith, h.0), below_prime vs h.1)

pub length-shares : (cs xs : List ℕ) → length (shares cs xs) ≡ length xs
unfolding shares
length-shares cs [] = refl
length-shares cs (x ∷ xs) = ap suc (length-shares cs xs)

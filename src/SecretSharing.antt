-- ===== src/SecretSharing.antt =====
-- Shamir's secret sharing: path-oram/src/helpers.cpp, SecretPair.cpp and shamir.cpp. `none` is signed
-- overflow, or a loop that does not end.
pub mod Multiply
pub mod Evaluate
pub mod Modulo
pub mod Lagrange
pub mod Interpolate
pub mod Euclid
pub mod Residue
pub mod Inverse
pub mod Units
pub mod Products
pub mod Places
pub mod Restore
pub mod RoundTrip
use mathlib.Core.WellFounded.{Acc}
use path_oram_base.Common.{
  ℕ, zero, suc, ◌+◌, ◌*◌, ◌/◌, ◌%◌, ◌<◌, ◌≤◌, Bool, true, false, Option, none, some, List, [], ◌∷◌,
  ◌++◌, length, ◌==◌, ltb, if◌then◌else◌, arith,
}
use path_oram_base.Common.Checked.{◌>>=◌}
use path_oram_base.Common.Int.{ℤ, pos, negsuc, abs, ◌+ℤ◌, ◌-ℤ◌, ◌*ℤ◌, trem, ll}
use path_oram_base.Random.{Words}

-- PRIME
abbrev pub prime : ℕ
prime = 992429121339693967

-- A share: x and f(x).
pub record SecretPair : Type 0 where
  pub x : ℤ
  pub y : ℤ

-- The random coefficients after the secret. `words` is what generateRandomNumber delivers.
unfoldable pub random_coefficients : ℕ → Words → List ℕ
random_coefficients zero words = []
random_coefficients (suc n) words = words 0 ∷ random_coefficients n (λ i. words (suc i))

-- generateCoefficients: with k = 0 the code writes past the end. The secret is from 0 on.
unfoldable pub generate_coefficients : ℕ → ℕ → Words → Option (List ℕ)
generate_coefficients zero secret words = none
generate_coefficients (suc k) secret words = some (secret ∷ random_coefficients k words)

-- The loop of modmult. A `b` from 0 on is halved to 0 in less than 64 rounds, which is the fuel.
unfoldable pub modmult_loop : ℕ → ℤ → ℕ → ℤ → Option ℤ
modmult_loop zero a b res = none
modmult_loop (suc fuel) a b res = elim (b == 0) [
  | true ↦ some res
  | false ↦ do
    res' ← if b % 2 == 1 then (do sum ← ll (res +ℤ a); some (trem sum prime)) else some res
    double ← ll (pos 2 *ℤ a)
    modmult_loop fuel (trem double prime) (b / 2) res'
]

-- With a negative `b` the loop does not end, since shifting it right ends at -1.
unfoldable pub modmult : ℤ → ℤ → Option ℤ
unfolding modmult_loop
modmult a (pos b) = modmult_loop 64 (trem a prime) b (pos 0)
modmult a (negsuc b) = none

-- `exp` rounds of current = (current * number) % PRIME.
unfoldable pub times_number : ℕ → ℕ → ℤ → Option ℤ
times_number zero number current = some current
times_number (suc exp) number current = do
  product ← ll (current *ℤ pos number)
  times_number exp number (trem product prime)

-- The loop over the coefficients, of which the first one here has exponent `exp`.
unfoldable pub add_terms : ℕ → ℕ → List ℕ → ℤ → Option ℤ
add_terms number exp [] accumulator = some accumulator
add_terms number exp (c ∷ cs) accumulator = do
  power ← times_number exp number (pos 1)
  current ← modmult power (trem (pos c) prime)
  sum ← ll (trem accumulator prime +ℤ trem (trem current prime) prime)
  add_terms number (exp + 1) cs (trem sum prime)

-- The y of the share with this x.
unfoldable pub evaluate : ℕ → List ℕ → Option ℤ
evaluate number [] = none
evaluate number (c ∷ cs) = add_terms number 1 cs (pos c)

-- calculateSecretPairs, from x = `number` on.
unfoldable pub pairs_from : ℕ → ℕ → List ℕ → Option (List SecretPair)
pairs_from zero number coefficients = some []
pairs_from (suc n) number coefficients = do
  accumulator ← evaluate number coefficients
  rest ← pairs_from n (number + 1) coefficients
  some (record { x = pos number; y = accumulator } ∷ rest)

unfoldable pub calculate_secret_pairs : ℕ → List ℕ → Option (List SecretPair)
calculate_secret_pairs n coefficients = pairs_from n 1 coefficients

-- split
unfoldable pub split : ℕ → ℕ → ℕ → Words → Option (List SecretPair)
split secret n k words = if ltb n k then some [] else (do
  coefficients ← generate_coefficients k secret words
  calculate_secret_pairs n coefficients)

-- gcdExtended ends, since its second number falls.
falls : (limit b : ℕ) → b ≤ limit → Acc ◌<◌ b
falls zero b most = Acc.intro b λ next less. absurd (omega arith)
falls (suc limit) b most = Acc.intro b λ next less. falls limit next (omega arith)

pub acc : (n : ℕ) → Acc ◌<◌ n
unfolding falls
acc b = falls b b (omega arith)

pub remainder_lt : (a m : ℕ) → a % suc m < suc m
remainder_lt a m = omega arith

-- gcdExtended: the x and the y of a * x + b * y = gcd(a, b). Its callers' a and b are from 0 on.
unfoldable pub gcd_extended : (a b : ℕ) → Acc ◌<◌ b → Option (ℤ × ℤ)
gcd_extended a b (Acc.intro zero _) = some (pos 1, pos 0)
gcd_extended a b (Acc.intro (suc c) rounds) = do
  r ← gcd_extended (suc c) (a % suc c) (rounds (a % suc c) (remainder_lt a c))
  product ← ll (r.1 *ℤ pos (a / suc c))
  difference ← ll (r.0 -ℤ product)
  some (r.1, difference)

-- The loop over `j` of reconstructSecret, from index `j` on: the products `upper` and `lower`.
unfoldable pub products : ℕ → ℤ → ℕ → List SecretPair → ℤ → ℤ → Option (ℤ × ℤ)
products i xi j [] upper lower = some (upper, lower)
products i xi j (pair ∷ pairs) upper lower =
    if i == j then products i xi (j + 1) pairs upper lower else (do
      by_xj ← ll (upper *ℤ pair.x)
      negated ← ll (by_xj *ℤ negsuc 0)
      difference ← ll (xi -ℤ pair.x)
      by_difference ← ll (lower *ℤ difference)
      products i xi (j + 1) pairs (trem negated prime) (trem by_difference prime))

-- Whether `lower < 0`.
unfoldable pub is_negative : ℤ → Bool
is_negative (pos n) = false
is_negative (negsuc n) = true

-- The inverse of `lower` from gcdExtended. Its distance from 0 is `lower` or `lower * -1`.
unfoldable pub inverse : ℤ → Option ℤ
unfolding gcd_extended acc
inverse lower = do
  r ← gcd_extended prime (abs lower) (acc (abs lower))
  y ← if is_negative lower then ll (r.1 *ℤ negsuc 0) else some r.1
  sum ← ll (y +ℤ pos prime)
  some (trem sum prime)

-- The loop over `i`, from index `i` on, where `rest` is left.
unfoldable pub reconstruct_loop : ℕ → List SecretPair → List SecretPair → ℤ → Option ℤ
reconstruct_loop i [] pairs secret = some secret
reconstruct_loop i (pair ∷ rest) pairs secret = do
  r ← products i pair.x 0 pairs (pos 1) (pos 1)
  lower ← inverse r.1
  by_inverse ← modmult r.0 (trem lower prime)
  current ← modmult (trem by_inverse prime) (trem pair.y prime)
  partial ← ll (pos prime +ℤ secret)
  sum ← ll (partial +ℤ trem current prime)
  reconstruct_loop (i + 1) rest pairs (trem sum prime)

-- reconstructSecret
unfoldable pub reconstruct_secret : List SecretPair → Option ℤ
reconstruct_secret pairs = reconstruct_loop 0 pairs pairs (pos 0)

-- restore does not look at its `k`.
unfoldable pub restore : ℕ → List SecretPair → Option ℤ
restore k secrets = reconstruct_secret secrets

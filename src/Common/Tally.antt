-- ===== src/Common/Tally.antt =====
-- How many elements of a list pass a test, and sums over an initial segment of the numbers.
use Prim.Native.Nat.{ℕ, zero, suc, ◌+◌, ◌*◌, ◌≤◌, ◌<◌}
use mathlib.Core.Path.{◌≡◌, refl, ap}
use mathlib.Core.Logic.{◌≢◌}
use mathlib.Core.Bool.{Bool, true, false}
use mathlib.Core.List.{List, [], ◌∷◌, ◌++◌, reverse, reverse-cons}
use mathlib.Core.Option.{some}
use native.Mathlib.Omega.{arith}
use native.Mathlib.Decide.{ℕ_discrete}
use native.Mathlib.Numerals.{add-one}
use path_oram_base.Common.Lists.{set, get_elem?, length}

abbrev pub to_nat : Bool → ℕ
to_nat true = 1
to_nat false = 0

module _ {ℓ} {A : Type ℓ} where
  abbrev pub tally : (A → Bool) → List A → ℕ
  tally p [] = 0
  tally p (x ∷ xs) = to_nat (p x) + tally p xs

module _ {ℓ} {A : Type ℓ} (p : A → Bool) where
  pub tally-append : (xs ys : List A) → tally p (xs ++ ys) ≡ tally p xs + tally p ys
  tally-append [] ys = omega arith
  tally-append (x ∷ xs) ys = omega (arith, tally-append xs ys)

  pub tally-reverse : (xs : List A) → tally p (reverse xs) ≡ tally p xs
  tally-reverse [] = refl
  tally-reverse (x ∷ xs) =
      rw (reverse-cons x xs, tally-append (reverse xs) (x ∷ []), tally-reverse xs) (omega arith)

  pub tally-set :
      (xs : List A) (i : ℕ) (v : A) {old : A}
      → get_elem? xs i ≡ some old
      → tally p (set xs i v) + to_nat (p old) ≡ tally p xs + to_nat (p v)
  tally-set [] i v h = cc
  tally-set (x ∷ xs) zero v h = ground arith
  tally-set (x ∷ xs) (suc i) v h = omega (arith, tally-set xs i v h)

-- f 0 + ... + f (n - 1).
pub total : (ℕ → ℕ) → ℕ → ℕ
total f zero = 0
total f (suc n) = total f n + f n

pub total_congr : (f g : ℕ → ℕ) (n : ℕ) → ((i : ℕ) → i < n → f i ≡ g i) → total f n ≡ total g n
unfolding total
total_congr f g zero h = refl
total_congr f g (suc n) h =
    omega (arith, total_congr f g n (λ i q. h i (omega arith)), h n (omega arith))

-- Two functions that differ at one place only.
pub total_change :
    (f g : ℕ → ℕ) (n j : ℕ)
    → j < n
    → ((i : ℕ) → i ≢ j → f i ≡ g i)
    → total f n + g j ≡ total g n + f j
unfolding total
total_change f g zero j h same = absurd (omega arith)
total_change f g (suc n) j h same = elim (ℕ_discrete j n) [
  | yes e ↦ omega (arith, total_congr f g n (λ i q. same i (omega arith)), ap f e, ap g e)
  | no e ↦ omega (arith, total_change f g n j (omega arith) same, same n (omega arith))
]

pub le-total : (f : ℕ → ℕ) (n j : ℕ) → j < n → f j ≤ total f n
unfolding total
le-total f zero j h = absurd (omega arith)
le-total f (suc n) j h = ground (arith, le-total f n j)

pub total_next : (f : ℕ → ℕ) (n : ℕ) → total f (n + 1) ≡ total f n + f n
unfolding total
total_next f n = rw add-one refl

pub total_none : (f : ℕ → ℕ) → total f 0 ≡ 0
unfolding total
total_none f = refl

pub total_mono : (f : ℕ → ℕ) (m n : ℕ) → m ≤ n → total f m ≤ total f n
unfolding total
total_mono f m zero h = let e : m ≡ 0 = omega arith in rw e (omega arith)
total_mono f m (suc n) h = elim (ℕ_discrete m (suc n)) [
  | yes e ↦ rw e (omega arith)
  | no e ↦ omega (arith, total_mono f m n (omega arith))
]

-- One term beyond the first `m`.
pub total_beyond : (f : ℕ → ℕ) (m j n : ℕ) → m ≤ j → j < n → total f m + f j ≤ total f n
total_beyond f m j n h k = omega (arith, total_mono f m j h, total_mono f (suc j) n k, last)
  where
    last : total f (suc j) ≡ total f j + f j
    last = unfold total in refl

pub total_bound : (f : ℕ → ℕ) (n z : ℕ) → ((i : ℕ) → i < n → f i ≤ z) → total f n ≤ n * z
unfolding total
total_bound f zero z h = omega arith
total_bound f (suc n) z h =
    omega (arith, total_bound f n z (λ i q. h i (omega arith)), h n (omega arith))

pub tally-le-length {ℓ} : {A : Type ℓ} (p : A → Bool) (xs : List A) → tally p xs ≤ length xs
tally-le-length p [] = omega arith
tally-le-length p (x ∷ xs) = ground (arith, tally-le-length p xs)

pub total-suc : (f : ℕ → ℕ) (n : ℕ) → total f (suc n) ≡ total f n + f n
unfolding total
total-suc f n = refl

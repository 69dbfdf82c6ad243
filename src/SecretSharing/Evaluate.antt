-- ===== src/SecretSharing/Evaluate.antt =====
-- calculateSecretPairs of path-oram/src/helpers.cpp and split of path-oram/src/shamir.cpp.
use native.Mathlib.Nat.{
  mod-lt, mod-mod, mod-add-mod, add-mod-mod, mod-eq_of_lt, pow-zero, pow-succ', mul_assoc, mul_comm,
  mul-le-mul_left,
}
use path_oram_base.Common.{
  ℕ, zero, suc, ◌+◌, ◌*◌, ◌%◌, ◌^◌, ◌<◌, ◌≤◌, ◌≡◌, refl, sym, ap, ◌∙◌, some, arith, List, [], ◌∷◌,
  if◌then◌else◌, ltb, inl, inr, Bool-cases, ◌-◌,
}
use path_oram_base.Common.Int.{pos, ◌+ℤ◌, ◌*ℤ◌, trem, ll_pos}
use path_oram_base.Random.{Words}
use path_oram_base.SecretSharing.Multiply.{modmult_lem, mul-mod_first}
use path_oram_base.SecretSharing.{
  prime, SecretPair, random_coefficients, generate_coefficients, times_number, add_terms, evaluate,
  pairs_from, calculate_secret_pairs, split,
}

-- The value of a polynomial at x, where the first coefficient has exponent `exp`.
unfoldable pub value : ℕ → ℕ → List ℕ → ℕ
value x exp [] = 0
value x exp (c ∷ cs) = x ^ exp * c + value x (exp + 1) cs

-- The point at x of a polynomial modulo PRIME.
unfoldable pub share : ℕ → List ℕ → SecretPair
share x cs = record { x = pos x; y = pos (value x 0 cs % prime) }

-- The points of a polynomial modulo PRIME, from x = `number` on.
unfoldable pub points : ℕ → ℕ → List ℕ → List SecretPair
points zero number cs = []
points (suc n) number cs = share number cs ∷ points n (number + 1) cs

small_product : (c x : ℕ) → c < prime → x ≤ 9 → c * x < 2 ^ 63
small_product c x h k = omega (arith, mul-le-mul_left c k)

times_number_lem :
    (exp x current : ℕ)
    → x ≤ 9
    → current < prime
    → times_number exp x (pos current) ≡ some (pos (current * x ^ exp % prime))
unfolding times_number ◌*ℤ◌ trem
times_number_lem zero x current h k =
    ap (λ t. some (pos t))
      (sym
        (ap (λ t. t % prime) (omega (arith, ap (λ t. current * t) (pow-zero x))) ∙ mod-eq_of_lt k))
times_number_lem (suc exp) x current h k =
    rw (times_number, ll_pos (current * x) (small_product current x k h))
      (times_number_lem exp x (current * x % prime) h (mod-lt (current * x) (omega arith))
        ∙ ap (λ t. some (pos t))
            (mul-mod_first prime (current * x) (x ^ exp)
              ∙ ap (λ t. t % prime)
                  (omega (
                    arith,
                    mul_assoc current x (x ^ exp),
                    ap (λ t. current * t) (pow-succ' x exp),
                  ))))

-- Both factors may be reduced.
pub mul-mod_both : (p u v : ℕ) → u % p * (v % p) % p ≡ u * v % p
mul-mod_both p u v =
    mul-mod_first p u (v % p)
    ∙ ap (λ t. t % p) (mul_comm u (v % p))
    ∙ mul-mod_first p v u
    ∙ ap (λ t. t % p) (mul_comm v u)

-- One round of the sum.
term_sum :
    (acc u c : ℕ)
    → (acc % prime + u % prime * (c % prime) % prime % prime % prime) % prime
      ≡ (acc + u * c) % prime
term_sum acc u c =
    mod-add-mod acc prime _
    ∙ ap (λ t. (acc + t % prime % prime) % prime) (mul-mod_both prime u c)
    ∙ ap (λ t. (acc + t) % prime) (mod-mod (u * c % prime) prime ∙ mod-mod (u * c) prime)
    ∙ add-mod-mod acc (u * c) prime

add_terms_lem :
    (exp x acc : ℕ) (cs : List ℕ)
    → x ≤ 9
    → acc < prime
    → add_terms x exp cs (pos acc) ≡ some (pos ((acc + value x exp cs) % prime))
unfolding add_terms value ◌+ℤ◌ ◌*ℤ◌ trem
add_terms_lem exp x acc [] h k =
    ap (λ t. some (pos t)) (sym (ap (λ t. t % prime) (omega arith) ∙ mod-eq_of_lt k))
add_terms_lem exp x acc (c ∷ cs) h k =
    let u = 1 * x ^ exp in
    let m = u % prime * (c % prime) % prime in
    let rest =
      add_terms_lem (exp + 1) x ((acc % prime + m % prime % prime) % prime) cs h
        (mod-lt _ (omega arith)) in
    rw
      (
        times_number_lem exp x 1 h (omega arith),
        modmult_lem (pos (u % prime)) (c % prime) (omega arith),
        ll_pos (acc % prime + m % prime % prime) (omega arith),
      )
      (rest
        ∙ ap (λ t. some (pos t))
            (ap (λ t. (t + value x (exp + 1) cs) % prime) (term_sum acc u c)
              ∙ mod-add-mod (acc + u * c) prime _
              ∙ ap (λ t. t % prime) (omega (arith, ap (λ t. t * c) (one_power x exp)))))
  where
    one_power : (x exp : ℕ) → 1 * x ^ exp ≡ x ^ exp
    one_power x exp = omega arith

pairs_from_lem :
    (n number c : ℕ) (cs : List ℕ)
    → number + n ≤ 10
    → c < prime
    → pairs_from n number (c ∷ cs) ≡ some (points n number (c ∷ cs))
unfolding pairs_from points evaluate value share
pairs_from_lem zero number c cs h k = refl
pairs_from_lem (suc n) number c cs h k =
    rw
      (
        add_terms_lem 1 number c cs (omega arith) k,
        pairs_from_lem n (number + 1) c cs (omega arith) k,
      )
      (ap
        (λ t.
          some (record { x = pos number; y = pos (t % prime) } ∷ points n (number + 1) (c ∷ cs)))
        (omega (arith, first number c)))
  where
    first : (x c : ℕ) → x ^ 0 * c ≡ c
    first x c = ap (λ t. t * c) (pow-zero x) ∙ omega arith

-- For at least one coefficient, at most nine shares and a secret below PRIME, split overflows
-- nowhere; it delivers nothing if there are fewer shares than coefficients, and otherwise the
-- points at 1, 2 and so on, modulo PRIME, of the polynomial with the secret and the random
-- coefficients.
pub split-points :
    (secret n k : ℕ) (words : Words)
    → 0 < k
    → n ≤ 9
    → secret < prime
    → split secret n k words
      ≡ some (if ltb n k then [] else points n 1 (secret ∷ random_coefficients (k - 1) words))
unfolding split generate_coefficients calculate_secret_pairs
split-points secret n zero words h p q = absurd (omega arith)
split-points secret n (suc k) words h p q = elim (Bool-cases (ltb n (suc k))) [
  | inl e ↦ rw e refl
  | inr e ↦ rw e (
      pairs_from_lem n 1 secret (random_coefficients k words) (omega arith) q
      ∙ ap (λ t. some (points n 1 (secret ∷ random_coefficients t words))) (omega arith))
]

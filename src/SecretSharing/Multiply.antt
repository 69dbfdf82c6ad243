-- ===== src/SecretSharing/Multiply.antt =====
-- modmult of path-oram/src/helpers.cpp.
use native.Mathlib.Nat.{
  mod-lt, mod-add-mod, add-mul-mod_self_left, mod-eq_of_lt, div-add-mod, pow-suc,
}
use path_oram_base.Common.{
  ℕ, zero, suc, ◌+◌, ◌*◌, ◌/◌, ◌%◌, ◌^◌, ◌<◌, ◌≤◌, ◌≡◌, refl, sym, ap, ◌∙◌, Bool, inl, inr,
  Bool-cases, some, arith, ◌==◌, if◌then◌else◌, ==_iff,
}
use path_oram_base.Common.Checked.{◌>>=◌}
use path_oram_base.Common.Int.{
  ℤ, pos, ◌+ℤ◌, ◌*ℤ◌, trem, ll, abs, signed, signed-+ℤ, signed-*ℤ, trem-signed, ll-signed,
  signed_cases, *ℤ_signed, signed_zero,
}
use path_oram_base.SecretSharing.{prime, modmult_loop, modmult}

-- A factor may be reduced.
pub mul-mod_left : (p x y q : ℕ) → (x + y % p * q) % p ≡ (x + y * q) % p
mul-mod_left p x y q =
    sym (add-mul-mod_self_left (x + y % p * q) p (y / p * q))
    ∙ ap (λ t. t % p) (ground (arith, ap (λ t. t * q) (div-add-mod y p)))

pub mul-mod_first : (p y q : ℕ) → y % p * q % p ≡ y * q % p
mul-mod_first p y q =
    ap (λ t. t % p) (omega arith) ∙ mul-mod_left p 0 y q ∙ ap (λ t. t % p) (omega arith)

pub mod-step : (p x y q : ℕ) → (x % p + y % p * q) % p ≡ (x + y * q) % p
mod-step p x y q = mod-add-mod x p (y % p * q) ∙ mul-mod_left p x y q

same_zero : (b : ℕ) → b < 2 ^ 0 → b ≡ 0
same_zero b h = omega arith

add_odd :
    (s : Bool) (res a b : ℕ)
    → a < prime
    → res < prime
    → (if b % 2 == 1
        then ◌>>=◌ (ll (signed s res +ℤ signed s a)) (λ sum. some (trem sum prime))
        else some (signed s res))
      ≡ some (signed s ((res + b % 2 * a) % prime))
add_odd s res a b ha hr = elim (Bool-cases (b % 2 == 1)) [
  | inl e ↦
      let odd : b % 2 ≡ 1 = ground arith in
      rw (e, signed-+ℤ s res a, ll-signed s (res + a) (omega arith), trem-signed s, odd)
        (ap (λ t. some (signed s (t % prime))) (omega arith))
  | inr e ↦
      let even : b % 2 ≡ 0 = ground arith in
      rw (e, even)
        (ap (λ t. some (signed s t)) (sym (ap (λ t. t % prime) (omega arith) ∙ mod-eq_of_lt hr)))
]

halved : (res a b : ℕ) → res + b % 2 * a + 2 * a * (b / 2) ≡ res + a * b
halved res a b = ground (arith, ap (λ t. a * t) (div-add-mod b 2))

modmult_loop_lem :
    (s : Bool) (k fuel a b res : ℕ)
    → a < prime
    → res < prime
    → b < 2 ^ k
    → k ≤ fuel
    → modmult_loop (suc fuel) (signed s a) b (signed s res)
      ≡ some (signed s ((res + a * b) % prime))
unfolding modmult_loop
modmult_loop_lem s zero fuel a b res ha hr hb hf =
    rw (same_zero b hb) (ap (λ t. some (signed s t)) (ground (arith, mod-eq_of_lt hr)))
modmult_loop_lem s (suc k) (suc fuel) a b res ha hr hb hf = elim (Bool-cases (b == 0)) [
  | inl e ↦
      rw (modmult_loop, e)
        (ap (λ t. some (signed s t))
          (sym (
            ap (λ t. t % prime) (ap (λ t. res + a * t) ((==_iff b 0).0 e) ∙ omega arith)
            ∙ mod-eq_of_lt hr)))
  | inr e ↦
      let next =
        modmult_loop_lem s k fuel (2 * a % prime) (b / 2) ((res + b % 2 * a) % prime)
          (mod-lt (2 * a) (omega arith)) (mod-lt (res + b % 2 * a) (omega arith))
          (omega (arith, pow-suc 2 k)) (omega arith) in
      rw
        (
          modmult_loop,
          e,
          add_odd s res a b ha hr,
          signed-*ℤ s 2 a,
          ll-signed s (2 * a) (omega arith),
        )
        (ap (λ t. modmult_loop (suc fuel) t (b / 2) (signed s ((res + b % 2 * a) % prime)))
            (trem-signed s (2 * a) prime)
          ∙ next
          ∙ ap (λ t. some (signed s t))
              (mod-step prime (res + b % 2 * a) (2 * a) (b / 2)
                ∙ ap (λ t. t % prime) (halved res a b)))
]
modmult_loop_lem s (suc k) zero a b res ha hr hb hf = absurd (omega arith)

modmult-signed :
    (s : Bool) (a b : ℕ)
    → b < 2 ^ 63
    → modmult (signed s a) (pos b) ≡ some (signed s (a * b % prime))
unfolding modmult
modmult-signed s a b h =
    rw (modmult, trem-signed s a)
      (ap (modmult_loop 64 (signed s (a % prime)) b) (signed_zero s)
        ∙ modmult_loop_lem s 63 63 (a % prime) b 0 (mod-lt a (omega arith)) (omega arith) h
            (omega arith)
        ∙ ap (λ t. some (signed s t))
            (mul-mod_left prime 0 a b ∙ ap (λ t. t % prime) (omega arith)))

-- For a second factor from 0 on and below 2 ^ 63, and any first factor, modmult ends and overflows
-- nowhere, and delivers what the C++ remainder by PRIME of the exact product is.
pub modmult_lem : (a : ℤ) (b : ℕ) → b < 2 ^ 63 → modmult a (pos b) ≡ some (trem (a *ℤ pos b) prime)
modmult_lem a b h =
    let (s, e) = signed_cases a in
    rw (e, modmult-signed s (abs a) b h, *ℤ_signed s (abs a) b, trem-signed s) refl

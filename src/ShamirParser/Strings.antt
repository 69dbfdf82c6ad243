-- ===== src/ShamirParser/Strings.antt =====
-- stringToInt and intToString of Shamir_Parser/shamir_parser.cpp.
use native.Mathlib.Nat.{
  mul-le-mul_right, mul-le-mul_left, mul_assoc, pow-succ', one-le-pow, pow-le-pow_right,
}
use mathlib.Core.List.{append-nil}
use path_oram_base.Common.{
  ℕ, suc, ◌+◌, ◌-◌, ◌*◌, ◌/◌, ◌%◌, ◌^◌, ◌<◌, ◌≤◌, ◌≡◌, refl, ap, ◌∙◌, some, arith, List, [], ◌∷◌,
  ◌++◌, length, All, ne→==,
}
use path_oram_base.Common.Checked.{ll_lt}
use path_oram_base.ShamirParser.{add_chars, string_to_int, chars_before, int_to_string}

-- The number of which these are the digits in base 256, with `result` before them.
unfoldable digits : List ℕ → ℕ → ℕ
digits [] result = result
digits (c ∷ cs) result = digits cs (result * 256 + c)

-- A character, but for the end of a C string.
abbrev pub IsChar : ℕ → Type 0
IsChar c = (0 < c) × (c < 128)

-- As long as what can follow still fits, nothing overflows.
add_chars_lem :
    (cs : List ℕ) (result : ℕ)
    → All IsChar cs
    → suc result * 256 ^ length cs ≤ 2 ^ 63
    → add_chars cs result ≡ some (digits cs result)
unfolding add_chars digits
add_chars_lem [] result h k = refl
add_chars_lem (c ∷ cs) result h k =
    let room : 1 ≤ 256 ^ length cs = one-le-pow (length cs) 256 (omega arith) in
    let more : suc (result * 256 + c) * 256 ^ length cs ≤ suc result * 256 * 256 ^ length cs =
      mul-le-mul_right (256 ^ length cs) (omega (arith, h.0.1)) in
    let whole : suc result * 256 * 256 ^ length cs ≡ suc result * 256 ^ suc (length cs) = omega (
      arith,
      mul_assoc (suc result) 256 (256 ^ length cs),
      ap (λ t. suc result * t) (pow-succ' 256 (length cs)),
    ) in
    let next : suc (result * 256 + c) * 256 ^ length cs ≤ 2 ^ 63 = omega (arith, more, whole, k) in
    let small : suc (result * 256 + c) * 1 ≤ suc (result * 256 + c) * 256 ^ length cs =
      mul-le-mul_left (suc (result * 256 + c)) room in
    rw
      (
        ll_lt (result * 256) (omega (arith, next, small)),
        ll_lt (result * 256 + c) (omega (arith, next, small)),
      )
      (add_chars_lem cs (result * 256 + c) h.1 next)

fits_pow : (n : ℕ) → n ≤ 7 → 128 * 256 ^ n ≤ 2 ^ 63
fits_pow n h = omega (arith, mul-le-mul_left 128 (pow-le-pow_right {n = 256} (omega arith) h))

string_to_int_lem :
    (cs : List ℕ) → All IsChar cs → length cs ≤ 8 → string_to_int cs ≡ some (digits cs 0)
unfolding string_to_int add_chars digits
string_to_int_lem [] h k = refl
string_to_int_lem (c ∷ cs) h k =
    rw (ll_lt (0 * 256) (omega arith), ll_lt (0 * 256 + c) (omega (arith, h.0.1)))
      (add_chars_lem cs (0 * 256 + c) h.1 (
        omega (
          arith,
          fits_pow (length cs) (omega arith),
          mul-le-mul_right {m = suc (0 * 256 + c)} {n = 128} (256 ^ length cs)
              (omega (arith, h.0.1)),
        )))

chars_before_lem :
    (cs : List ℕ) (fuel result : ℕ) (acc : List ℕ)
    → All IsChar cs
    → chars_before (length cs + fuel) (digits cs result) acc ≡ chars_before fuel result (cs ++ acc)
unfolding chars_before digits
chars_before_lem [] fuel result acc h = ap (λ t. chars_before t result acc) (omega arith)
chars_before_lem (c ∷ cs) fuel result acc h =
    let one : chars_before (suc fuel) (result * 256 + c) (cs ++ acc)
        ≡ chars_before fuel result (c ∷ (cs ++ acc)) =
      rw
        (
          chars_before,
          ne→== (result * 256 + c) 0 (λ e. omega (arith, h.0.0)),
          last c result h.0.1,
          rest c result h.0.1,
        )
        refl in
    ap (λ t. chars_before t (digits cs (result * 256 + c)) acc) (omega arith)
    ∙ chars_before_lem cs (suc fuel) (result * 256 + c) acc h.1
    ∙ one
  where
    last : (c r : ℕ) → c < 128 → (r * 256 + c) % 256 ≡ c
    last c r h = omega arith

    rest : (c r : ℕ) → c < 128 → (r * 256 + c) / 256 ≡ r
    rest c r h = omega arith

-- For a string of at most eight characters from 1 to 127, stringToInt does not overflow, and
-- intToString of the result is the string.
pub int_to_string-string_to_int :
    (cs : List ℕ)
    → All IsChar cs
    → length cs ≤ 8
    → (value : ℕ) × (string_to_int cs ≡ some value) × (int_to_string value ≡ cs)
unfolding int_to_string chars_before
int_to_string-string_to_int cs h k = (
  digits cs 0,
  string_to_int_lem cs h k,
  ap (λ t. chars_before t (digits cs 0) []) (fuel_split (length cs) k)
      ∙ chars_before_lem cs (suc (8 - length cs)) 0 [] h
      ∙ append-nil cs,
)
  where
    fuel_split : (n : ℕ) → n ≤ 8 → 9 ≡ n + suc (8 - n)
    fuel_split n h = omega arith

-- ===== src/Splitter/Numbers.antt =====
-- The seven-byte numbers of path-oram/src/splitter.cpp and the bytes that are written from them.
use mathlib.Core.List.{append-nil}
use native.Mathlib.Nat.{pow-le-pow_right}
use path_oram_base.Common.{
  ℕ, zero, suc, ◌+◌, ◌-◌, ◌*◌, ◌/◌, ◌%◌, ◌^◌, ◌<◌, ◌≤◌, ◌≡◌, refl, sym, ap, ◌∙◌, arith, some, List,
  [], ◌∷◌, ◌++◌, length, take, drop, length-take, length-drop, length-append, ltb, ltb→lt,
  if◌then◌else◌, inl, inr, All, append-take-drop, Bool-cases,
}
use path_oram_base.Common.Slices.{take-append_le, drop-append_le, take-length_le}
use path_oram_base.Encoding.{le_bytes, from_le, le_bytes-from_le, from_le-lt, IsByte}
use path_oram_base.Splitter.{numbers}
use path_oram_base.Types.{Bytes}

-- m numbers of seven bytes each.
unfoldable pub numbers_of : ℕ → Bytes → List ℕ
numbers_of zero bytes = []
numbers_of (suc m) bytes = from_le (take 7 bytes) ∷ numbers_of m (drop 7 bytes)

pub numbers_lem :
    (m : ℕ) (bytes : Bytes) → length bytes ≡ 7 * m → numbers bytes ≡ some (numbers_of m bytes)
unfolding numbers numbers_of
numbers_lem zero [] h = refl
numbers_lem zero (a ∷ bytes) h = absurd (omega arith)
numbers_lem (suc m) (a ∷ b ∷ c ∷ d ∷ e ∷ f ∷ g ∷ bytes) h =
    rw (numbers_lem m bytes (omega arith)) refl
numbers_lem (suc m) [] h = absurd (omega arith)
numbers_lem (suc m) (a ∷ []) h = absurd (omega arith)
numbers_lem (suc m) (a ∷ b ∷ []) h = absurd (omega arith)
numbers_lem (suc m) (a ∷ b ∷ c ∷ []) h = absurd (omega arith)
numbers_lem (suc m) (a ∷ b ∷ c ∷ d ∷ []) h = absurd (omega arith)
numbers_lem (suc m) (a ∷ b ∷ c ∷ d ∷ e ∷ []) h = absurd (omega arith)
numbers_lem (suc m) (a ∷ b ∷ c ∷ d ∷ e ∷ f ∷ []) h = absurd (omega arith)

pub numbers_of-append :
    (p q : ℕ) (a b : Bytes)
    → length a ≡ 7 * p
    → numbers_of (p + q) (a ++ b) ≡ numbers_of p a ++ numbers_of q b
unfolding numbers_of
numbers_of-append zero q [] b h = ap (λ t. numbers_of t b) (omega arith)
numbers_of-append zero q (x ∷ a) b h = absurd (omega arith)
numbers_of-append (suc p) q a b h =
    ap (λ t. numbers_of t (a ++ b)) (next p q)
    ∙ ap (λ t. from_le t ∷ numbers_of (p + q) (drop 7 (a ++ b)))
        (take-append_le 7 a b (omega arith))
    ∙ ap (λ t. from_le (take 7 a) ∷ numbers_of (p + q) t) (drop-append_le 7 a b (omega arith))
    ∙ ap (◌∷◌ (from_le (take 7 a)))
        (numbers_of-append p q (drop 7 a) b (omega (arith, length-drop 7 a)))
  where
    next : (p q : ℕ) → suc p + q ≡ suc (p + q)
    next p q = omega arith

pub take-All : (n : ℕ) (bytes : Bytes) → All IsByte bytes → All IsByte (take n bytes)
take-All zero bytes h = tt
take-All (suc n) [] h = tt
take-All (suc n) (x ∷ bytes) h = (h.0, take-All n bytes h.1)

pub drop-All : (n : ℕ) (bytes : Bytes) → All IsByte bytes → All IsByte (drop n bytes)
drop-All zero bytes h = h
drop-All (suc n) [] h = h
drop-All (suc n) (x ∷ bytes) h = drop-All n bytes h.1

-- A number of seven bytes is below 2 ^ 56.
pub numbers_of-All :
    (m : ℕ) (bytes : Bytes) → All IsByte bytes → All (λ v. v < 2 ^ 56) (numbers_of m bytes)
unfolding numbers_of
numbers_of-All zero bytes h = tt
numbers_of-All (suc m) bytes h = (
  small (take 7 bytes) (omega (arith, length-take 7 bytes)) (take-All 7 bytes h),
  numbers_of-All m (drop 7 bytes) (drop-All 7 bytes h),
)
  where
    small : (b : Bytes) → length b ≤ 7 → All IsByte b → from_le b < 2 ^ 56
    small b e a =
        let most : 256 ^ length b ≤ 256 ^ 7 = pow-le-pow_right {n = 256} (omega arith) e in
        omega (arith, from_le-lt b a, most)

-- What is written of these numbers, with `tot` bytes left.
unfoldable pub written : ℕ → List ℕ → Bytes
written tot [] = []
written tot (v ∷ vs) =
    le_bytes (if ltb tot 7 then tot else 7) v ++ written (if ltb tot 7 then 0 else tot - 7) vs

written_none : (vs : List ℕ) → written 0 vs ≡ []
unfolding written le_bytes
written_none [] = refl
written_none (v ∷ vs) = written_none vs

-- The bytes come back, however they are filled up.
prefix_back : (a b : Bytes) → All IsByte a → le_bytes (length a) (from_le (a ++ b)) ≡ a
unfolding le_bytes from_le
prefix_back [] b h = refl
prefix_back (x ∷ a) b h =
    let low : (x + 256 * from_le (a ++ b)) % 256 ≡ x = omega (arith, h.0) in
    let high : (x + 256 * from_le (a ++ b)) / 256 ≡ from_le (a ++ b) = omega (arith, h.0) in
    rw (low, high) (ap (◌∷◌ x) (prefix_back a b h.1))

-- Writing the numbers of a file that is filled up with fewer than seven bytes gives the file.
pub written-numbers_of :
    (m : ℕ) (file rest : Bytes)
    → length file + length rest ≡ 7 * m
    → length rest < 7
    → All IsByte file
    → written (length file) (numbers_of m (file ++ rest)) ≡ file
unfolding written numbers_of le_bytes
written-numbers_of zero [] rest h k a = refl
written-numbers_of zero (x ∷ file) rest h k a = absurd (omega arith)
written-numbers_of (suc m) file rest h k a = elim (Bool-cases (ltb (length file) 7)) [
  | inl e ↦ rw e (
      ap
        (λ t.
          le_bytes (length file) (from_le t) ++ written 0 (numbers_of m (drop 7 (file ++ rest))))
        (take-length_le 7 (file ++ rest)
          (omega (arith, length-append file rest, ltb→lt (length file) 7 e)))
      ∙ ap (λ t. t ++ written 0 (numbers_of m (drop 7 (file ++ rest)))) (prefix_back file rest a)
      ∙ ap (λ t. file ++ t) (written_none (numbers_of m (drop 7 (file ++ rest))))
      ∙ append-nil file)
  | inr e ↦
      let long : 7 ≤ length file = ground (arith, e) in
      let first = take-append_le 7 file rest long in
      let seven : length (take 7 file) ≡ 7 = omega (arith, length-take 7 file) in
      let less : length (drop 7 file) ≡ length file - 7 = length-drop 7 file in
      rw (e, first, drop-append_le 7 file rest long, ← less)
        (ap
            (λ t.
              le_bytes t (from_le (take 7 file))
              ++ written (length (drop 7 file)) (numbers_of m (drop 7 file ++ rest)))
            (sym seven)
          ∙ ap (λ t. t ++ written (length (drop 7 file)) (numbers_of m (drop 7 file ++ rest)))
              (le_bytes-from_le (take 7 file) (take-All 7 file a))
          ∙ ap (λ t. take 7 file ++ t)
              (written-numbers_of m (drop 7 file) rest (omega (arith, less)) k (drop-All 7 file a))
          ∙ append-take-drop 7 file)
]

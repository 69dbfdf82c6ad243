-- ===== src/Utility/Text.antt =====
-- fromText and toText of path-oram/src/utility.cpp. A string is its characters, as bytes.
use path_oram_base.Common.{
  ℕ, zero, suc, ◌+◌, ◌-◌, ◌<◌, ◌≡◌, ◌≢◌, refl, ap, ◌∙◌, Bool, false, [], ◌∷◌, ◌++◌, arith, length,
  replicate, length-append, length-replicate, replicate-All, All, All-append, set, drop, ◌==◌, leb,
  ◌||◌, ◌&&◌, if◌then◌else◌, ne→==,
}
use path_oram_base.Common.Slices.{splice, drop-length_le}
use mathlib.Core.List.{append-nil}
use path_oram_base.Types.{Bytes}

-- fromText: setw pads with spaces on the right, endl adds a line feed.
unfoldable pub from_text : Bytes → ℕ → Bytes
from_text text n = (text ++ replicate (n - 1 - length text) 32) ++ 10 ∷ []

-- The string that starts at a `char *`.
unfoldable pub up_to_nul : Bytes → Bytes
up_to_nul [] = []
up_to_nul (x ∷ xs) = if x == 0 then [] else x ∷ up_to_nul xs

unfoldable pub is_space : ℕ → Bool
is_space x = x == 32 || leb 9 x && leb x 13

-- A text that ends with something else.
abbrev pub EndsPlain : Bytes → Type 0
EndsPlain [] = Unit
EndsPlain (x ∷ []) = is_space x ≡ false
EndsPlain (x ∷ y ∷ ys) = EndsPlain (y ∷ ys)

-- What boost says of trim_right: it removes the white space at the end, and no more.
pub record IsTrimRight (trim_right : Bytes → Bytes) : Type 0 where
  pub spaces : (text : Bytes) (n : ℕ) → EndsPlain text → trim_right (text ++ replicate n 32) ≡ text

-- toText, for data that are no longer than `n`. boost's trim_right is a parameter.
unfoldable pub to_text : (Bytes → Bytes) → Bytes → ℕ → Bytes
to_text trim_right bytes n = trim_right (up_to_nul (set (splice 0 bytes (replicate n 0)) (n - 1) 0))

up_to_nul-append : (xs ys : Bytes) → All (λ x. x ≢ 0) xs → up_to_nul (xs ++ 0 ∷ ys) ≡ xs
unfolding up_to_nul
up_to_nul-append [] ys h = refl
up_to_nul-append (x ∷ xs) ys h = rw (ne→== x 0 h.0) (ap (◌∷◌ x) (up_to_nul-append xs ys h.1))

set_last : (xs : Bytes) (x y n : ℕ) → length xs ≡ n → set (xs ++ x ∷ []) n y ≡ xs ++ y ∷ []
set_last [] x y zero h = refl
set_last [] x y (suc n) h = absurd (omega arith)
set_last (z ∷ xs) x y zero h = absurd (omega arith)
set_last (z ∷ xs) x y (suc n) h = ap (◌∷◌ z) (set_last xs x y n (omega arith))

-- If boost trims white space from the end and no more, then a text without zero bytes that does
-- not end with white space, shorter than the block, comes back from toText of what fromText makes
-- of it.
pub to_text-from_text :
    (trim_right : Bytes → Bytes) (text : Bytes) (n : ℕ)
    → IsTrimRight trim_right
    → All (λ x. x ≢ 0) text
    → EndsPlain text
    → length text < n
    → to_text trim_right (from_text text n) n ≡ text
unfolding to_text from_text splice
to_text-from_text trim_right text n law h plain short =
    let padded = text ++ replicate (n - 1 - length text) 32 in
    let size : length padded ≡ n - 1 = omega (
      arith,
      length-append text (replicate (n - 1 - length text) 32),
      length-replicate {A = ℕ} (n - 1 - length text) 32,
    ) in
    let none_left : drop {A = ℕ} (0 + length (padded ++ 10 ∷ [])) (replicate n 0) ≡ [] =
      drop-length_le (0 + length (padded ++ 10 ∷ [])) (replicate n 0)
        (omega (arith, length-append padded (10 ∷ []), size, length-replicate {A = ℕ} n 0)) in
    rw none_left (
      ap (λ t. trim_right (up_to_nul (set t (n - 1) 0))) (append-nil (padded ++ 10 ∷ []))
      ∙ ap (λ t. trim_right (up_to_nul t)) (set_last padded 10 0 (n - 1) size)
      ∙ ap trim_right (
          up_to_nul-append padded [] (
            All-append (λ x. x ≢ 0) text _ h
              (replicate-All (λ x. x ≢ 0) (n - 1 - length text) 32 (λ e. omega arith))))
      ∙ law.spaces text (n - 1 - length text) plain)

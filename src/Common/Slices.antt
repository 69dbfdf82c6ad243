-- ===== src/Common/Slices.antt =====
-- Parts of lists, and writing over a part.
use mathlib.Core.List.{List, [], ◌∷◌, ◌++◌, append_assoc}
use mathlib.Core.Path.{◌≡◌, refl, sym, ap, ◌∙◌}
use native.Mathlib.Omega.{arith}
use Prim.Native.Nat.{ℕ, zero, suc, ◌+◌, ◌-◌, ◌≤◌}
use path_oram_base.Common.Lists.{
  length, take, drop, length-append, length-take, length-drop, take-append, drop-append,
}

module _ {ℓ} {A : Type ℓ} where
  pub drop-append_le :
      (n : ℕ) (xs ys : List A) → n ≤ length xs → drop n (xs ++ ys) ≡ drop n xs ++ ys
  drop-append_le zero xs ys h = refl
  drop-append_le (suc n) [] ys h = absurd (omega arith)
  drop-append_le (suc n) (x ∷ xs) ys h = drop-append_le n xs ys (omega arith)

  pub take-append_le : (n : ℕ) (xs ys : List A) → n ≤ length xs → take n (xs ++ ys) ≡ take n xs
  take-append_le zero xs ys h = refl
  take-append_le (suc n) [] ys h = absurd (omega arith)
  take-append_le (suc n) (x ∷ xs) ys h = ap (◌∷◌ x) (take-append_le n xs ys (omega arith))

  drop-nil : (m : ℕ) → drop {A = A} m [] ≡ []
  drop-nil zero = refl
  drop-nil (suc m) = refl

  take-nil : (m : ℕ) → take {A = A} m [] ≡ []
  take-nil zero = refl
  take-nil (suc m) = refl

  pub drop-drop : (m n : ℕ) (xs : List A) → drop m (drop n xs) ≡ drop (n + m) xs
  drop-drop m zero xs = let e : zero + m ≡ m = omega arith in rw e refl
  drop-drop m (suc n) [] = drop-nil m ∙ sym (drop-nil (suc n + m))
  drop-drop m (suc n) (x ∷ xs) =
      let e : suc n + m ≡ suc (n + m) = omega arith in rw e (drop-drop m n xs)

  pub take-take_le : (n m : ℕ) (xs : List A) → n ≤ m → take n (take m xs) ≡ take n xs
  take-take_le zero m xs h = refl
  take-take_le (suc n) zero xs h = absurd (omega arith)
  take-take_le (suc n) (suc m) [] h = refl
  take-take_le (suc n) (suc m) (x ∷ xs) h = ap (◌∷◌ x) (take-take_le n m xs (omega arith))

  pub drop-take : (n m : ℕ) (xs : List A) → drop n (take m xs) ≡ take (m - n) (drop n xs)
  drop-take zero m xs = let e : m - zero ≡ m = omega arith in rw e refl
  drop-take (suc n) zero xs = let e : zero - suc n ≡ zero = omega arith in rw e refl
  drop-take (suc n) (suc m) [] = sym (take-nil (suc m - suc n))
  drop-take (suc n) (suc m) (x ∷ xs) =
      let e : suc m - suc n ≡ m - n = omega arith in rw e (drop-take n m xs)

  -- The `n` elements from index `i` on.
  abbrev pub slice : ℕ → ℕ → List A → List A
  slice i n xs = take n (drop i xs)

  -- Writing over the elements from index `i` on.
  unfoldable pub splice : ℕ → List A → List A → List A
  splice i ys xs = take i xs ++ (ys ++ drop (i + length ys) xs)

  module _ (i : ℕ) (ys xs : List A) (h : i + length ys ≤ length xs) where
    head_length : length (take i xs) ≡ i
    head_length = omega (arith, length-take i xs)

    pub length-splice : length (splice i ys xs) ≡ length xs
    unfolding splice
    length-splice = omega (
      arith,
      length-append (take i xs) (ys ++ drop (i + length ys) xs),
      length-append ys (drop (i + length ys) xs),
      length-drop (i + length ys) xs,
      head_length,
    )

    pub slice-splice_self : slice i (length ys) (splice i ys xs) ≡ ys
    unfolding splice
    slice-splice_self =
        ap (take (length ys)) (drop-append i (take i xs) _ head_length)
        ∙ take-append (length ys) ys _ refl

    pub slice-splice_before : (j n : ℕ) → j + n ≤ i → slice j n (splice i ys xs) ≡ slice j n xs
    unfolding splice
    slice-splice_before j n k =
        ap (take n) (drop-append_le j (take i xs) _ (omega (arith, head_length)))
        ∙ take-append_le n (drop j (take i xs)) _
            (omega (arith, length-drop j (take i xs), head_length))
        ∙ ap (take n) (drop-take j i xs)
        ∙ take-take_le n (i - j) (drop j xs) (omega arith)

    pub slice-splice_after :
        (j n : ℕ) → i + length ys ≤ j → slice j n (splice i ys xs) ≡ slice j n xs
    unfolding splice
    slice-splice_after j n k =
        let gap : i + length ys + (j - (i + length ys)) ≡ j = omega arith in
        ap (take n) (
          ap (λ t. drop t (splice i ys xs)) (sym gap)
          ∙ sym (drop-drop (j - (i + length ys)) (i + length ys) (splice i ys xs))
          ∙ ap (drop (j - (i + length ys))) (
              ap (drop (i + length ys))
                (sym (append_assoc (take i xs) ys (drop (i + length ys) xs)))
              ∙ drop-append (i + length ys) (take i xs ++ ys) _
                  (omega (arith, length-append (take i xs) ys, head_length)))
          ∙ drop-drop (j - (i + length ys)) (i + length ys) xs
          ∙ ap (λ t. drop t xs) gap)

  -- Behind a prefix, both work on the rest.
  pub splice-append :
      (i : ℕ) (pre ys xs : List A)
      → length pre ≡ i
      → splice i ys (pre ++ xs) ≡ pre ++ (ys ++ drop (length ys) xs)
  unfolding splice
  splice-append i pre ys xs h =
      ap (λ t. t ++ (ys ++ drop (i + length ys) (pre ++ xs))) (take-append i pre xs h)
      ∙ ap (λ t. pre ++ (ys ++ t))
          (sym (drop-drop (length ys) i (pre ++ xs))
            ∙ ap (drop (length ys)) (drop-append i pre xs h))

  pub slice-append :
      (i n : ℕ) (pre ys xs : List A)
      → length pre ≡ i
      → length ys ≡ n
      → slice i n (pre ++ (ys ++ xs)) ≡ ys
  slice-append i n pre ys xs h k =
      ap (take n) (drop-append i pre (ys ++ xs) h) ∙ take-append n ys xs k

  pub drop-length_le : (n : ℕ) (xs : List A) → length xs ≤ n → drop n xs ≡ []
  drop-length_le zero [] h = refl
  drop-length_le zero (x ∷ xs) h = absurd (omega arith)
  drop-length_le (suc n) [] h = refl
  drop-length_le (suc n) (x ∷ xs) h = drop-length_le n xs (omega arith)

  pub take-length_le : (n : ℕ) (xs : List A) → length xs ≤ n → take n xs ≡ xs
  take-length_le zero [] h = refl
  take-length_le zero (x ∷ xs) h = absurd (omega arith)
  take-length_le (suc n) [] h = refl
  take-length_le (suc n) (x ∷ xs) h = ap (◌∷◌ x) (take-length_le n xs (omega arith))

-- ===== src/ShamirParser/Servers/Written.antt =====
-- Lines of numbers as the share files hold them, and their reading, in
-- Shamir_Parser/shamir_parser.cpp.
use mathlib.Core.List.{append-nil}
use path_oram_base.Common.{
  ℕ, ◌^◌, ◌<◌, ◌≡◌, refl, sym, ap, ◌∙◌, arith, false, some, List, [], ◌∷◌, ◌++◌, lt→ltb, ◌==◌, All,
  All-append,
}
use path_oram_base.ShamirParser.Servers.{
  Text, digits_before, pieces, last_piece, is_blank, trim_left, trim_right, digits_value, stoll,
  push_number, tuple_of, tuples_in,
}
use path_oram_base.ShamirParser.Servers.Lines.{
  IsDigit, digit_plain, digits_before-digits, digits_value-digits_before, pieces-append,
  trim_right-digits,
}

-- The numbers that std::stoll takes.
abbrev pub IsInRange : ℕ → Type 0
IsInRange value = value < 2 ^ 63

unfoldable pub line_text : List ℕ → Text
line_text [] = []
line_text (v ∷ vs) = 124 ∷ 32 ∷ digits_before 20 v (32 ∷ line_text vs)

unfoldable pub file_text : List (List ℕ) → Text
unfolding line_text
file_text [] = []
file_text (vs ∷ tuples) = line_text vs ++ 10 ∷ file_text tuples

-- Nothing among the digits separates.
All-plain : (ds : Text) → All IsDigit ds → All (λ c. (c == 124) ≡ false) ds
All-plain [] a = tt
All-plain (d ∷ ds) (h, a) = ((digit_plain d h).1, All-plain ds a)

stoll-digits :
    (v d : ℕ) (ds : Text)
    → IsInRange v
    → IsDigit d
    → digits_before 20 v [] ≡ d ∷ ds
    → stoll (d ∷ ds) ≡ some v
unfolding stoll
stoll-digits v d ds h k e =
    let value : digits_value 0 (d ∷ ds) ≡ v =
      ap (digits_value 0) (sym e)
      ∙ digits_value-digits_before 20 v [] (omega arith) (omega arith) in
    rw (value, (digit_plain d k).3, lt→ltb v (2 ^ 63) h) refl

trim-padded :
    (d : ℕ) (ds : Text)
    → IsDigit d
    → All IsDigit ds
    → trim_right (trim_left (32 ∷ d ∷ (ds ++ 32 ∷ []))) ≡ d ∷ ds
unfolding trim_left is_blank
trim-padded d ds h a = rw ((digit_plain d h).0) (trim_right-digits (d ∷ ds) (h, a))

-- A number between two spaces is read back.
spelled :
    (v : ℕ)
    → IsInRange v
    → (t : Text) × All IsDigit t
      × ((rest : Text) → digits_before 20 v (32 ∷ rest) ≡ t ++ 32 ∷ rest)
      × ((strs : List Text) (vs : List ℕ)
          → tuple_of strs ≡ some vs
          → tuple_of ((32 ∷ (t ++ 32 ∷ [])) ∷ strs) ≡ some (v ∷ vs))
unfolding tuple_of push_number
spelled v h =
    let (d, ds, is, are, same) = digits_before-digits 20 v (omega arith) (omega arith) in
    let read = stoll-digits v d ds h is (same [] ∙ ap (λ l. d ∷ l) (append-nil ds)) in
    (
      d ∷ ds,
      (is, are),
      λ rest. same (32 ∷ rest),
      λ strs vs e. rw (trim-padded d ds is are, e, read) refl,
    )

-- The space behind a number ends its piece.
tuple_of-closed :
    (t : Text) (v : ℕ) (vs : List ℕ)
    → ((strs : List Text) (ws : List ℕ)
        → tuple_of strs ≡ some ws
        → tuple_of ((32 ∷ (t ++ 32 ∷ [])) ∷ strs) ≡ some (v ∷ ws))
    → tuple_of (pieces 124 [] (line_text vs)) ≡ some vs
    → tuple_of (pieces 124 (32 ∷ t) (32 ∷ line_text vs)) ≡ some (v ∷ vs)
unfolding pieces last_piece line_text tuple_of push_number
tuple_of-closed t v [] read next = read [] [] refl
tuple_of-closed t v (w ∷ ws) read next =
    read (pieces 124 [] (32 ∷ digits_before 20 w (32 ∷ line_text ws))) (w ∷ ws) next

pub tuple_of-line_text :
    (vs : List ℕ) → All IsInRange vs → tuple_of (pieces 124 [] (line_text vs)) ≡ some vs
unfolding pieces last_piece line_text tuple_of push_number
tuple_of-line_text [] a = refl
tuple_of-line_text (v ∷ vs) (h, a) =
    let (t, are, same, read) = spelled v h in
    ap (λ l. tuple_of (pieces 124 (32 ∷ []) l)) (same (line_text vs))
    ∙ ap tuple_of (pieces-append 124 (32 ∷ []) t (32 ∷ line_text vs) (All-plain t are))
    ∙ tuple_of-closed t v vs read (tuple_of-line_text vs a)

-- No line feed stands in a line.
line_text-plain : (vs : List ℕ) → All IsInRange vs → All (λ c. (c == 10) ≡ false) (line_text vs)
unfolding line_text
line_text-plain [] a = tt
line_text-plain (v ∷ vs) (h, a) =
    let (t, are, same, read) = spelled v h in
    rw (same (line_text vs)) (
      refl,
      (
        refl,
        All-append (λ c. (c == 10) ≡ false) t (32 ∷ line_text vs) (All-unbroken t are)
            (refl, line_text-plain vs a),
      ),
    )
  where
    All-unbroken : (ds : Text) → All IsDigit ds → All (λ c. (c == 10) ≡ false) ds
    All-unbroken [] a = tt
    All-unbroken (d ∷ ds) (h, a) = ((digit_plain d h).2, All-unbroken ds a)

-- A file of lines is read back.
pub tuples_in-file_text :
    (tuples : List (List ℕ))
    → All (All IsInRange) tuples
    → tuples_in (pieces 10 [] (file_text tuples)) ≡ some tuples
unfolding tuples_in pieces last_piece file_text
tuples_in-file_text [] a = refl
tuples_in-file_text (vs ∷ tuples) (h, a) =
    ap tuples_in (pieces-append 10 [] (line_text vs) (10 ∷ file_text tuples) (line_text-plain vs h))
    ∙ (rw (tuple_of-line_text vs h, tuples_in-file_text tuples a) refl)

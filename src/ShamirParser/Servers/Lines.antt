-- ===== src/ShamirParser/Servers/Lines.antt =====
-- The text of a file of shares and its reading, in Shamir_Parser/shamir_parser.cpp.
use mathlib.Core.List.{append-nil, append_assoc}
use native.Mathlib.Nat.{pow-suc}
use path_oram_base.Common.{
  ℕ, zero, suc, ◌+◌, ◌/◌, ◌%◌, ◌^◌, ◌<◌, ◌≤◌, ◌≡◌, refl, sym, ap, ◌∙◌, arith, true, false, [], ◌∷◌,
  ◌++◌, ltb, ltb→lt, le→leb, ◌==◌, ne→==, inl, inr, Bool-cases, All, All-append,
}
use path_oram_base.ShamirParser.Servers.{
  Text, digits_before, pieces, is_blank, trim_right, keep_before, is_digit, digits_value,
}

abbrev pub IsDigit : ℕ → Type 0
IsDigit c = (48 ≤ c) × (c ≤ 57)

some_left : (fuel value : ℕ) → 10 ≤ value → value < 10 ^ suc fuel → 0 < fuel
some_left zero value h k = absurd (omega arith)
some_left (suc fuel) value h k = omega arith

-- The digits of a value make the value.
pub digits_value-digits_before :
    (fuel value : ℕ) (text : Text)
    → value < 10 ^ fuel
    → 0 < fuel
    → digits_value 0 (digits_before fuel value text) ≡ digits_value value text
unfolding digits_before digits_value
digits_value-digits_before zero value text h p = absurd (omega arith)
digits_value-digits_before (suc fuel) value text h p = elim (Bool-cases (ltb value 10)) [
  | inl e ↦
      let small = ltb→lt value 10 e in
      rw
        (
          digits_before,
          e,
          le→leb 48 (48 + value % 10) (omega arith),
          le→leb (48 + value % 10) 57 (omega arith),
        )
        (ap (λ v. digits_value v text) (omega (arith, small)))
  | inr e ↦
      let large : 10 ≤ value = ground (arith, e) in
      let less : value / 10 < 10 ^ fuel = omega (arith, pow-suc 10 fuel) in
      rw (digits_before, e)
        (digits_value-digits_before fuel (value / 10) ((48 + value % 10) ∷ text) less
            (some_left fuel value large h)
          ∙ (rw
              (
                digits_value,
                le→leb 48 (48 + value % 10) (omega arith),
                le→leb (48 + value % 10) 57 (omega arith),
              )
              (ap (λ v. digits_value v text) (omega arith))))
]

-- Digits are not blank, and separate nothing.
pub digit_plain :
    (c : ℕ)
    → IsDigit c
    → (is_blank c ≡ false) × ((c == 124) ≡ false) × ((c == 10) ≡ false) × (is_digit c ≡ true)
unfolding is_blank
digit_plain c (h, k) =
    let e32 = ne→== c 32 (omega arith) in
    let e9 = ne→== c 9 (omega arith) in
    let e10 = ne→== c 10 (omega arith) in
    let e13 = ne→== c 13 (omega arith) in
    (
      rw (e32, e9, e10, e13) refl,
      ne→== c 124 (omega arith),
      e10,
      rw (le→leb 48 c h, le→leb c 57 k) refl,
    )

-- The digits are one at least.
pub digits_before-digits :
    (fuel value : ℕ)
    → value < 10 ^ fuel
    → 0 < fuel
    → (d : ℕ) × (ds : Text) × IsDigit d
      × All IsDigit ds
      × ((text : Text) → digits_before fuel value text ≡ d ∷ (ds ++ text))
unfolding digits_before
digits_before-digits zero value h p = absurd (omega arith)
digits_before-digits (suc fuel) value h p = elim (Bool-cases (ltb value 10)) [
  | inl e ↦ (48 + value % 10, [], (omega arith, omega arith), tt, λ text. rw e refl)
  | inr e ↦
      let large : 10 ≤ value = ground (arith, e) in
      let less : value / 10 < 10 ^ fuel = omega (arith, pow-suc 10 fuel) in
      let c = 48 + value % 10 in
      let (d, ds, is, are, same) =
        digits_before-digits fuel (value / 10) less (some_left fuel value large h) in
      (
        d,
        ds ++ c ∷ [],
        is,
        All-append IsDigit ds (c ∷ []) are ((omega arith, omega arith), tt),
        λ text. rw e (same (c ∷ text) ∙ ap (λ l. d ∷ l) (sym (append_assoc ds (c ∷ []) text))),
      )
]

-- What does not contain the separator is read on.
pub pieces-append :
    (separator : ℕ) (read more rest : Text)
    → All (λ c. (c == separator) ≡ false) more
    → pieces separator read (more ++ rest) ≡ pieces separator (read ++ more) rest
unfolding pieces
pieces-append separator read [] rest a = ap (λ l. pieces separator l rest) (sym (append-nil read))
pieces-append separator read (c ∷ more) rest (h, a) = rw h (
    pieces-append separator (read ++ c ∷ []) more rest a
    ∙ ap (λ l. pieces separator l rest) (append_assoc read (c ∷ []) more))

pub trim_right-digits : (ds : Text) → All IsDigit ds → trim_right (ds ++ 32 ∷ []) ≡ ds
unfolding trim_right keep_before is_blank
trim_right-digits [] a = refl
trim_right-digits (d ∷ []) (h, a) = rw ((digit_plain d h).0) refl
trim_right-digits (d ∷ e ∷ ds) (h, a) = rw (trim_right-digits (e ∷ ds) a) refl

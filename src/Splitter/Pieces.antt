-- ===== src/Splitter/Pieces.antt =====
-- How read_file of path-oram/src/splitter.cpp reads a file piece by piece.
use mathlib.Core.List.{append_assoc}
use path_oram_base.Common.{
  ℕ, zero, suc, ◌+◌, ◌-◌, ◌*◌, ◌/◌, ◌%◌, ◌<◌, ◌≤◌, ◌≡◌, sym, ap, ◌∙◌, arith, some, ◌++◌, length,
  take, drop, replicate, length-take, length-drop, length-append, length-replicate, ltb, inl, inr,
  append-take-drop, Bool-cases, ne→==,
}
use path_oram_base.Splitter.{read_pieces, empty_count}
use path_oram_base.Splitter.Numbers.{numbers_of, numbers_lem, numbers_of-append}
use path_oram_base.Types.{Bytes}

-- The pieces together are the numbers of the file, with zeros at its end.
pub read_pieces_lem :
    (fuel p m ct : ℕ) (file : Bytes)
    → 0 < p
    → length file < fuel
    → length file + ct ≡ 7 * m
    → ct < 7
    → 0 < ct
    → read_pieces fuel (7 * p) ct file ≡ some (numbers_of m (file ++ replicate ct 0))
unfolding read_pieces
read_pieces_lem zero p m ct file h f k l n = absurd (omega arith)
read_pieces_lem (suc fuel) p m ct file h f k l n = elim (Bool-cases (ltb (length file) (7 * p))) [
  | inl e ↦
      rw (read_pieces, e, ne→== (length file) 0 (omega arith))
        (numbers_lem m (file ++ replicate ct 0)
          (omega (arith, length-append file (replicate ct 0), length-replicate {A = ℕ} ct 0)))
  | inr e ↦
      let long : 7 * p ≤ length file = ground (arith, e) in
      let first = take (7 * p) file in
      let rest = drop (7 * p) file in
      let less = length-drop (7 * p) file in
      let exact : length first ≡ 7 * p = omega (arith, length-take (7 * p) file) in
      rw
        (
          read_pieces,
          e,
          numbers_lem p first exact,
          read_pieces_lem fuel p (m - p) ct rest h (omega (arith, less)) (omega (arith, less)) l n,
        )
        (ap some (
          sym (numbers_of-append p (m - p) first (rest ++ replicate ct 0) exact)
          ∙ ap (λ t. numbers_of t (first ++ (rest ++ replicate ct 0))) (omega arith)
          ∙ ap (numbers_of m) (
              sym (append_assoc first rest (replicate ct 0))
              ∙ ap (λ t. t ++ replicate ct 0) (append-take-drop (7 * p) file))))
]

-- For a size that is not a multiple of seven, `ct_empty` fills it up.
pub empty_count_lem :
    (junk tot : ℕ)
    → 0 < tot % 7
    → (m : ℕ) × (tot + empty_count junk tot ≡ 7 * m)
      × (empty_count junk tot < 7)
      × (0 < empty_count junk tot)
unfolding empty_count
empty_count_lem junk tot h =
    rw (ne→== ((tot + 7) % 7) 0 (omega arith))
      ((tot + 7) / 7, omega arith, omega arith, omega arith)

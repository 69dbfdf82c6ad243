-- ===== src/Cloak/Containers/RoundTrip.antt =====
-- A container that was framed comes back.
use mathlib.Core.List.{append_assoc}
use path_oram_base.Common.{
  ℕ, ◌+◌, ◌*◌, ◌^◌, ◌<◌, ◌≡◌, refl, sym, ap, ◌∙◌, List, [], ◌∷◌, ◌++◌, arith, length, take,
  length-append, take-append, All, replicate,
}
use path_oram_base.Common.Slices.{slice, slice-append}
use path_oram_base.Encoding.{le_bytes, from_le, le_bytes-IsBytes, from_le-le_bytes}
use path_oram_base.Cloak.Containers.{
  serialize_row, serialize, read_row, read_rows, deserialize, frame, unframe,
}
use path_oram_base.Types.{Bytes}

-- A tuple: 16 numbers of 64 bits.
abbrev pub IsTuple : List ℕ → Type 0
IsTuple row = (length row ≡ 16) × All (λ v. v < 2 ^ 64) row

length-serialize_row : (row : List ℕ) → length (serialize_row row) ≡ length row * 8
unfolding serialize_row
length-serialize_row [] = omega arith
length-serialize_row (v ∷ vs) = omega (
  arith,
  length-append (le_bytes 8 v) (serialize_row vs),
  (le_bytes-IsBytes 8 v).0,
  length-serialize_row vs,
)

length-serialize :
    (rows : List (List ℕ)) → All IsTuple rows → length (serialize rows) ≡ length rows * 128
unfolding serialize
length-serialize [] h = omega arith
length-serialize (row ∷ rows) h = omega (
  arith,
  length-append (serialize_row row) (serialize rows),
  length-serialize_row row,
  h.0.0,
  length-serialize rows h.1,
)

read_row-serialize_row :
    (row : List ℕ) (pre rest : Bytes)
    → All (λ v. v < 2 ^ 64) row
    → read_row (length row) (length pre) (pre ++ (serialize_row row ++ rest)) ≡ row
unfolding read_row serialize_row
read_row-serialize_row [] pre rest h = refl
read_row-serialize_row (v ∷ vs) pre rest h =
    let b = le_bytes 8 v in
    let size : length b ≡ 8 = (le_bytes-IsBytes 8 v).0 in
    let regroup : pre ++ ((b ++ serialize_row vs) ++ rest)
        ≡ pre ++ (b ++ (serialize_row vs ++ rest)) =
      ap (λ t. pre ++ t) (append_assoc b (serialize_row vs) rest) in
    let first : from_le (slice (length pre) 8 (pre ++ (b ++ (serialize_row vs ++ rest)))) ≡ v =
      ap from_le (slice-append (length pre) 8 pre b (serialize_row vs ++ rest) refl size)
      ∙ from_le-le_bytes 8 v (omega (arith, h.0)) in
    ap (λ t. from_le (slice (length pre) 8 t) ∷ read_row (length vs) (length pre + 8) t) regroup
    ∙ ap (λ t. t ∷ read_row (length vs) (length pre + 8) (pre ++ (b ++ (serialize_row vs ++ rest))))
        first
    ∙ ap (λ t. v ∷ read_row (length vs) (length pre + 8) t)
        (sym (append_assoc pre b (serialize_row vs ++ rest)))
    ∙ ap (λ n. v ∷ read_row (length vs) n ((pre ++ b) ++ (serialize_row vs ++ rest)))
        (omega (arith, length-append pre b, size))
    ∙ ap (◌∷◌ v) (read_row-serialize_row vs (pre ++ b) rest h.1)

read_rows-serialize :
    (rows : List (List ℕ)) (pre : Bytes)
    → All IsTuple rows
    → read_rows (length rows) (length pre) (pre ++ serialize rows) ≡ rows
unfolding read_rows serialize
read_rows-serialize [] pre h = refl
read_rows-serialize (row ∷ rows) pre h =
    let b = serialize_row row in
    let size : length b ≡ 128 = omega (arith, length-serialize_row row, h.0.0) in
    let first : read_row 16 (length pre) (pre ++ (b ++ serialize rows)) ≡ row =
      ap (λ n. read_row n (length pre) (pre ++ (b ++ serialize rows))) (sym h.0.0)
      ∙ read_row-serialize_row row pre (serialize rows) h.0.1 in
    ap (λ t. t ∷ read_rows (length rows) (length pre + 128) (pre ++ (b ++ serialize rows))) first
    ∙ ap (λ t. row ∷ read_rows (length rows) (length pre + 128) t)
        (sym (append_assoc pre b (serialize rows)))
    ∙ ap (λ n. row ∷ read_rows (length rows) n ((pre ++ b) ++ serialize rows))
        (omega (arith, length-append pre b, size))
    ∙ ap (◌∷◌ row) (read_rows-serialize rows (pre ++ b) h.1)

pub deserialize-serialize :
    (rows : List (List ℕ)) → All IsTuple rows → deserialize (serialize rows) ≡ rows
unfolding deserialize
deserialize-serialize rows h =
    ap (λ n. read_rows n 0 (serialize rows)) (omega (arith, length-serialize rows h))
    ∙ read_rows-serialize rows [] h

-- If a container has tuples of 16 numbers of 64 bits, and serializes to fewer than 2 ^ 64 bytes,
-- then getContainer makes the container again of what putContainer puts, however many zeros the
-- storage appends.
pub unframe-frame :
    (rows : List (List ℕ)) (n : ℕ)
    → All IsTuple rows
    → length rows * 128 < 2 ^ 64
    → unframe (frame rows ++ replicate n 0) ≡ rows
unfolding frame unframe
unframe-frame rows n h k =
    by_size (le_bytes 8 (length (serialize rows))) (le_bytes-IsBytes 8 (length (serialize rows))).0
      (from_le-le_bytes 8 (length (serialize rows)) (omega (arith, length-serialize rows h, k)))
  where
    by_size :
        (b : Bytes)
        → length b ≡ 8
        → from_le b ≡ length (serialize rows)
        → unframe ((b ++ serialize rows) ++ replicate n 0) ≡ rows
    by_size [] e q = absurd (omega arith)
    by_size (x ∷ xs) e q =
        let b = x ∷ xs in
        let regroup : (b ++ serialize rows) ++ replicate n 0
            ≡ b ++ (serialize rows ++ replicate n 0) =
          append_assoc b (serialize rows) (replicate n 0) in
        let size : from_le (take 8 (b ++ (serialize rows ++ replicate n 0)))
            ≡ length (serialize rows) =
          ap from_le (take-append 8 b _ e) ∙ q in
        ap (λ t. deserialize (slice 8 (from_le (take 8 t)) t)) regroup
        ∙ ap (λ m. deserialize (slice 8 m (b ++ (serialize rows ++ replicate n 0)))) size
        ∙ ap deserialize
            (slice-append 8 (length (serialize rows)) b (serialize rows) (replicate n 0) e refl)
        ∙ deserialize-serialize rows h

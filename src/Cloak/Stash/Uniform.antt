-- ===== src/Cloak/Stash/Uniform.antt =====
-- The entries of the stash of path_oram_Cloak_Query/src/stash-adapter.cpp have one size.
use path_oram_base.Common.{
  ℕ, ◌-◌, ◌<◌, ◌≤◌, ◌≡◌, ◌∙◌, Bool, true, false, inl, inr, Bool-cases, List, [], ◌∷◌, arith, length,
  replicate, length-append, length-replicate, length-take, All, ltb, if◌then◌else◌, ◌==◌, ◌&&◌,
}
use path_oram_base.Common.Assoc.{insert, insert-All, assign-All, count}
use path_oram_base.Common.Effect.{Outcome, ok, err}
use path_oram_base.Cloak.Stash.{adjusted, reference_size, is_suspicious, add, update}
use path_oram_base.Stash.{Stash, check_overflow}
use path_oram_base.Types.{Bytes, Block}

-- All entries have `n` bytes of data.
abbrev pub IsUniform : ℕ → List Block → Type 0
IsUniform n es = All (λ e. length e.1 ≡ n) es

length-adjusted : (n : ℕ) (bytes : Bytes) → length (adjusted n bytes) ≡ n
unfolding adjusted
length-adjusted n bytes = elim (Bool-cases (ltb (length bytes) n)) [
  | inl e ↦ rw e (
      omega (
        arith,
        length-append bytes (replicate (n - length bytes) 0),
        length-replicate {A = ℕ} (n - length bytes) 0,
        shorter e,
      ))
  | inr e ↦ rw e (omega (arith, length-take n bytes, longer e))
]
  where
    shorter : ltb (length bytes) n ≡ true → length bytes < n
    shorter e = ground arith

    longer : ltb (length bytes) n ≡ false → n ≤ length bytes
    longer e = ground arith

reference_size-IsUniform :
    (n : ℕ) (es : List Block) (bytes : Bytes)
    → IsUniform n es
    → 0 < length es
    → reference_size es bytes ≡ n
unfolding reference_size
reference_size-IsUniform n [] bytes h k = absurd (omega arith)
reference_size-IsUniform n (e ∷ es) bytes h k = h.0

-- What an operation leaves, whether it throws or not, is uniform.
abbrev pub LeavesUniform : ℕ → Outcome Stash (Unit {0}) → Type 0
LeavesUniform n (ok a t) = IsUniform n t.entries
LeavesUniform n (err e t) = IsUniform n t.entries

-- If the entries of a stash that is not empty all have n bytes of data, then so do they after an
-- add and after an update, whatever the size of the new data, and also where these throw.
pub update-IsUniform :
    (n block : ℕ) (bytes : Bytes) (s : Stash)
    → 0 < length s.entries
    → IsUniform n s.entries
    → LeavesUniform n (add block bytes s) × LeavesUniform n (update block bytes s)
unfolding add update check_overflow
update-IsUniform n block bytes s h k =
    elim (Bool-cases (length s.entries == s.capacity && count block s.entries == 0)) [
      | inl e ↦ rw e (k, k)
      | inr e ↦
          rw e
            (pick (is_suspicious block), assign-All (λ e. length e.1 ≡ n) block _ s.entries new k)
    ]
  where
    new : length (adjusted (reference_size s.entries bytes) bytes) ≡ n
    new =
        length-adjusted (reference_size s.entries bytes) bytes
        ∙ reference_size-IsUniform n s.entries bytes k h

    pick :
        (b : Bool)
        → IsUniform n
            (if b then s else record s {
              entries = insert block (adjusted (reference_size s.entries bytes) bytes) s.entries;
            }).entries
    pick true = k
    pick false = insert-All (λ e. length e.1 ≡ n) block _ s.entries new k

-- ===== src/Oram/Memory.antt =====
-- What an ORAM object of path-oram/src/oram.cpp promises: to be a memory of blocks. The storage
-- pads data with zeros to the block size, so data count up to that padding.
use path_oram_base.Common.{
  ℕ, ◌≤◌, ◌<◌, ◌≡◌, ◌≢◌, refl, Bool, true, false, Option, none, some, List, [], ◌∷◌, ◌++◌, arith,
  ◌==◌, if◌then◌else◌, ==_refl, ne→==, tally, Bool-cases, inl, inr,
}
use path_oram_base.Common.Assoc.{count, has_key, lookup}
use path_oram_base.Oram.Invariant.{census}
use path_oram_base.Oram.{Oram}
use path_oram_base.Storage.{Storage, pad}
use path_oram_base.Types.{Bytes, Block}

unfoldable pub bytes_eq : Bytes → Bytes → Bool
bytes_eq [] [] = true
bytes_eq [] (y ∷ ys) = false
bytes_eq (x ∷ xs) [] = false
bytes_eq (x ∷ xs) (y ∷ ys) = if x == y then bytes_eq xs ys else false

pub bytes_eq_refl : (xs : Bytes) → bytes_eq xs xs ≡ true
unfolding bytes_eq
bytes_eq_refl [] = refl
bytes_eq_refl (x ∷ xs) = rw (==_refl x) (bytes_eq_refl xs)

pub bytes_eq→eq : (xs ys : Bytes) → bytes_eq xs ys ≡ true → xs ≡ ys
unfolding bytes_eq
bytes_eq→eq [] [] h = refl
bytes_eq→eq [] (y ∷ ys) h = cc
bytes_eq→eq (x ∷ xs) [] h = cc
bytes_eq→eq (x ∷ xs) (y ∷ ys) h = ground (arith, bytes_eq→eq xs ys)

-- Is this the block `b` with the data `bytes`, up to padding?
unfoldable pub matches : ℕ → ℕ → Bytes → Block → Bool
matches n b bytes e = if e.0 == b then bytes_eq (pad n e.1) (pad n bytes) else false

abbrev pub Memory : Type 0
Memory = ℕ → Option Bytes

abbrev pub write : Memory → ℕ → Bytes → Memory
write m b bytes k = if k == b then some bytes else m k

-- The block is stored once with these data, or not at all.
abbrev pub Stores : {T : Storage} → Oram T → ℕ → Option Bytes → Type 0
Stores s b none = census (has_key b) s ≡ 0
Stores {T} s b (some bytes) =
    (census (has_key b) s ≡ 1) × (census (matches T.block_size b bytes) s ≡ 1)

-- The object holds what the memory says, for every block that the position map knows.
abbrev pub Represents : {T : Storage} → Memory → Oram T → Type 0
Represents m s = (b : ℕ) → b < s.map.capacity → Stores s b (m b)

-- What a read puts before the old response: nothing for a block that was never written.
abbrev pub Answers : ℕ → Option Bytes → Bytes → Bytes → Type 0
Answers n none response result = result ≡ response
Answers n (some bytes) response result =
    (v : Bytes) × (result ≡ v ++ response) × (pad n v ≡ pad n bytes)

pub matches_only :
    (n b : ℕ) (bytes : Bytes) (j : ℕ) (v : Bytes) → j ≢ b → matches n b bytes (j, v) ≡ false
unfolding matches
matches_only n b bytes j v h = rw (ne→== j b h) refl

pub matches_same :
    (n b : ℕ) (bytes v : Bytes) → pad n v ≡ pad n bytes → matches n b bytes (b, v) ≡ true
unfolding matches
matches_same n b bytes v h = rw (==_refl b, h) (bytes_eq_refl (pad n bytes))

-- The entry that is found has the data that the count speaks of.
pub lookup-matches :
    (n b : ℕ) (bytes : Bytes) (es : List Block)
    → count b es ≤ 1
    → tally (matches n b bytes) es ≡ 1
    → (v : Bytes) × (lookup b es ≡ some v) × (pad n v ≡ pad n bytes)
unfolding lookup matches
lookup-matches n b bytes [] h k = absurd (omega arith)
lookup-matches n b bytes ((j, v) ∷ es) h k = elim (Bool-cases (j == b)) [
  | inr miss ↦
      let (u, found, same) = lookup-matches n b bytes es (ground arith) (ground arith) in
      (u, rw (lookup, miss) found, same)
  | inl hit ↦
      (v, rw (lookup, hit) refl, bytes_eq→eq (pad n v) (pad n bytes) (ground (arith, absent es)))
]
  where
    absent : (xs : List Block) → count b xs ≡ 0 → tally (matches n b bytes) xs ≡ 0
    absent [] q = refl
    absent ((i, u) ∷ xs) q = ground (arith, absent xs)

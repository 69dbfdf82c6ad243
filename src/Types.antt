-- ===== src/Types.antt =====
-- path-oram/include/definitions.h: the types of the protocol. A `number` is an unsigned 64-bit
-- word and an `uchar` a byte, both kept as plain numbers, with the reductions written where the
-- code makes them.
use path_oram_base.Common.{ℕ, ◌-◌, ◌^◌, ◌≡◌, ◌≢◌, refl, List, Bool, true, false, ◌==◌, arith}

abbrev pub Bytes : Type 0
Bytes = List ℕ

-- An ID and its data.
abbrev pub Block : Type 0
Block = ℕ × Bytes

abbrev pub Bucket : Type 0
Bucket = List Block

-- ULONG_MAX, the ID of a dummy block.
abbrev pub empty_id : ℕ
empty_id = 2 ^ 64 - 1

-- Is this block no dummy?
unfoldable pub is_real : Block → Bool
is_real e = elim (e.0 == empty_id) [ Bool.true ↦ Bool.false | Bool.false ↦ Bool.true ]

-- A test of blocks, which no dummy passes.
unfoldable pub real : (Block → Bool) → Block → Bool
real p e = elim (is_real e) [ Bool.true ↦ p e | Bool.false ↦ Bool.false ]

pub real-true : (p : Block → Bool) (e : Block) → is_real e ≡ true → real p e ≡ p e
unfolding real
real-true p e h = rw (real, h) refl

pub real-false : (p : Block → Bool) (e : Block) → is_real e ≡ false → real p e ≡ false
unfolding real
real-false p e h = rw (real, h) refl

pub is_real_ne : (e : Block) → e.0 ≢ empty_id → is_real e ≡ true
unfolding is_real
is_real_ne e h = ground arith

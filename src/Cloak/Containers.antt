-- ===== src/Cloak/Containers.antt =====
-- Containers: serialize and deserialize of path_oram_Cloak_Query/include/definitions.h, and how
-- putContainer and getContainer of path_oram_Cloak_Query/src/oram.cpp frame them. An int64_t is the
-- number that its 64 bits make.
pub mod RoundTrip
use path_oram_base.Common.{
  ℕ, zero, suc, ◌+◌, ◌/◌, ◌==◌, Bool, true, false, List, [], ◌∷◌, ◌++◌, length, take, drop,
}
use path_oram_base.Common.Slices.{slice}
use path_oram_base.Encoding.{le_bytes, from_le}
use path_oram_base.Types.{Bytes}

-- The inner loop of serialize.
unfoldable pub serialize_row : List ℕ → Bytes
serialize_row [] = []
serialize_row (v ∷ vs) = le_bytes 8 v ++ serialize_row vs

unfoldable pub serialize : List (List ℕ) → Bytes
serialize [] = []
serialize (row ∷ rows) = serialize_row row ++ serialize rows

-- `rounds` numbers from `offset` on.
unfoldable pub read_row : ℕ → ℕ → Bytes → List ℕ
read_row zero offset serialized = []
read_row (suc rounds) offset serialized =
    from_le (slice offset 8 serialized) ∷ read_row rounds (offset + 8) serialized

unfoldable pub read_rows : ℕ → ℕ → Bytes → List (List ℕ)
read_rows zero offset serialized = []
read_rows (suc rounds) offset serialized =
    read_row 16 offset serialized ∷ read_rows rounds (offset + 128) serialized

unfoldable pub deserialize : Bytes → List (List ℕ)
deserialize serialized = read_rows (length serialized / 16 / 8) 0 serialized

-- What putContainer puts: the size, and the serialized container.
unfoldable pub frame : List (List ℕ) → Bytes
frame container = le_bytes 8 (length (serialize container)) ++ serialize container

-- What getContainer makes of the block that it got.
unfoldable pub unframe : Bytes → List (List ℕ)
unframe [] = []
unframe (b ∷ bs) = deserialize (slice 8 (from_le (take 8 (b ∷ bs))) (b ∷ bs))

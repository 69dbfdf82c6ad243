-- ===== src/ShamirParser.antt =====
-- Shamir_Parser/shamir_parser.cpp: what turns attributes into numbers, and the order of the shares.
-- A `char` is a number below 128 here, and `none` is signed overflow.
pub mod Strings
pub mod Unique
pub mod Transposing
pub mod Servers
use path_oram_base.Common.{
  ℕ, zero, suc, ◌+◌, ◌*◌, ◌/◌, ◌%◌, Bool, true, false, Option, none, some, List, [], ◌∷◌, ◌++◌,
  length, get_elem?, ltb, ◌==◌, ◌&&◌, if◌then◌else◌, not,
}
use path_oram_base.Common.Assoc.{count}
use path_oram_base.Common.Checked.{ll, ◌>>=◌}

-- The loop of stringToInt.
unfoldable pub add_chars : List ℕ → ℕ → Option ℕ
add_chars [] result = some result
add_chars (c ∷ cs) result = do
  shifted ← ll (result * 256)
  next ← ll (shifted + c)
  add_chars cs next

unfoldable pub string_to_int : List ℕ → Option ℕ
string_to_int str = add_chars str 0

-- The loop of intToString. A 64-bit value is divided to 0 in eight rounds.
unfoldable pub chars_before : ℕ → ℕ → List ℕ → List ℕ
chars_before zero value result = result
chars_before (suc fuel) value result = elim (value == 0) [
  | true ↦ result
  | false ↦ chars_before fuel (value / 256) (value % 256 ∷ result)
]

unfoldable pub int_to_string : ℕ → List ℕ
int_to_string value = chars_before 9 value []

-- mapUniqueValues, for values that are numbers; the map is a list of its entries.
unfoldable pub add_values : List ℕ → ℕ → List (ℕ × ℕ) → List (ℕ × ℕ)
add_values [] counter value_map = value_map
add_values (v ∷ vs) counter value_map = elim (count v value_map == 0) [
  | true ↦ add_values vs (counter + 1) ((v, counter) ∷ value_map)
  | false ↦ add_values vs counter value_map
]

unfoldable pub map_unique_values : List ℕ → List (ℕ × ℕ)
map_unique_values values = add_values values 1 []

-- The attribute of a tuple, if both are there.
abbrev pub attribute_of : ℕ → Option (List ℕ) → Option ℕ
attribute_of a none = none
attribute_of a (some tuple) = get_elem? tuple a

-- emplace_back, if there is a share.
abbrev pub with_share : ℕ → Option ℕ → List (ℕ × ℕ) → List (ℕ × ℕ)
with_share x none rest = rest
with_share x (some y) rest = (x, y) ∷ rest

-- The shares of the servers for one attribute of one tuple, from the server with index `i` on. The
-- last argument is what the servers have: a list of tuples, each a list of numbers.
unfoldable pub shares_at : ℕ → ℕ → ℕ → List (List (List ℕ)) → List (ℕ × ℕ)
shares_at a t i [] = []
shares_at a t i (server ∷ servers) =
    with_share (i + 1) (attribute_of a (get_elem? server t)) (shares_at a t (i + 1) servers)

-- The tuples of an attribute, and the attributes, from the given index on.
unfoldable pub tuples_of : ℕ → ℕ → ℕ → List (List (List ℕ)) → List (List (ℕ × ℕ))
tuples_of a t zero servers = []
tuples_of a t (suc n) servers = shares_at a t 0 servers ∷ tuples_of a (t + 1) n servers

unfoldable pub attributes_of : ℕ → ℕ → ℕ → List (List (List ℕ)) → List (List (List (ℕ × ℕ)))
attributes_of a zero tuples servers = []
attributes_of a (suc n) tuples servers =
    tuples_of a 0 tuples servers ∷ attributes_of (a + 1) n tuples servers

-- transformShares: without a first tuple of the first server the code reads past the end.
unfoldable pub transform_shares : List (List (List ℕ)) → Option (List (List (List (ℕ × ℕ))))
transform_shares [] = some []
transform_shares ([] ∷ servers) = none
transform_shares ((tuple ∷ tuples) ∷ servers) =
    some (attributes_of 0 (length tuple) (length (tuple ∷ tuples)) ((tuple ∷ tuples) ∷ servers))
